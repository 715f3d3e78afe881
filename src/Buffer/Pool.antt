-- ===== src/Buffer/Pool.antt =====
-- When a buffer pool of storage/buffer/buffer_pool_manager.go is in order: which frames may be taken, and
-- which pages stay.
use samehada_db.Base.{
  ℕ, ◌<◌, List, Bool, true, false, ◌==◌, if◌then◌else◌, Option, none, some, ◌≡◌, refl, arith, subst,
  ◌≢◌, Bool-cases, inl, inr, ◌⊎◌,
}
use samehada_db.Log.Append.{IsReady}
use samehada_db.Page.{Page}
use samehada_db.Ring.Chain.{has, NoRepeat}
use samehada_db.Clock.Frames.{Holds}
use samehada_db.Buffer.{BufferPoolManager, set_entry}

-- A page of the table is in its frame.
pub record IsLoaded (b : BufferPoolManager) (page_id f : ℕ) : Type 0 where
  pub in_pool : f < b.pool_size
  pub not_free : has f b.free_list ≡ false
  pub page : Page
  pub at : b.pages f ≡ some page
  pub named : page.id ≡ page_id

-- A frame of the replacer has a page of the table that nobody has pinned.
pub record IsEvictable (b : BufferPoolManager) (f : ℕ) : Type 0 where
  pub page : Page
  pub at : b.pages f ≡ some page
  pub unpinned : page.pin_count ≡ 0
  pub entry : b.page_table page.id ≡ some f

-- The pool is in order, and its replacer holds `frames`.
pub record IsPool (b : BufferPoolManager) (frames : List ℕ) : Type 0 where
  pub holds : Holds b.replacer frames
  pub capacity : b.replacer.c_list.capacity ≡ b.pool_size
  pub log : IsReady b.log_manager
  pub loaded : (p f : ℕ) → b.page_table p ≡ some f → IsLoaded b p f
  pub free_in : (f : ℕ) → has f b.free_list ≡ true → f < b.pool_size
  pub free_distinct : NoRepeat b.free_list
  pub evictable : (f : ℕ) → has f frames ≡ true → IsEvictable b f

-- A frame that nothing uses.
pub record IsSpare (b : BufferPoolManager) (frames : List ℕ) (f : ℕ) : Type 0 where
  pub in_pool : f < b.pool_size
  pub not_free : has f b.free_list ≡ false
  pub not_held : has f frames ≡ false
  pub not_used : (p : ℕ) → b.page_table p ≢ some f

-- The pages that are pinned stay as they are, where they are, but for that of one number.
abbrev pub KeepsPinned : BufferPoolManager → BufferPoolManager → ℕ → Type 0
KeepsPinned b b' except =
    (q g : ℕ) (pg : Page)
    → q ≢ except
    → b.page_table q ≡ some g
    → b.pages g ≡ some pg
    → 0 < pg.pin_count
    → (b'.page_table q ≡ some g) × (b'.pages g ≡ some pg)

pub some_page : {p q : Page} → ◌≡◌ {A = Option Page} (some p) (some q) → p ≡ q
some_page h = cc

pub some_frame : {p q : ℕ} → ◌≡◌ {A = Option ℕ} (some p) (some q) → p ≡ q
some_frame h = cc

pub none-some : {f : ℕ} → ◌≡◌ {A = Option ℕ} none (some f) → ⊥
none-some h = cc

pub equal_of : (m n : ℕ) → (m == n) ≡ true → m ≡ n
equal_of m n h = ground arith

pub unequal_of : (m n : ℕ) → (m == n) ≡ false → m ≢ n
unequal_of m n h = ground arith

pub clash : {x : Bool} → x ≡ false → x ≡ true → ⊥
clash h k = cc

pub entry_self {ℓ} :
    {V : Type ℓ} → (t : ℕ → Option V) (k : ℕ) (v : Option V) → set_entry t k v k ≡ v
entry_self t k v = ground arith

pub entry_other {ℓ} :
    {V : Type ℓ} → (t : ℕ → Option V) (k j : ℕ) (v : Option V) → j ≢ k → set_entry t k v j ≡ t j
entry_other t k j v h = let miss : (k == j) ≡ false = ground (arith, h) in rw miss refl

pub entry_left :
    (t : ℕ → Option ℕ) (k j f : ℕ) → set_entry t k none j ≡ some f → (t j ≡ some f) × (j ≢ k)
entry_left t k j f h = elim (Bool-cases (k == j)) [
  | inl hit ↦ absurd (none-some (subst (λ x. (if x then none else t j) ≡ some f) hit h))
  | inr miss ↦ (subst (λ x. (if x then none else t j) ≡ some f) miss h, ground (arith, miss))
]

-- What a table with one new entry says.
pub entry_cases {ℓ} :
    {V : Type ℓ}
    → (t : ℕ → Option V) (k j : ℕ) (v w : Option V) → set_entry t k v j ≡ w
    → ((j ≡ k) × (v ≡ w)) ⊎ ((j ≢ k) × (t j ≡ w))
entry_cases t k j v w h = elim (Bool-cases (k == j)) [
  | inl hit ↦ inl (ground (arith, hit), subst (λ x. (if x then v else t j) ≡ w) hit h)
  | inr miss ↦ inr (ground (arith, miss), subst (λ x. (if x then v else t j) ≡ w) miss h)
]
