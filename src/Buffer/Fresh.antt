-- ===== src/Buffer/Fresh.antt =====
-- NewBufferPoolManager and NewPage of storage/buffer/buffer_pool_manager.go.
use samehada_db.Base.{
  ℕ, zero, suc, ◌+◌, ◌≤◌, ◌<◌, List, [], Bool, true, ltb, ◌==◌, Option, none, some, returns, ◌≡◌,
  refl, arith, ap, ◌∙◌, sym, subst, Bool-cases, inl, inr,
}
use samehada_db.Log.{LogManager}
use samehada_db.Log.Append.{IsReady}
use samehada_db.Page.{new_empty}
use samehada_db.Disk.{DiskManager, allocate_page}
use samehada_db.Ring.Chain.{has, NoRepeat}
use samehada_db.Buffer.{BufferPoolManager, get_frame_id, clear_frame, new_page_in_pool}
use samehada_db.Buffer.Pool.{
  IsPool, KeepsPinned, some_frame, clash, equal_of, entry_self, none-some,
}
use samehada_db.Buffer.Take.{get_frame_id-Take, full, taken}
use samehada_db.Bytes.{u32}
use samehada_db.Clock.Frames.{new_clock_replacer-Holds}
use samehada_db.Clock.{new_clock_replacer}
use samehada_db.Ring.{new_circular_list}
use samehada_db.Buffer.{frames_from, new_buffer_pool_manager}
use samehada_db.Buffer.Change.{installed, installed-IsPool}
use samehada_db.Buffer.Fetch.{installed-KeepsPinned, installed-Serves}
use samehada_db.Buffer.Known.{Serves, IsFull}

frames_from-below : (n i g : ℕ) → has g (frames_from n i) ≡ true → (i ≤ g) × (g < i + n)
unfolding frames_from
frames_from-below zero i g h = cc
frames_from-below (suc n) i g h = elim (Bool-cases (g == i)) [
  | inl same ↦ let at = equal_of g i same in (omega (arith, at), omega (arith, at))
  | inr other ↦
      let (low, high) = frames_from-below n (i + 1) g (ground (arith, h, other)) in
      (omega (arith, low), omega (arith, high))
]

frames_from-NoRepeat : (n i : ℕ) → NoRepeat (frames_from n i)
unfolding frames_from
frames_from-NoRepeat zero i = tt
frames_from-NoRepeat (suc n) i = (
  elim (Bool-cases (has i (frames_from n (i + 1)))) [
    | inl member ↦ absurd (omega (arith, (frames_from-below n (i + 1) i member).0))
    | inr out ↦ out
  ],
  frames_from-NoRepeat n (i + 1),
)

-- A new pool is in order: every frame is free, and its replacer holds none.
pub new_buffer_pool_manager-IsPool :
    (pool_size : ℕ) (d : DiskManager) (l : LogManager)
    → pool_size < 4294967296
    → IsReady l
    → IsPool (new_buffer_pool_manager pool_size d l) []
unfolding new_buffer_pool_manager new_clock_replacer new_circular_list
new_buffer_pool_manager-IsPool pool_size d l small ready = record {
  holds = new_clock_replacer-Holds pool_size small;
  capacity = refl;
  log = ready;
  loaded = λ p f h. absurd (none-some h);
  free_in = λ f h. omega (arith, (frames_from-below pool_size 0 f h).1);
  free_distinct = frames_from-NoRepeat pool_size 0;
  evictable = λ f h. absurd (clash refl h);
}

-- What NewPage leaves: a frame it answers has an empty page of the next number.
pub record Created (b b' : BufferPoolManager) (frames : List ℕ) (answer : Option ℕ) : Type 0 where
  pub page_id : ℕ
  pub number : page_id ≡ b.disk_manager.next_page_id
  pub left : List ℕ
  pub pool : IsPool b' left
  pub keeps : KeepsPinned b b' page_id
  pub serves : (f : ℕ) → answer ≡ some f → Serves b' page_id f
  pub blank : (f : ℕ) → answer ≡ some f → b'.pages f ≡ some (new_empty page_id)
  pub counted : (f : ℕ) → answer ≡ some f → b'.disk_manager.next_page_id ≡ u32 (page_id + 1)
  pub refuses : answer ≡ none → IsFull b frames

new_page-full :
    (b got : BufferPoolManager)
    → get_frame_id b ≡ returns (none, got)
    → new_page_in_pool b ≡ returns (none, got)
unfolding new_page_in_pool
new_page-full b got ran = simp (new_page_in_pool, ran) refl

-- The disk after a number was given out.
abbrev counted_up : DiskManager → DiskManager
counted_up d = record d { next_page_id = u32 (d.next_page_id + 1) }

new_page-taken :
    (b : BufferPoolManager) (f : ℕ × Bool) (got c : BufferPoolManager)
    → get_frame_id b ≡ returns (some f, got)
    → clear_frame got f ≡ returns c
    → f.0 < c.pool_size
    → new_page_in_pool b
      ≡ returns (
        some f.0,
        installed c f.0 c.disk_manager.next_page_id
            (new_empty c.disk_manager.next_page_id)
            (counted_up c.disk_manager),
      )
unfolding new_page_in_pool installed allocate_page
new_page-taken b f got c ran cleared h =
    let inside : ltb f.0 c.pool_size ≡ true = ground (arith, h) in
    simp (new_page_in_pool, ran, cleared, inside) refl

-- `NewPage` of a pool in order returns where the next page number is not in the page table, and the pool
-- is in order. A frame it answers has an empty page of that number, pinned, and the number is
-- counted up; pages that are pinned stay in their frames unchanged. It answers nothing only when no
-- frame is free and none can be taken.
pub new_page_in_pool-Created :
    (b : BufferPoolManager) (frames : List ℕ)
    → IsPool b frames
    → b.page_table b.disk_manager.next_page_id ≡ none
    → (answer : Option ℕ) × (b' : BufferPoolManager) × (new_page_in_pool b ≡ returns (answer, b'))
      × Created b b' frames answer
unfolding new_empty installed
new_page_in_pool-Created b frames k absent = elim (get_frame_id-Take b frames k) [
  | full ran free used ↦ (
    none,
    b,
    new_page-full b b ran,
    record {
      page_id = b.disk_manager.next_page_id;
      number = refl;
      left = frames;
      pool = k;
      keeps = λ q g p other h at pinned. (h, at);
      serves = λ g answer. absurd (none-some answer);
      blank = λ g answer. absurd (none-some answer);
      counted = λ g answer. absurd (none-some answer);
      refuses = λ refused. (free, used);
    },
  )
  | taken f got c left ran cleared t ↦
      let n = c.disk_manager.next_page_id in
      let d = counted_up c.disk_manager in
      (
        some f.0,
        installed c f.0 n (new_empty n) d,
        new_page-taken b f got c ran cleared t.spare.in_pool,
        record {
          page_id = n;
          number = t.next;
          left = left;
          pool =
              installed-IsPool c f.0 n (new_empty n) d left t.pool t.spare
                (t.absent n (ap b.page_table t.next ∙ absent)) refl;
          keeps = installed-KeepsPinned b c left f.0 n (new_empty n) d t;
          serves = λ g answer.
              subst (Serves (installed c f.0 n (new_empty n) d) n) (some_frame answer)
                (installed-Serves c f.0 n (new_empty n) d refl (omega arith));
          blank = λ g answer.
              ap (installed c f.0 n (new_empty n) d).pages (sym (some_frame answer))
              ∙ entry_self c.pages f.0 (some (new_empty n));
          counted = λ g answer. refl;
          refuses = λ refused. absurd (none-some (sym refused));
        },
      )
]
