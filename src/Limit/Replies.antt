-- ===== src/Limit/Replies.antt =====
-- The replies that an executor gives one after the other, and what execution/executors/execution_engine.go
-- collects of them.
use samehada_db.Base.{
  ℕ, zero, suc, List, [], ◌∷◌, Bool, true, false, ◌||◌, ltb, if◌then◌else◌, Option, none, some,
  Outcome, returns, panics, ◌>>=◌, ◌≡◌, refl, arith, length, take, drop, Bool-cases, inl, inr, ◌∙◌,
  ap, sym,
}
use samehada_db.Executor.{Reply, Next, execute}

-- The calls of Next from a state give these replies.
pub data Gives {T S : Type 0} (next : Next T S) : S → List (Reply T) → Type 0 where
  stops : (s : S) → Gives next s []
  gives :
      (s s' : S) (reply : Reply T) (replies : List (Reply T))
      → next s ≡ returns (reply, s')
      → Gives next s' replies
      → Gives next s (reply ∷ replies)

-- How a sequence of calls of Next comes to its end, if it does.
pub data Ending : Type 0 where
  goes_on is_done fails : Ending

abbrev pub is_over : Ending → Bool
is_over goes_on = false
is_over is_done = true
is_over fails = true

-- The tuples that come, and the ending.
unfoldable pub drain : {T S : Type 0} → Next T S → ℕ → S → Outcome (List T × Ending)
drain next zero s = returns ([], goes_on)
drain next (suc rounds) s = do
  (reply, s') ← next s
  elim reply.error [
    | true ↦ returns ([], fails)
    | false ↦ elim reply.done [
      | true ↦ returns ([], is_done)
      | false ↦ (do
        (tuples, ending) ← drain next rounds s'
        returns (elim reply.tuple [ none ↦ tuples | some t ↦ t ∷ tuples ], ending))
    ]
  ]

-- The tuples in front of the first reply without one, or with an error.
unfoldable pub tuples_before : {T : Type 0} → List (Reply T) → List T
tuples_before [] = []
tuples_before (reply ∷ replies) =
    if reply.error then [] else elim reply.tuple [ none ↦ [] | some t ↦ t ∷ tuples_before replies ]

-- Whether there is such a reply.
unfoldable pub breaks_off : {T : Type 0} → List (Reply T) → Bool
breaks_off [] = false
breaks_off (reply ∷ replies) =
    if reply.error then true else elim reply.tuple [ none ↦ true | some t ↦ breaks_off replies ]

-- The ending of a limit over these replies, when `n` tuples are left until it is done.
abbrev pub ending_of : ℕ → ℕ → Bool → Ending
ending_of n given breaks = if ltb n given then is_done else if breaks then fails else goes_on

abbrev pub limit_ending : {T : Type 0} → ℕ → List (Reply T) → Ending
limit_ending n replies = ending_of n (length (tuples_before replies)) (breaks_off replies)

pub ending_of-nil : (n : ℕ) (b : Bool) → ending_of n 0 b ≡ (if b then fails else goes_on)
ending_of-nil n b = ground arith

pub ending_of-zero : (m : ℕ) (b : Bool) → ending_of 0 (suc m) b ≡ is_done
ending_of-zero m b = ground arith

pub ending_of-suc : (n n' m : ℕ) (b : Bool) → n' ≡ suc n → ending_of n' (suc m) b ≡ ending_of n m b
ending_of-suc n n' m b h = ground (arith, h)

pub take-nil : {T : Type 0} → (n : ℕ) → take {A = T} n [] ≡ []
take-nil zero = refl
take-nil (suc n) = refl

pub drop-nil : {T : Type 0} → (n : ℕ) → drop {A = T} n [] ≡ []
drop-nil zero = refl
drop-nil (suc n) = refl

-- What the engine sees of an ending.
abbrev pub seen : {T : Type 0} → List T × Ending → Outcome (List T × Bool)
seen r = returns (r.0, is_over r.1)

-- The answer of Next in front of what comes later.
abbrev in_front : {T : Type 0} → Option T → List T → List T
in_front x ts = elim x [ none ↦ ts | some t ↦ t ∷ ts ]

-- A change of the tuples and a look at the ending come in any order.
over_last :
    {T : Type 0} (m : Outcome (List T × Ending)) (x : Option T)
    → (m >>= seen >>= λ r. returns (in_front x r.0, r.1))
      ≡ (m >>= (λ r. returns (in_front x r.0, r.1)) >>= seen)
over_last panics x = refl
over_last (returns r) x = refl

module _ {T S : Type 0} (next : Next T S) (rounds : ℕ) (s s' : S) (r : Reply T)
    (e : next s ≡ returns (r, s')) where
  abbrev after_execute : Bool → Outcome (List T × Bool)
  after_execute true = returns ([], true)
  after_execute false = execute next rounds s' >>= λ x. returns (in_front r.tuple x.0, x.1)

  execute-step : execute next (suc rounds) s ≡ after_execute (r.error || r.done)
  unfolding execute
  execute-step = rw e refl

  execute-over : (r.error || r.done) ≡ true → execute next (suc rounds) s ≡ returns ([], true)
  execute-over h = execute-step ∙ ap after_execute h

  execute-more :
      (r.error || r.done) ≡ false
      → execute next (suc rounds) s
        ≡ (execute next rounds s' >>= λ x. returns (in_front r.tuple x.0, x.1))
  execute-more h = execute-step ∙ ap after_execute h

  drain-error : r.error ≡ true → drain next (suc rounds) s ≡ returns ([], fails)
  unfolding drain
  drain-error h = simp (e, h) refl

  drain-done : r.error ≡ false → r.done ≡ true → drain next (suc rounds) s ≡ returns ([], is_done)
  unfolding drain
  drain-done h k = simp (e, h, k) refl

  drain-more :
      r.error ≡ false
      → r.done ≡ false
      → drain next (suc rounds) s
        ≡ (drain next rounds s' >>= λ x. returns (in_front r.tuple x.0, x.1))
  unfolding drain
  drain-more h k = simp (e, h, k) refl

  execute-drain_returns :
      execute next rounds s' ≡ (drain next rounds s' >>= seen)
      → execute next (suc rounds) s ≡ (drain next (suc rounds) s >>= seen)
  execute-drain_returns later = elim (Bool-cases r.error) [
    | inl wrong ↦
        execute-over (ap (λ b. b || r.done) wrong) ∙ ap (λ o. o >>= seen) (sym (drain-error wrong))
    | inr right ↦ elim (Bool-cases r.done) [
      | inl over ↦
          execute-over (ap (λ b. b || r.done) right ∙ over)
          ∙ ap (λ o. o >>= seen) (sym (drain-done right over))
      | inr more ↦
          execute-more (ap (λ b. b || r.done) right ∙ more)
          ∙ ap (λ o. o >>= λ x. returns (in_front r.tuple x.0, x.1)) later
          ∙ over_last (drain next rounds s') r.tuple
          ∙ ap (λ o. o >>= seen) (sym (drain-more right more))
    ]
  ]

-- The engine has the tuples of `drain`, and does not tell an error from the end.
pub execute-drain :
    {T S : Type 0} (next : Next T S) (rounds : ℕ) (s : S)
    → execute next rounds s ≡ (drain next rounds s >>= seen)
unfolding execute drain
execute-drain next zero s = refl
execute-drain {T} {S} next (suc rounds) s = go (next s) refl (λ s'. execute-drain next rounds s')
  where
    go :
        (o : Outcome (Reply T × S))
        → next s ≡ o
        → ((s' : S) → execute next rounds s' ≡ (drain next rounds s' >>= seen))
        → execute next (suc rounds) s ≡ (drain next (suc rounds) s >>= seen)
    go panics e later = simp e refl
    go (returns (r, s')) e later = execute-drain_returns next rounds s s' r e (later s')

module _ {T : Type 0} (reply : Reply T) (replies : List (Reply T)) where
  pub before-error :
      reply.error ≡ true
      → (tuples_before (reply ∷ replies) ≡ []) × (breaks_off (reply ∷ replies) ≡ true)
  unfolding tuples_before breaks_off
  before-error h = (rw h refl, rw h refl)

  pub before-nil :
      reply.error ≡ false
      → reply.tuple ≡ none
      → (tuples_before (reply ∷ replies) ≡ []) × (breaks_off (reply ∷ replies) ≡ true)
  unfolding tuples_before breaks_off
  before-nil h k = (rw h (rw k refl), rw h (rw k refl))

  pub before-tuple :
      (t : T)
      → reply.error ≡ false
      → reply.tuple ≡ some t
      → (tuples_before (reply ∷ replies) ≡ t ∷ tuples_before replies)
        × (breaks_off (reply ∷ replies) ≡ breaks_off replies)
  unfolding tuples_before breaks_off
  before-tuple t h k = (rw h (rw k refl), rw h (rw k refl))
