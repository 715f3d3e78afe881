-- ===== src/Limit/Window.antt =====
-- The limit executor of execution/executors/limit_executor.go against the sequence of the replies that its
-- child gives.
use samehada_db.Base.{
  ℕ, zero, suc, ◌+◌, ◌<◌, List, [], ◌∷◌, Bool, true, false, ltb, Option, none, some, Outcome,
  returns, ◌>>=◌, ◌≡◌, refl, arith, length, take, drop, ◌∙◌, ap, sym,
}
use samehada_db.Bytes.{u32}
use samehada_db.Executor.{Reply, Next, execute}
use samehada_db.Limit.{LimitPlanNode, LimitExecutor, new_limit_executor, limit_next}
use samehada_db.Limit.Replies.{
  Gives, stops, gives, Ending, is_done, fails, is_over, drain, tuples_before, breaks_off,
  limit_ending, ending_of-suc, ending_of-nil, ending_of-zero, take-nil, drop-nil, seen,
  execute-drain, before-error, before-nil, before-tuple,
}

-- The limit while it runs, `emitted` tuples having come and `skipped` having been passed over.
module _ {T S : Type 0} (next : Next T S) (plan : LimitPlanNode) where
  state : S → ℕ → ℕ → LimitExecutor S
  state s emitted skipped = record { plan = plan; child = s; emitted = emitted; skipped = skipped }

  run : ℕ → S → ℕ → ℕ → Outcome (List T × Ending)
  unfolding state
  run rounds s emitted skipped = drain (limit_next next) rounds (state s emitted skipped)

  module _ (rounds : ℕ) (s s' : S) (emitted skipped : ℕ) (reply : Reply T)
      (e : next s ≡ returns (reply, s')) where
    run-error : reply.error ≡ true → run (suc rounds) s emitted skipped ≡ returns ([], fails)
    unfolding run drain limit_next state
    run-error h = simp (e, h) refl

    run-nil :
        reply.error ≡ false
        → reply.tuple ≡ none
        → run (suc rounds) s emitted skipped ≡ returns ([], fails)
    unfolding run drain limit_next state
    run-nil h k = simp (e, h, k) refl

    module _ (t : T) (right : reply.error ≡ false) (given : reply.tuple ≡ some t) where
      run-skip :
          ltb skipped plan.offset ≡ true
          → run (suc rounds) s emitted skipped
            ≡ (run rounds s' emitted (u32 (skipped + 1)) >>= λ r. returns (r.0, r.1))
      unfolding run drain limit_next state
      run-skip h = simp (e, right, given, h) refl

      run-stop :
          ltb skipped plan.offset ≡ false
          → ltb plan.limit (u32 (emitted + 1)) ≡ true
          → run (suc rounds) s emitted skipped ≡ returns ([], is_done)
      unfolding run drain limit_next state
      run-stop h k = simp (e, right, given, h, k) refl

      run-emit :
          ltb skipped plan.offset ≡ false
          → ltb plan.limit (u32 (emitted + 1)) ≡ false
          → run (suc rounds) s emitted skipped
            ≡ (run rounds s' (u32 (emitted + 1)) skipped >>= λ r. returns (t ∷ r.0, r.1))
      unfolding run drain limit_next state
      run-emit h k = simp (e, right, given, h, k) refl

  -- What comes of the replies with `j` tuples left to the offset and `k` to the limit.
  abbrev window : ℕ → ℕ → List (Reply T) → List T × Ending
  window j k replies = (take k (drop j (tuples_before replies)), limit_ending (j + k) replies)

  window-breaks :
      (j k : ℕ) (replies : List (Reply T))
      → (tuples_before replies ≡ []) × (breaks_off replies ≡ true)
      → returns (window j k replies) ≡ returns ([], fails)
  window-breaks j k replies (before, breaks) =
      let none_come : take k (drop j (tuples_before replies)) ≡ [] =
        ap (λ ts. take k (drop j ts)) before ∙ ap (take k) (drop-nil j) ∙ take-nil k in
      let ends : limit_ending (j + k) replies ≡ fails =
        rw (before, breaks) (ending_of-nil (j + k) true) in
      λ i. returns (none_come i, ends i)

  module _ (reply : Reply T) (rest : List (Reply T)) (t : T)
      (before : (tuples_before (reply ∷ rest) ≡ t ∷ tuples_before rest)
        × (breaks_off (reply ∷ rest) ≡ breaks_off rest)) where
    window-emit :
        (k : ℕ)
        → returns (t ∷ (window 0 k rest).0, (window 0 k rest).1)
          ≡ returns (window 0 (suc k) (reply ∷ rest))
    window-emit k =
        rw (before.0, before.1)
          (ap (λ x. returns (t ∷ take k (tuples_before rest), x))
            (sym (
              ending_of-suc (0 + k) (0 + suc k) (length (tuples_before rest)) (breaks_off rest)
                (omega arith))))

    window-skip : (j k : ℕ) → returns (window j k rest) ≡ returns (window (suc j) k (reply ∷ rest))
    window-skip j k =
        rw (before.0, before.1)
          (ap (λ x. returns (take k (drop j (tuples_before rest)), x))
            (sym (
              ending_of-suc (j + k) (suc j + k) (length (tuples_before rest)) (breaks_off rest)
                (omega arith))))

    window-stop : returns ([], is_done) ≡ returns (window 0 0 (reply ∷ rest))
    window-stop =
        rw (before.0, before.1)
          (ap (λ x. returns ([], x))
            (sym (ending_of-zero (length (tuples_before rest)) (breaks_off rest))))

  -- A reply that breaks off, or has a tuple.
  data Kind (reply : Reply T) : Type 0 where
    wrong : reply.error ≡ true → Kind reply
    empty : reply.error ≡ false → reply.tuple ≡ none → Kind reply
    full : (t : T) → reply.error ≡ false → reply.tuple ≡ some t → Kind reply

  reply-Kind : (reply : Reply T) → Kind reply
  reply-Kind reply = go reply.error reply.tuple refl refl
    where
      go : (b : Bool) (x : Option T) → reply.error ≡ b → reply.tuple ≡ x → Kind reply
      go true x e f = wrong e
      go false none e f = empty e f
      go false (some t) e f = full t e f

  -- A tuple behind the offset, `k` being left to the limit.
  emits_tuple :
      (s s' : S) (reply : Reply T) (rest : List (Reply T)) (t : T) (emitted skipped k : ℕ)
      → next s ≡ returns (reply, s')
      → reply.error ≡ false
      → reply.tuple ≡ some t
      → ltb skipped plan.offset ≡ false
      → emitted + k ≡ plan.limit
      → plan.limit < 4294967295
      → ((l : ℕ)
          → emitted + 1 + l ≡ plan.limit
          → run (length rest) s' (emitted + 1) skipped ≡ returns (window 0 l rest))
      → run (length (reply ∷ rest)) s emitted skipped ≡ returns (window 0 k (reply ∷ rest))
  emits_tuple s s' reply rest t emitted skipped zero e h f past left small later =
      run-stop (length rest) s s' emitted skipped reply e t h f past (ground (arith, left, small))
      ∙ window-stop reply rest t (before-tuple reply rest t h f)
  emits_tuple s s' reply rest t emitted skipped (suc k) e h f past left small later =
      let next_one : u32 (emitted + 1) ≡ emitted + 1 = omega (arith, left, small) in
      run-emit (length rest) s s' emitted skipped reply e t h f past
        (ground (arith, left, small, next_one))
      ∙ ap (λ o. o >>= λ r. returns (t ∷ r.0, r.1))
          (ap (λ n. run (length rest) s' n skipped) next_one ∙ later k (omega (arith, left)))
      ∙ window-emit reply rest t (before-tuple reply rest t h f) k

  emits :
      (s : S) (replies : List (Reply T)) (emitted skipped k : ℕ)
      → Gives next s replies
      → ltb skipped plan.offset ≡ false
      → emitted + k ≡ plan.limit
      → plan.limit < 4294967295
      → run (length replies) s emitted skipped ≡ returns (window 0 k replies)
  unfolding run drain state tuples_before breaks_off
  emits s replies emitted skipped k (stops _) past left small =
      λ i. returns (sym (take-nil k) i, sym (ending_of-nil (0 + k) false) i)
  emits s replies emitted skipped k (gives _ s' reply rest e g) past left small =
      elim (reply-Kind reply) [
        | wrong h ↦
            run-error (length rest) s s' emitted skipped reply e h
            ∙ sym (window-breaks 0 k (reply ∷ rest) (before-error reply rest h))
        | empty h n ↦
            run-nil (length rest) s s' emitted skipped reply e h n
            ∙ sym (window-breaks 0 k (reply ∷ rest) (before-nil reply rest h n))
        | full t h f ↦
            emits_tuple s s' reply rest t emitted skipped k e h f past left small
              (λ l more. emits s' rest (emitted + 1) skipped l g past more small)
      ]

  skips :
      (s : S) (replies : List (Reply T)) (skipped j : ℕ)
      → Gives next s replies
      → skipped + j ≡ plan.offset
      → plan.offset < 4294967296
      → plan.limit < 4294967295
      → run (length replies) s 0 skipped ≡ returns (window j plan.limit replies)
  unfolding run drain state tuples_before breaks_off
  skips s replies skipped zero g left small small' =
      emits s replies 0 skipped plan.limit g (ground (arith, left)) (omega arith) small'
  skips s replies skipped (suc j) (stops _) left small small' =
      λ i. returns (sym (take-nil plan.limit) i, sym (ending_of-nil (suc j + plan.limit) false) i)
  skips s replies skipped (suc j) (gives _ s' reply rest e g) left small small' =
      elim (reply-Kind reply) [
        | wrong h ↦
            run-error (length rest) s s' 0 skipped reply e h
            ∙ sym (window-breaks (suc j) plan.limit (reply ∷ rest) (before-error reply rest h))
        | empty h n ↦
            run-nil (length rest) s s' 0 skipped reply e h n
            ∙ sym (window-breaks (suc j) plan.limit (reply ∷ rest) (before-nil reply rest h n))
        | full t h f ↦
            let next_one : u32 (skipped + 1) ≡ skipped + 1 = omega (arith, left, small) in
            run-skip (length rest) s s' 0 skipped reply e t h f (ground (arith, left))
            ∙ ap (λ o. o >>= λ r. returns (r.0, r.1))
                (ap (λ n. run (length rest) s' 0 n) next_one
                  ∙ skips s' rest (skipped + 1) j g (omega (arith, left)) small small')
            ∙ window-skip reply rest t (before-tuple reply rest t h f) j plan.limit
      ]

-- A limit over any child, from its start and for as many calls of Next as replies of the child are known,
-- where the offset is below 2 ^ 32 and the limit below 2 ^ 32 - 1: the tuples that come, at Next and in what
-- the engine collects, are those of the child in front of its first error or reply without a tuple, behind the
-- offset and up to the limit. It is done when there is a tuple of these behind the offset and the limit;
-- else it fails where the child has an error or a reply without a tuple, and else goes on. The engine stops
-- in both cases alike.
pub execute-limit_next :
    {T S : Type 0} (next : Next T S) (plan : LimitPlanNode) (s : S) (replies : List (Reply T))
    → Gives next s replies
    → plan.offset < 4294967296
    → plan.limit < 4294967295
    → let tuples = take plan.limit (drop plan.offset (tuples_before replies)) in
      let ending = limit_ending (plan.offset + plan.limit) replies in
      (drain (limit_next next) (length replies) (new_limit_executor plan s)
        ≡ returns (tuples, ending))
      × (execute (limit_next next) (length replies) (new_limit_executor plan s)
          ≡ returns (tuples, is_over ending))
unfolding new_limit_executor run state
execute-limit_next next plan s replies g small small' =
    let drained = skips next plan s replies 0 plan.offset g (omega arith) small small' in
    (
      drained,
      execute-drain (limit_next next) (length replies) (new_limit_executor plan s)
          ∙ ap (λ o. o >>= seen) drained,
    )
