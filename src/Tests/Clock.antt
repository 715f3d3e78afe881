-- ===== src/Tests/Clock.antt =====
-- A replacer of three frames: frames come, and one is taken.
use samehada_db.Base.{ℕ, [], ◌∷◌, ◌<◌, some, Outcome, returns, panics, ◌≡◌, arith, sym, subst}
use samehada_db.Ring.{new_circular_list}
use samehada_db.Clock.{ClockReplacer, new_clock_replacer, victim, pin, unpin}
use samehada_db.Clock.Frames.{Holds, new_clock_replacer-Holds}
use samehada_db.Clock.Unpin.{Unpinned, unpin-Unpinned}
use samehada_db.Clock.Pin.{Pinned, pin-Pinned}
use samehada_db.Clock.Victim.{Evicted, victim-Evicted}

abbrev fresh : ClockReplacer
fresh = new_clock_replacer 3

fresh-Holds : Holds fresh []
fresh-Holds = new_clock_replacer-Holds 3 (omega arith)

fresh-room : 0 < fresh.c_list.capacity
unfolding new_clock_replacer new_circular_list
fresh-room = omega arith

abbrev after : Outcome ClockReplacer → ClockReplacer
after panics = fresh
after (returns c) = c

abbrev with_one : ClockReplacer
with_one = after (unpin fresh 1)

with_one-Holds : Holds with_one (1 ∷ [])
with_one-Holds =
    let (c', ran, u) = unpin-Unpinned fresh [] 1 fresh-Holds (λ out. fresh-room) in
    subst (λ o. Holds (after o) (1 ∷ [])) (sym ran) u.holds

unpin-Unpinned_example :
    (c' : ClockReplacer) × (unpin fresh 1 ≡ returns c') × Unpinned fresh c' 1 []
unpin-Unpinned_example = unpin-Unpinned fresh [] 1 fresh-Holds (λ out. fresh-room)

pin-Pinned_example :
    (c' : ClockReplacer) × (pin with_one 1 ≡ returns c') × Pinned with_one c' 1 (1 ∷ [])
pin-Pinned_example = pin-Pinned with_one (1 ∷ []) 1 with_one-Holds

victim-Evicted_example :
    (c' : ClockReplacer) × (frame : ℕ) × (n : ℕ) × (victim with_one ≡ returns (some frame, c'))
    × Evicted with_one c' frame n (1 ∷ [])
victim-Evicted_example = victim-Evicted with_one (1 ∷ []) with_one-Holds (omega arith)
