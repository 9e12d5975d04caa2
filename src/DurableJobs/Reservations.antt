-- ===== src/DurableJobs/Reservations.antt =====
-- What a recovery does to the reservations of a job.
use ai_backend_engineer_hand.Prelude.{
  ℕ, ◌+◌, ◌≤◌, ◌≡◌, ◌≢◌, ◌↔◌, ◌⊎◌, true, string_eq, Option, none, some, List, [], ◌∷◌, ok, is_ok,
  ◌>>=◌, >>=-eq-ok, ok-injective, String_discrete, ℤ, pos, negsuc, arith,
}
use mathlib.Core.Path.{subst}
use ai_backend_engineer_hand.DurableJobs.Types.{
  settled, released, no_change, keep_held, release, settle_verified,
}
use ai_backend_engineer_hand.DurableJobs.Records.{
  ReservationRecord, check_reservation, DurableRecoveryCandidate,
}
use ai_backend_engineer_hand.DurableJobs.Store.{
  release_reservation, settle_reservation, change_reservation, change_own, change_reservations,
}

abbrev pub settled_part : Option ℕ → ℕ
settled_part none = 0
settled_part (some n) = n

-- No unit is accounted for twice.
abbrev pub Conserves : ReservationRecord → Type 0
Conserves r = settled_part r.settled_units + r.released_units ≤ r.reserved_units

-- A usage that a reservation covers.
abbrev pub Covers : ReservationRecord → Option ℤ → Type 0
Covers r none = ⊥
Covers r (some (pos n)) = n ≤ r.reserved_units
Covers r (some (negsuc n)) = ⊥

-- Two lists of the same length whose items are related in order.
abbrev pub Pointwise :
    (ReservationRecord → ReservationRecord → Type 0)
    → List ReservationRecord
    → List ReservationRecord
    → Type 0
Pointwise R [] [] = Unit
Pointwise R (x ∷ xs) (y ∷ ys) = R x y × Pointwise R xs ys
Pointwise R _ _ = ⊥

-- What becomes of one reservation under a candidate: another attempt's is not touched; the attempt's
-- own is released whole, settled with the rest released, or left.
pub record IsChanged (c : DurableRecoveryCandidate) (r r' : ReservationRecord) : Type 0 where
  pub reservation_id : r'.reservation_id ≡ r.reservation_id
  pub attempt_id : r'.attempt_id ≡ r.attempt_id
  pub reserved_units : r'.reserved_units ≡ r.reserved_units
  pub others : r.attempt_id ≢ c.attempt_id → r' ≡ r
  pub left : (c.reservation_action ≡ no_change) ⊎ (c.reservation_action ≡ keep_held) → r' ≡ r
  pub releases :
      r.attempt_id ≡ c.attempt_id
      → c.reservation_action ≡ release
      → (r'.status ≡ released)
        × (r'.released_units ≡ r.reserved_units)
        × (r'.settled_units ≡ r.settled_units)
  pub settles :
      r.attempt_id ≡ c.attempt_id
      → c.reservation_action ≡ settle_verified
      → Covers r c.verified_usage_units
        × (r'.status ≡ settled)
        × (settled_part r'.settled_units + r'.released_units ≡ r.reserved_units)

change_reservation-IsChanged :
    (c : DurableRecoveryCandidate) (r r' : ReservationRecord)
    → r.attempt_id ≡ c.attempt_id
    → change_reservation c.reservation_action c.verified_usage_units r ≡ ok r'
    → IsChanged c r r'
unfolding change_reservation check_reservation
change_reservation-IsChanged c r r' h e = ground arith

change_own-IsChanged :
    (c : DurableRecoveryCandidate) (r r' : ReservationRecord)
    → change_own c r ≡ ok r'
    → IsChanged c r r'
unfolding change_own
change_own-IsChanged c r r' h = elim (String_discrete r.attempt_id c.attempt_id) [
  | yes own ↦ change_reservation-IsChanged c r r' own (ground arith)
  | no other ↦ ground arith
]

-- A change of the reservations that returns changes each on its own and in order, with its identity
-- and size kept: another attempt's is not touched, the attempt's own is released whole, settled for
-- a usage that it covers with the rest released, or left.
change_reservations-IsChanged :
    (c : DurableRecoveryCandidate) (rs rs' : List ReservationRecord)
    → change_reservations c rs ≡ ok rs'
    → Pointwise (IsChanged c) rs rs'
unfolding change_reservations
change_reservations-IsChanged c [] rs' h = subst (Pointwise (IsChanged c) []) (ok-injective h) tt
change_reservations-IsChanged c (r ∷ rs) rs' h =
    let (r', changed, rest) =
      >>=-eq-ok (change_own c r) (λ r'. do rs'' ← change_reservations c rs; ok (r' ∷ rs'')) h in
    let (rs'', all, done) = >>=-eq-ok (change_reservations c rs) (λ rs''. ok (r' ∷ rs'')) rest in
    subst (Pointwise (IsChanged c) (r ∷ rs)) (ok-injective done)
      (change_own-IsChanged c r r' changed, change_reservations-IsChanged c rs rs'' all)

-- The constructor's checks on one reservation, as facts.
pub record IsValid (r : ReservationRecord) : Type 0 where
  pub reservation_id : r.reservation_id ≢ ""
  pub attempt_id : r.attempt_id ≢ ""
  pub fits : settled_part r.settled_units ≤ r.reserved_units

pub check_reservation_iff : (r : ReservationRecord) → (check_reservation r ≡ ok r) ↔ IsValid r
unfolding check_reservation
check_reservation_iff r = ground arith

-- A valid reservation is always released, and is settled exactly for a usage that it covers.
pub settle_reservation-is_ok :
    (r : ReservationRecord) (usage : Option ℤ)
    → IsValid r
    → (is_ok (settle_reservation usage r) ≡ true) ↔ Covers r usage
unfolding settle_reservation check_reservation
settle_reservation-is_ok r usage v = ground arith

pub release_reservation-is_ok :
    (r : ReservationRecord) → IsValid r → is_ok (release_reservation r) ≡ true
unfolding release_reservation check_reservation
release_reservation-is_ok r v = ground arith

-- The settled and the released units of a settled reservation fit what was reserved.
pub settle-Conserves :
    (r r' : ReservationRecord) (usage : Option ℤ)
    → settle_reservation usage r ≡ ok r'
    → Conserves r'
unfolding settle_reservation check_reservation
settle-Conserves r r' usage h = ground arith

-- The settled and the released units of a reservation that was released fit what was reserved
-- exactly if no unit had been settled before.
pub release-Conserves_iff :
    (r r' : ReservationRecord)
    → release_reservation r ≡ ok r'
    → Conserves r' ↔ (settled_part r.settled_units ≡ 0)
unfolding release_reservation check_reservation
release-Conserves_iff r r' h = ground arith
