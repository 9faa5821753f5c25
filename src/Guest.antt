-- ===== src/Guest.antt =====
-- Guest ids: companion.ts (COMPANION_ID) and jojo.ts (jojoId, isJojo). The source's ids are
-- strings, of which the program asks whether two are the same, whether one is "admin:companion",
-- and whether one begins with "ai:jojo:". A `visitor` is any other string.
use focustown_public.Prelude.{ℕ, ◌≡◌, refl, ap, ◌↔◌, Bool, true, false, arith, eqb, eqb_iff, Eq}

pub data GuestId : Type 0 where
  visitor : ℕ → GuestId
  companion_id : GuestId
  jojo_id : GuestId → GuestId

unfoldable pub is_jojo : GuestId → Bool
is_jojo (jojo_id g) = true
is_jojo _ = false

unfoldable pub guest_beq : GuestId → GuestId → Bool
guest_beq (visitor a) (visitor b) = eqb a b
guest_beq companion_id companion_id = true
guest_beq (jojo_id a) (jojo_id b) = guest_beq a b
guest_beq _ _ = false

pub guest_beq_iff : (a b : GuestId) → (guest_beq a b ≡ true) ↔ (a ≡ b)
unfolding guest_beq
guest_beq_iff (visitor a) (visitor b) =
    (λ h. ap visitor ((eqb_iff a b).0 h), λ e. ground (arith, eqb_iff a b))
guest_beq_iff companion_id companion_id = (λ h. refl, λ h. refl)
guest_beq_iff (jojo_id a) (jojo_id b) =
    (λ h. ap jojo_id ((guest_beq_iff a b).0 h), λ e. ground (arith, guest_beq_iff a b))
guest_beq_iff (visitor a) companion_id = (λ h. cc, λ h. cc)
guest_beq_iff (visitor a) (jojo_id b) = (λ h. cc, λ h. cc)
guest_beq_iff companion_id (visitor b) = (λ h. cc, λ h. cc)
guest_beq_iff companion_id (jojo_id b) = (λ h. cc, λ h. cc)
guest_beq_iff (jojo_id a) (visitor b) = (λ h. cc, λ h. cc)
guest_beq_iff (jojo_id a) companion_id = (λ h. cc, λ h. cc)

instance abbrev pub GuestId_eq : Eq GuestId
GuestId_eq = record { beq = guest_beq; beq_iff = guest_beq_iff }
