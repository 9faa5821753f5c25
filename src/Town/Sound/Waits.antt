-- ===== src/Town/Sound/Waits.antt =====
-- edge/src/town.ts, around an `await` of a hook that writes to D1 (lines 338, 464 and 539): other
-- events run before the method goes on.
use focustown_public.Prelude.{ℕ, ◌≡◌, inl, inr, refl, subst, Option, none, some, lookup, ℕ_eq, ◌∙◌}
use focustown_public.Guest.{GuestId, GuestId_eq}
use focustown_public.Rules.Profile.{hook_failed}
use focustown_public.Store.State.{Conversation}
use focustown_public.Town.World.{World, Deps}
use focustown_public.Town.Exec.{awaited, modify}
use focustown_public.Town.Hoare.{Core, core, Quiet-reject, Quiet-gets}
use focustown_public.Town.Sound.{Sound}
use focustown_public.Town.Sound.Rules.{Runs, IsSound, Runs-after, Runs-bind, Runs-quiet}

abbrev pub SameGuests : Conversation → Conversation → Type 0
SameGuests u v = (u.guest_a ≡ v.guest_a) × (u.guest_b ≡ v.guest_b)

-- Whatever conversation is kept afterwards was kept before, with the same two guests.
abbrev pub NoneStarted : Core → Core → Type 0
NoneStarted k k' =
    (id : ℕ) (v : Conversation)
    → lookup id k'.convs ≡ some v
    → (u : Conversation) × (lookup id k.convs ≡ some u) × SameGuests u v

-- The events that run while a hook is awaited may do anything that keeps the invariant, but start
-- no conversation.
pub record IsCalm (d : Deps) : Type 0 where
  pub sound : (w : World) → IsSound d.new_id w → IsSound d.new_id (d.meanwhile w)
  pub none_started :
      (w : World) → IsSound d.new_id w → NoneStarted (core w.store) (core (d.meanwhile w).store)

module _ (new_id : ℕ → ℕ) (m n : ℕ) (k k' : Core) (v : Sound new_id m k) (v' : Sound new_id n k')
    (none_started : NoneStarted k k') where
  in_before : (g : GuestId) (id : ℕ) → lookup g k'.current ≡ some id → lookup g k.current ≡ some id
  in_before g id e =
      let (c, at, side) = v'.current_valid g id e in
      let (u, kept, same) = none_started id c at in
      let agrees = v.conv_valid id u kept in
      elim side [
        | inl own ↦ subst (λ g. lookup g k.current ≡ some id) (same.0 ∙ own) agrees.current_a
        | inr own ↦ subst (λ g. lookup g k.current ≡ some id) (same.1 ∙ own) agrees.current_b
      ]

  free_of :
      (g : GuestId) (o : Option ℕ)
      → lookup g k.current ≡ none
      → lookup g k'.current ≡ o
      → lookup g k'.current ≡ none
  free_of g none free e = e
  free_of g (some id) free e = let was = in_before g id e in cc

  -- Whoever was free still is.
  pub still_free : (g : GuestId) → lookup g k.current ≡ none → lookup g k'.current ≡ none
  still_free g free = free_of g (lookup g k'.current) free refl

-- What is known before is known afterwards, if it is of a kind that lasts.
abbrev pub Lasts : (ℕ → ℕ) → (Core → Type 0) → Type 0
Lasts new_id P =
    (m n : ℕ) (k k' : Core) → Sound new_id m k → Sound new_id n k' → NoneStarted k k' → P k → P k'

module _ (d : Deps) (calm : IsCalm d) where
  Runs-meanwhile :
      (P : Core → Type 0) → Lasts d.new_id P → Runs d.new_id P (modify d.meanwhile) (λ u. P)
  unfolding modify
  Runs-meanwhile P lasts = record {
    at = λ w s p.
        let after = calm.sound w s in
        (
          after,
          lasts w.drawn (d.meanwhile w).drawn (core w.store) (core (d.meanwhile w).store) s after
              (calm.none_started w s) p,
        );
  }

  pub Runs-awaited : (P : Core → Type 0) → Lasts d.new_id P → Runs d.new_id P (awaited d) (λ u. P)
  unfolding awaited
  Runs-awaited P lasts =
      Runs-bind d.new_id (λ u. P) _ _ (Runs-meanwhile P lasts)
        (λ u.
          Runs-after d.new_id _ _ (Quiet-gets d.rejects)
            (λ failed. Runs-quiet d.new_id P _ (Quiet-reject failed hook_failed)))
