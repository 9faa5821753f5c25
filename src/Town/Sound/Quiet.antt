-- ===== src/Town/Sound/Quiet.antt =====
-- The helpers of town.ts that leave the conversations and the queue alone.
use focustown_public.Prelude.{ℕ, ◌≡◌, refl, ap, arith}
use focustown_public.Guest.{GuestId}
use focustown_public.Rules.Pairing.{Waiting}
use focustown_public.Store.State.{Conversation, CompanionInvite}
use focustown_public.Store.Presence.{clear_companion_invite}
use focustown_public.Town.World.{World, Deps, Frame, ClearReason}
use focustown_public.Town.Exec.{modify, store_to}
use focustown_public.Town.Session.{send, clear_companion, cancel_companion_for, draw_id}
use focustown_public.Town.World.{Deps}
use focustown_public.Town.Exec.{stored}
use focustown_public.Store.State.{LimitKey}
use focustown_public.Store.Limits.{hit}
use focustown_public.Store.Blocks.{block_pair}
use focustown_public.Store.Presence.{touch_online, prune_online, save_companion_invite}
use focustown_public.Town.Session.{
  require_allowed, send_matched, send_waiting, send_companion_invite,
}
use focustown_public.Town.Hoare.{Quiet, quiet_rules, core}

pub Quiet-send : (g : GuestId) (f : Frame) → Quiet (send g f)
unfolding send modify
Quiet-send g f = record { same = λ w. refl; grows = λ w. omega arith }

Quiet-clear_invite : Quiet (store_to clear_companion_invite)
unfolding store_to clear_companion_invite
Quiet-clear_invite = record { same = λ w. refl; grows = λ w. omega arith }

pub Quiet-clear_companion : (r : ClearReason) → Quiet (clear_companion r)
unfolding clear_companion
Quiet-clear_companion r = search (quiet_rules, Quiet-send, Quiet-clear_invite)

pub Quiet-cancel_companion_for : (g : GuestId) (r : ClearReason) → Quiet (cancel_companion_for g r)
unfolding cancel_companion_for
Quiet-cancel_companion_for g r = search (quiet_rules, Quiet-clear_companion)

pub Quiet-modify :
    (f : World → World)
    → ((w : World) → (f w).store ≡ w.store)
    → ((w : World) → (f w).drawn ≡ w.drawn)
    → Quiet (modify f)
unfolding modify
Quiet-modify f h k = record { same = λ w. ap core (h w); grows = λ w. omega (arith, k w) }

pub Quiet-touch_online : (g : GuestId) (now : ℕ) → Quiet (store_to (touch_online g now))
unfolding store_to touch_online
Quiet-touch_online g now = record { same = λ w. refl; grows = λ w. omega arith }

pub Quiet-prune_online : (t : ℕ) → Quiet (store_to (prune_online t))
unfolding store_to prune_online
Quiet-prune_online t = record { same = λ w. refl; grows = λ w. omega arith }

pub Quiet-block_pair : (a b : GuestId) (t : ℕ) → Quiet (store_to (block_pair a b t))
unfolding store_to block_pair
Quiet-block_pair a b t = record { same = λ w. refl; grows = λ w. omega arith }

pub Quiet-save_companion_invite : (i : CompanionInvite) → Quiet (store_to (save_companion_invite i))
unfolding store_to save_companion_invite
Quiet-save_companion_invite i = record { same = λ w. refl; grows = λ w. omega arith }

pub Quiet-hit : (key : LimitKey) (limit window now : ℕ) → Quiet (stored (hit key limit window now))
unfolding stored hit
Quiet-hit key limit window now = record { same = λ w. refl; grows = λ w. omega arith }

module _ (d : Deps) (now : ℕ) where
  pub Quiet-draw_id : Quiet (draw_id d now)
  unfolding draw_id
  Quiet-draw_id = record { same = λ w. refl; grows = λ w. omega arith }

  pub Quiet-require_allowed : (g : GuestId) → Quiet (require_allowed d now g)
  unfolding require_allowed
  Quiet-require_allowed g = search quiet_rules

  pub Quiet-send_matched : (c : Conversation) (g : GuestId) → Quiet (send_matched d now c g)
  unfolding send_matched
  Quiet-send_matched c g = search (quiet_rules, Quiet-send)

  pub Quiet-send_waiting : (w : Waiting) → Quiet (send_waiting d now w)
  unfolding send_waiting
  Quiet-send_waiting w = search Quiet-send

  pub Quiet-send_companion_invite : (i : CompanionInvite) → Quiet (send_companion_invite d now i)
  unfolding send_companion_invite
  Quiet-send_companion_invite i = search Quiet-send

pub ruleset quiet = (
  quiet_rules, Quiet-send, Quiet-clear_companion, Quiet-cancel_companion_for, Quiet-touch_online,
  Quiet-prune_online, Quiet-block_pair, Quiet-save_companion_invite, Quiet-hit, Quiet-draw_id,
  Quiet-require_allowed, Quiet-send_matched, Quiet-send_waiting, Quiet-send_companion_invite,
)
