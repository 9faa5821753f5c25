-- ===== src/Town/Companion.antt =====
-- edge/src/town.ts: the human companion's invitations.
use focustown_public.Prelude.{
  ℕ, ◌+◌, Bool, false, not, ◌&&◌, ◌||◌, Option, none, some, leb, ltb, eqb, is_some, if◌then◌else◌,
  or_default, ◌==◌, contains, Json,
}
use focustown_public.Guest.{GuestId, companion_id, GuestId_eq}
use focustown_public.Rules.Pairing.{Waiting}
use focustown_public.Rules.Profile.{
  Profile, companion_profile, companion_profile_default, invalid_companion_identity, not_waiting,
  closed, companion_busy, pair_blocked, slow_down, invite_unavailable,
}
use focustown_public.Store.State.{CompanionInvite, companion_offer}
use focustown_public.Store.Presence.{last_seen, save_companion_invite}
use focustown_public.Store.Blocks.{blocked_for}
use focustown_public.Store.Limits.{hit}
use focustown_public.Town.World.{Deps, companion_pending, cancelled, expired, declined, accepted}
use focustown_public.Town.Exec.{
  Exec, on_option, Done, throw, gets, stored, done, store_to, reject, ◌>>=◌, ◌>>◌,
}
use focustown_public.Town.Session.{
  current, send, waiting_of, clear_companion, require_allowed, open_now, send_companion_invite,
  invite_name, is_gone, draw_id,
}
use focustown_public.Town.Lobby.{start_conversation}

abbrev pub invite_ms : ℕ
invite_ms = 60000

module _ (d : Deps) (now : ℕ) where
  -- An invitation that is over is cleared; one that is not makes the companion busy.
  unfoldable pub end_pending : Option CompanionInvite → Exec Done
  end_pending none = done
  end_pending (some i) =
      if ltb now i.expires_at then throw companion_busy else clear_companion expired

  unfoldable pub offer : Profile → Waiting → Exec Done
  offer profile visitor = do
    blocked ← gets (λ w. blocked_for visitor.guest_id now w.store)
    reject (contains blocked companion_id) pair_blocked
    within ← stored (hit (companion_offer visitor.guest_id) 1 invite_ms now)
    reject (not within) slow_down
    id ← draw_id d now
    let invite : CompanionInvite = record {
      id = id;
      guest_id = visitor.guest_id;
      expires_at = now + invite_ms;
      profile = some profile;
    }
    store_to (save_companion_invite invite)
    send_companion_invite d now invite
    send companion_id (companion_pending id visitor.profile (invite_name d now invite))

  -- `target` is none where the client sent something else than a string
  unfoldable pub invite_companion : Option GuestId → Json → Exec Done
  unfolding end_pending offer
  invite_companion target identity =
      on_option (companion_profile identity) (throw invalid_companion_identity) (λ profile.
        on_option target (throw not_waiting) (λ target. do
          require_allowed d now companion_id
          require_allowed d now target
          lit ← gets (open_now d now)
          reject (not lit) closed
          busy ← current companion_id
          reject (is_some busy) companion_busy
          pending ← gets (λ w. w.store.companion_invite)
          end_pending pending
          visitor ← gets (λ w. waiting_of target w.store)
          seen ← gets (λ w. last_seen target w.store)
          on_option visitor (throw not_waiting)
              (λ v. do reject (is_gone d now seen) not_waiting; offer profile v)))

  unfoldable pub accept : CompanionInvite → Waiting → Exec Done
  accept invite target = do
    lit ← gets (open_now d now)
    if not lit then (do clear_companion cancelled; throw closed) else (do
      busy ← current companion_id
      reject (is_some busy) companion_busy
      blocked ← gets (λ w. blocked_for target.guest_id now w.store)
      reject (contains blocked companion_id) pair_blocked
      clear_companion accepted
      start_conversation d now target (record {
        guest_id = companion_id;
        profile = or_default invite.profile companion_profile_default;
        joined_at = now;
      }))

  unfoldable pub answer_to : CompanionInvite → GuestId → Bool → Exec Done
  unfolding accept
  answer_to invite guest_id accepts = do
    admin_seen ← gets (λ w. last_seen companion_id w.store)
    target ← gets (λ w. waiting_of guest_id w.store)
    on_option target (do clear_companion expired; throw invite_unavailable)
        (λ t.
          if leb invite.expires_at now || is_gone d now admin_seen
          then (do clear_companion expired; throw invite_unavailable)
          else (if accepts then accept invite t else clear_companion declined))

  -- `invite.id === id`; `none` where the client sent no string
  unfoldable pub same_id : Option ℕ → ℕ → Bool
  same_id none i = false
  same_id (some id) i = eqb i id

  unfoldable pub answer_companion : GuestId → Option ℕ → Bool → Exec Done
  unfolding answer_to same_id
  answer_companion guest_id id accepts = do
    require_allowed d now guest_id
    require_allowed d now companion_id
    invite ← gets (λ w. w.store.companion_invite)
    on_option invite (throw invite_unavailable) (λ i.
        if same_id id i.id && i.guest_id == guest_id
        then answer_to i guest_id accepts
        else throw invite_unavailable)
