-- ===== src/Server/Admin.antt =====
-- edge/src/townObject.ts: the administrator's calls, the limits by address, and the start-up. An
-- address and a session's fingerprint are numbers.
use focustown_public.Prelude.{ℕ, ◌+◌, ◌*◌, Bool, not, List, length, select, insert}
use focustown_public.Guest.{GuestId, GuestId_eq}
use focustown_public.Rules.Pairing.{Waiting}
use focustown_public.Store.State.{State, guest_ip, unlock_ip, feedback_ip, admin_ip}
use focustown_public.Store.Presence.{last_seen, admin_session_revoked, revoke_admin_session}
use focustown_public.Store.Limits.{hit, limited}
use focustown_public.Store.Chats.{purge_closed}
use focustown_public.Town.World.{World, Deps}
use focustown_public.Town.Exec.{Exec, Done, stored, store_to, modify, for_each, ◌>>◌}
use focustown_public.Town.Session.{is_gone, restrict}
use focustown_public.Town.Lobby.{status}
use focustown_public.Rules.Profile.{Result, ok, err}
use focustown_public.Server.Dispatch.{moderated}
use focustown_public.Server.Moderation.{Tables}
use focustown_public.Prelude.{Option}
use focustown_public.Town.Exec.{pure}

module _ (d : Deps) (now : ℕ) where
  -- status, the open conversations, and the maintenance pause
  unfoldable pub admin_stats : World → (ℕ × ℕ × Bool) × ℕ × Bool
  admin_stats w = (status d now w, length w.store.active, w.store.maintenance)

  -- The waiting guests seen lately; a row's guest, profile and time are the entry's.
  unfoldable pub admin_waiting : State → List Waiting
  admin_waiting s = select (λ w. not (is_gone d now (last_seen w.guest_id s))) s.queue

  unfoldable pub allow_guest : ℕ → Exec Bool
  allow_guest ip = stored (hit (guest_ip ip) 30 3600000 now)

  unfoldable pub allow_unlock : ℕ → Exec Bool
  allow_unlock ip = stored (hit (unlock_ip ip) 10 3600000 now)

  unfoldable pub allow_feedback : ℕ → Exec Bool
  allow_feedback ip = stored (hit (feedback_ip ip) 5 3600000 now)

  unfoldable pub is_session_revoked : ℕ → State → Bool
  is_session_revoked fingerprint s = admin_session_revoked fingerprint now s

  unfoldable pub revoke_session : ℕ → Exec Done
  revoke_session fingerprint = store_to (revoke_admin_session fingerprint (now + 12 * 3600000))

  unfoldable pub admin_login_blocked : ℕ → State → Bool
  admin_login_blocked ip s = limited (admin_ip ip) 10 now s

  unfoldable pub allow_admin_login : ℕ → Exec Bool
  allow_admin_login ip = stored (hit (admin_ip ip) 10 (15 * 60000) now)

  -- The constructor, with the suspensions that moderation.ts reads.
  unfoldable pub start_up : List (GuestId × ℕ) → Exec Done
  start_up bans = do
    store_to purge_closed
    for_each bans (λ ban. do
      modify (λ w. record w { suspensions = insert ban.0 ban.1 w.suspensions })
      restrict ban.0)

  -- `moderate`, from what the review came to: the tables as they are then, or the review's error.
  unfoldable pub moderate : Result (GuestId × Option ℕ × Tables) → Exec (Result (Option ℕ))
  moderate (err c) = pure (err c)
  moderate (ok (guest_id, until, t)) = do moderated d now guest_id until; pure (ok until)
