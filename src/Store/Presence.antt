-- ===== src/Store/Presence.antt =====
-- edge/src/store.ts: invitations, the maintenance pause, administrator sessions, owner alerts and
-- presence. A time that lies before a difference `now - x` is compared with `-` stopping at 0,
-- which is the same on times that are not negative.
use focustown_public.Prelude.{
  ℕ, Bool, Option, none, some, leb, ltb, length, select, or_default, lookup, insert, keep_entries,
  Assoc, ℕ_eq,
}
use focustown_public.Guest.{GuestId, GuestId_eq}
use focustown_public.Store.State.{State, CompanionInvite}

unfoldable pub save_companion_invite : CompanionInvite → State → State
save_companion_invite invite s = record s { companion_invite = some invite }

unfoldable pub clear_companion_invite : State → State
clear_companion_invite s = record s { companion_invite = none }

unfoldable pub set_maintenance : Bool → State → State
set_maintenance on s = record s { maintenance = on }

unfoldable pub revoke_admin_session : ℕ → ℕ → State → State
revoke_admin_session fingerprint until s = record s {
  admin_revoked = insert fingerprint until s.admin_revoked;
}

unfoldable pub admin_session_revoked : ℕ → ℕ → State → Bool
admin_session_revoked fingerprint now s =
    ltb now (or_default (lookup fingerprint s.admin_revoked) 0)

unfoldable pub set_alerted_waiters : Assoc GuestId ℕ → State → State
set_alerted_waiters value s = record s { alerted_waiters = value }

unfoldable pub set_last_owner_alert : ℕ → State → State
set_last_owner_alert at s = record s { last_owner_alert = some at }

unfoldable pub touch_online : GuestId → ℕ → State → State
touch_online guest_id now s = record s { online = insert guest_id now s.online }

unfoldable pub last_seen : GuestId → State → Option ℕ
last_seen guest_id s = lookup guest_id s.online

unfoldable pub count_online : ℕ → State → ℕ
count_online since s = length (select (λ e. leb since e.1) s.online)

unfoldable pub prune_online : ℕ → State → State
prune_online before s = record s { online = keep_entries (λ g t. leb before t) s.online }
