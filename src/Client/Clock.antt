-- ===== src/Client/Clock.antt =====
-- sessionStore.ts: the clock of a chat, what the timers do when they are due, the end of a
-- conversation, and calls of the transport.
use focustown_public.Prelude.{
  ℕ, Bool, true, false, not, ◌&&◌, Option, none, some, is_some, List, [], ◌∷◌, or_default, leb,
  if◌then◌else◌, Text, codes, Text_eq,
}
use focustown_public.Town.World.{EndReason}
use focustown_public.Client.State.{Client, end_view, is_chat, is_report, time_up_modal, Intent}

-- SEND_HOME
abbrev pub send_home : List Text
send_home =
    codes "closed"
    ∷ codes "age_required"
    ∷ codes "nickname_required"
    ∷ codes "invalid_energy"
    ∷ codes "invalid_preference"
    ∷ codes "guest_suspended"
    ∷ []

-- A call of the transport, which is recorded if there is one.
unfoldable pub ask : ℕ → Intent → Client → Client
ask now intent s = if is_some s.transport then record s { asked = (now, intent) ∷ s.asked } else s

unfoldable pub start_clock : ℕ → Client → Client
start_clock now s = record s { now = now; tick = true }

-- `state.endsAt !== null && now >= state.endsAt`
unfoldable pub is_over : ℕ → Option ℕ → Bool
is_over now none = false
is_over now (some end) = leb end now

-- The interval of startClock.
unfoldable pub tick_clock : ℕ → Client → Client
unfolding is_over is_chat
tick_clock now s =
    if not (s.tick && is_chat s.view)
    then s
    else if is_over now s.ends_at && not s.time_up_shown
    then record s {
      now = now;
      time_up_shown = true;
      modal = some (or_default s.modal time_up_modal);
    }
    else record s { now = now }

-- The timer of `typing`, and that of an invitation.
unfoldable pub clear_typing : ℕ → Client → Client
unfolding is_over
clear_typing now s =
    if is_over now s.typing_clear
    then record s { partner_typing = false; typing_clear = none }
    else s

unfoldable pub expire_invitation : ℕ → Client → Client
unfolding is_over
expire_invitation now s =
    if is_over now s.invite_expiry
    then record s { companion_invitation = none; companion_answering = false; invite_expiry = none }
    else s

unfoldable pub to_end : Option EndReason → Client → Client
unfolding is_report
to_end reason s = record s {
  invite_expiry = none;
  tick = false;
  typing_clear = none;
  view = end_view;
  jojo_available_at = none;
  jojo_starting = false;
  jojo_reply_pending = false;
  lines = [];
  partner = none;
  self_avatar = none;
  simulated = false;
  companion_invitation = none;
  companion_answering = false;
  end_reason = reason;
  partner_typing = false;
  extend_mine = false;
  extend_partner = false;
  topic_id = none;
  ends_at = none;
  waiting_since = none;
  modal = if s.report_pending && is_report s.modal then s.modal else none;
}
