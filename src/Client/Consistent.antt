-- ===== src/Client/Consistent.antt =====
-- sessionStore.ts: which data there is in which view, and what an event of the transport keeps of it.
use focustown_public.Prelude.{ℕ, ◌≡◌, true, false, Option, none, is_some, [], arith, Text, Text_eq}
use focustown_public.Town.World.{EndReason, Party, me, partner}
use focustown_public.Client.State.{Client, is_chat, is_waiting, Connection, PartnerRef, Intent}
use focustown_public.Client.Handle.{
  hear_connection, hear_invite, hear_cleared, hear_waiting, hear_typing, hear_error, hear_ended,
  hear_message, hear_idle, say_line, hear_matched, hear_extend_requested, hear_extended,
  handle_event, begin_chat, prolong,
}
use focustown_public.Client.Clock.{
  ask, tick_clock, clear_typing, expire_invitation, to_end, is_over, start_clock,
}
use focustown_public.Client.State.{
  initial_client, TransportEvent, connection_event, waiting_event, companion_invite_event,
  companion_cleared_event, matched_event, message_event, typing_event, extend_requested_event,
  extended_event, ended_event, idle_event, error_event,
}

-- In a chat there are a partner, an end and a running clock, nothing has ended and no invitation
-- is open; elsewhere there are none of these, no line, and nothing that is pending in a chat. It
-- is known since when the visitor waits exactly while they wait.
pub record IsConsistent (s : Client) : Type 0 where
  pub partner_known : is_some s.partner ≡ is_chat s.view
  pub end_known : is_some s.ends_at ≡ is_chat s.view
  pub clock_runs : s.tick ≡ is_chat s.view
  pub wait_known : is_some s.waiting_since ≡ is_waiting s.view
  pub in_chat : is_chat s.view ≡ true → (s.end_reason ≡ none) × (s.companion_invitation ≡ none)
  pub elsewhere :
      is_chat s.view ≡ false
      → (s.lines ≡ [])
        × (s.extend_mine ≡ false)
        × (s.extend_partner ≡ false)
        × (s.jojo_reply_pending ≡ false)

pub initial-IsConsistent : IsConsistent initial_client
unfolding is_chat is_waiting
initial-IsConsistent = ground arith

module _ (s : Client) (v : IsConsistent s) where
  IsConsistent-ask : (now : ℕ) (i : Intent) → IsConsistent (ask now i s)
  unfolding ask
  IsConsistent-ask now i = ground (arith, v)

  IsConsistent-hear_waiting : (now : ℕ) (t : Option ℕ) → IsConsistent (hear_waiting now t s)
  unfolding hear_waiting is_chat is_waiting
  IsConsistent-hear_waiting now t = ground (arith, v)

  IsConsistent-to_end : (r : Option EndReason) → IsConsistent (to_end r s)
  unfolding to_end is_chat is_waiting
  IsConsistent-to_end r = ground (arith, v)

  pub IsConsistent-tick_clock : (now : ℕ) → IsConsistent (tick_clock now s)
  unfolding tick_clock is_chat is_over is_waiting
  IsConsistent-tick_clock now = ground (arith, v)

  pub IsConsistent-clear_typing : (now : ℕ) → IsConsistent (clear_typing now s)
  unfolding clear_typing is_over
  IsConsistent-clear_typing now = ground (arith, v)

  pub IsConsistent-expire_invitation : (now : ℕ) → IsConsistent (expire_invitation now s)
  unfolding expire_invitation is_over
  IsConsistent-expire_invitation now = ground (arith, v)

  IsConsistent-hear_connection : (c : Connection) → IsConsistent (hear_connection c s)
  unfolding hear_connection
  IsConsistent-hear_connection c = ground (arith, v)

  IsConsistent-hear_invite :
      (now : ℕ) (id : Text) (t : ℕ) (name : Option Text)
      → IsConsistent (hear_invite now id t name s)
  unfolding hear_invite is_chat is_waiting
  IsConsistent-hear_invite now id t name = ground (arith, v)

  IsConsistent-hear_cleared : (id : Text) → IsConsistent (hear_cleared id s)
  unfolding hear_cleared
  IsConsistent-hear_cleared id = ground (arith, v)

  IsConsistent-hear_typing : (now : ℕ) → IsConsistent (hear_typing now s)
  unfolding hear_typing
  IsConsistent-hear_typing now = ground (arith, v)

  IsConsistent-hear_error : (code : Text) → IsConsistent (hear_error code s)
  unfolding hear_error is_chat is_waiting
  IsConsistent-hear_error code = ground (arith, v)

  IsConsistent-hear_ended : (r : EndReason) → IsConsistent (hear_ended r s)
  unfolding hear_ended to_end is_chat is_waiting
  IsConsistent-hear_ended r = ground (arith, v)

  IsConsistent-hear_message :
      (id : Text) (from : Party) (text : Option Text) (ref : Option PartnerRef)
      → IsConsistent (hear_message id from text ref s)
  unfolding hear_message
  IsConsistent-hear_message id from text ref = ground (arith, v)

  IsConsistent-hear_idle : (now : ℕ) → IsConsistent (hear_idle now s)
  unfolding hear_idle ask to_end is_chat is_waiting
  IsConsistent-hear_idle now = ground (arith, v)

  pub IsConsistent-handle_event :
      (print : ℕ → Text) (now : ℕ) (e : TransportEvent) → IsConsistent (handle_event print now e s)
  unfolding handle_event
  IsConsistent-handle_event print now (connection_event c) = IsConsistent-hear_connection c
  IsConsistent-handle_event print now (waiting_event t) = IsConsistent-hear_waiting now t
  IsConsistent-handle_event print now (companion_invite_event id t name) =
      IsConsistent-hear_invite now id t name
  IsConsistent-handle_event print now (companion_cleared_event id) = IsConsistent-hear_cleared id
  IsConsistent-handle_event print now (matched_event mine other simulated t grace) =
      unfold hear_matched begin_chat start_clock say_line is_chat is_waiting in ground (arith, v)
  IsConsistent-handle_event print now (message_event id from text ref) =
      IsConsistent-hear_message id from text ref
  IsConsistent-handle_event print now typing_event = IsConsistent-hear_typing now
  IsConsistent-handle_event print now (extend_requested_event me) =
      unfold hear_extend_requested say_line in ground (arith, v)
  IsConsistent-handle_event print now (extend_requested_event partner) =
      unfold hear_extend_requested say_line in ground (arith, v)
  IsConsistent-handle_event print now (extended_event t) =
      unfold hear_extended prolong say_line in ground (arith, v)
  IsConsistent-handle_event print now (ended_event reason) = IsConsistent-hear_ended reason
  IsConsistent-handle_event print now idle_event = IsConsistent-hear_idle now
  IsConsistent-handle_event print now (error_event code) = IsConsistent-hear_error code
