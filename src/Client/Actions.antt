-- ===== src/Client/Actions.antt =====
-- sessionStore.ts, the actions of the store: what the visitor's page calls.
use focustown_public.Prelude.{
  ℕ, zero, suc, ◌+◌, ◌-◌, ◌%◌, Bool, true, false, not, ◌&&◌, ◌||◌, Option, none, some, is_some,
  List, [], ◌∷◌, if◌then◌else◌, take, ltb, leb, eqb, Text, codes, text_beq, length,
}
use focustown_public.Rules.Cleaning.{trim}
use focustown_public.Rules.Profile.{ai}
use focustown_public.Town.World.{ReportReason, left}
use focustown_public.Client.State.{
  Client, initial_client, Transport, Mode, live, demo, TopicId, moment, pause, song, quiet_topic,
  story_topic, home_view, waiting_view, is_waiting, is_chat, is_connected, is_report, is_time_up,
  join_intent, cancel_intent, start_jojo_intent, typing_intent, extend_intent, leave_intent,
  answer_intent, send_intent, report_intent, remaining_seconds, lbt_message_max, typing_throttle_ms,
  Invitation, PeerProfile,
}
use focustown_public.Client.Handle.{is_shut, is_blank}
use focustown_public.Client.Clock.{ask, to_end, is_over}

-- attach, without the events that the transport's start emits, and the function that it returns
unfoldable pub attach : Transport → Client → Client
attach t s = record s { transport = some t; mode = t.mode }

unfoldable pub detach : Transport → Client → Client
detach t s = elim s.transport [
  | none ↦ s
  | some u ↦ if eqb u.identity t.identity then record s { transport = none } else s
]

unfoldable pub set_adult : Bool → Client → Client
set_adult adult s = record s {
  adult = adult;
  notice = elim s.notice [
    | none ↦ none
    | some code ↦ if text_beq code (codes "age_required") then none else some code
  ];
}

unfoldable pub start_waiting : ℕ → Text → Client → Client
unfolding is_shut ask
start_waiting now nickname s =
    if not s.adult
    then record s { notice = some (codes "age_required") }
    else if is_shut s.town
    then record s { notice = some (codes "closed") }
    else ask now
        (join_intent (record {
          nickname = nickname;
          energy = s.energy;
          preference = s.preference;
          adult = s.adult;
        }))
        (record s {
          companion_invitation = none;
          companion_answering = false;
          view = waiting_view;
          jojo_available_at = none;
          jojo_starting = false;
          jojo_reply_pending = false;
          nickname = nickname;
          lines = [];
          partner = none;
          self_avatar = none;
          end_reason = none;
          notice = none;
          modal = none;
          waiting_since = some now;
        })

unfoldable pub cancel_waiting : ℕ → Client → Client
unfolding ask
cancel_waiting now s = ask now cancel_intent (record s {
  invite_expiry = none;
  view = home_view;
  waiting_since = none;
  companion_invitation = none;
  companion_answering = false;
  jojo_available_at = none;
  jojo_starting = false;
})

unfoldable pub give_answer : ℕ → Bool → Invitation → Client → Client
unfolding is_waiting is_connected ask
give_answer now accept invite s =
    if s.companion_answering
      || not (is_waiting s.view)
      || not (is_connected s.connection)
      || leb invite.expires_at now
    then s
    else ask now (answer_intent invite.id accept) (record s { companion_answering = true })

-- answerCompanion
unfoldable pub answer_invitation : ℕ → Bool → Client → Client
unfolding give_answer
answer_invitation now accept s = elim s.companion_invitation [
  | none ↦ s
  | some invite ↦ give_answer now accept invite s
]

unfoldable pub can_jojo : Option Transport → Bool
can_jojo none = false
can_jojo (some t) = t.has_jojo

-- startJojo
unfoldable pub ask_jojo : ℕ → Client → Client
unfolding is_waiting is_connected is_over can_jojo ask
ask_jojo now s =
    if not (is_waiting s.view)
      || not (is_connected s.connection)
      || not s.adult
      || s.jojo_starting
      || not (is_over now s.jojo_available_at)
      || not (can_jojo s.transport)
    then s
    else ask now start_jojo_intent (record s { jojo_starting = true; notice = none })

unfoldable pub go_home : ℕ → Client → Client
unfolding is_chat is_waiting ask
go_home now s =
    let t = record s {
      invite_expiry = none;
      tick = false;
      view = home_view;
      jojo_available_at = none;
      jojo_starting = false;
      jojo_reply_pending = false;
      lines = [];
      companion_invitation = none;
      companion_answering = false;
      ends_at = none;
      partner = none;
      self_avatar = none;
      modal = none;
      topic_id = none;
      waiting_since = none;
      extend_mine = false;
      extend_partner = false;
    } in
    if is_chat s.view
    then ask now leave_intent t
    else if is_waiting s.view
    then ask now cancel_intent t
    else t

-- leave, of the store
unfoldable pub leave_chat : ℕ → Client → Client
unfolding is_chat to_end ask
leave_chat now s = if is_chat s.view then to_end (some left) (ask now leave_intent s) else s

unfoldable pub is_live : Mode → Bool
is_live live = true
is_live demo = false

unfoldable pub is_ai : Option PeerProfile → Bool
is_ai none = false
is_ai (some p) = elim p.role [ none ↦ false | some r ↦ elim r [ ai ↦ true | _ ↦ false ] ]

-- What is sent of a draft.
unfoldable pub draft : Text → Text
draft raw = take lbt_message_max (trim raw)

-- sendMessage: whether the composer may forget the draft.
unfoldable pub try_send : ℕ → Text → Client → Bool × Client
unfolding draft is_blank is_chat remaining_seconds is_live is_connected is_ai ask
try_send now raw s =
    let text = draft raw in
    if is_blank text || not (is_chat s.view) || eqb (remaining_seconds s) 0
    then (false, s)
    else if is_live s.mode && not (is_connected s.connection)
    then (false, s)
    else if is_ai s.partner
    then if s.jojo_reply_pending
      then (false, s)
      else (true, ask now (send_intent text) (record s { jojo_reply_pending = true }))
    else (true, ask now (send_intent text) s)

unfoldable pub notify_typing : ℕ → Client → Client
unfolding is_chat ask
notify_typing now s =
    if not (is_chat s.view) || ltb (now - s.last_typing_sent) typing_throttle_ms
    then s
    else ask now typing_intent (record s { last_typing_sent = now })

-- extend, of the store
unfoldable pub ask_extension : ℕ → Client → Client
unfolding is_chat is_time_up ask
ask_extension now s =
    if not (is_chat s.view) || s.extend_mine
    then s
    else if is_time_up s.modal
    then record (ask now extend_intent s) { modal = none }
    else ask now extend_intent s

-- report, up to where the transport's answer is awaited: without a transport it is simulated.
pub data ReportStart : Type 0 where
  no_conversation_here simulated_report awaiting_report : ReportStart

unfoldable pub start_report : ℕ → ReportReason → Text → Client → ReportStart × Client
unfolding is_chat ask
start_report now reason note s =
    if not (is_chat s.view) || s.report_pending
    then (no_conversation_here, s)
    else if is_some s.transport
    then (awaiting_report, ask now (report_intent reason note) (record s { report_pending = true }))
    else (simulated_report, s)

-- report, once the transport has answered: whether it failed.
unfoldable pub settle_report : Bool → Client → Client
unfolding is_chat is_report
settle_report failed s =
    if failed && not (is_chat s.view) && is_report s.modal
    then record s { modal = none; report_pending = false }
    else record s { report_pending = false }

abbrev pub topic_ids : List TopicId
topic_ids = moment ∷ pause ∷ song ∷ quiet_topic ∷ story_topic ∷ []

-- `xs[n]`
unfoldable pub topic_at : ℕ → List TopicId → Option TopicId
topic_at n [] = none
topic_at zero (x ∷ xs) = some x
topic_at (suc n) (x ∷ xs) = topic_at n xs

unfoldable pub draw_topic : Client → Client
unfolding topic_at
draw_topic s = record s {
  topic_id = topic_at (s.topic_cursor % length topic_ids) topic_ids;
  topic_cursor = s.topic_cursor + 1;
}

-- reset: the calls that were made stay made, and the transport stays.
unfoldable pub reset : Client → Client
reset s = record initial_client {
  mode = s.mode;
  transport = s.transport;
  system_seq = s.system_seq;
  asked = s.asked;
}
