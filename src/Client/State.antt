-- ===== src/Client/State.antt =====
-- frontend/lib/lbt: the data of types.ts and transport.ts, and what the store of sessionStore.ts
-- keeps, its timers included. Times are milliseconds of the page's clock; an avatar is its place
-- in the family of avatars. `print` is JavaScript's text of a number.
use focustown_public.Prelude.{
  ℕ, ◌+◌, ◌-◌, ◌/◌, Bool, true, false, Option, none, some, List, [], ◌++◌, Text, codes, Json,
}
use focustown_public.Rules.Profile.{Preference, casual, Role}
use focustown_public.Town.World.{EndReason, Party, ReportReason}

pub data View : Type 0 where
  home_view waiting_view chat_view end_view : View

pub data Mode : Type 0 where
  live demo : Mode

pub data Connection : Type 0 where
  idle_connection connecting open_connection offline : Connection

pub data TopicId : Type 0 where
  moment pause song quiet_topic story_topic : TopicId

pub data ReplyId : Type 0 where
  understand think thanks similar listening : ReplyId

pub data SystemCode : Type 0 where
  met energy_shown extend_asked extend_partner_asked extend_accepted : SystemCode

pub data PartnerRef : Type 0 where
  opener : PartnerRef
  reply_ref : ReplyId → PartnerRef

pub data ChatLine : Type 0 where
  system_line : Text → SystemCode → ChatLine
  my_line : Text → Text → ChatLine
  partner_line : Text → Option Text → Option PartnerRef → ChatLine

pub data Modal : Type 0 where
  about support report_modal feedback time_up_modal : Modal

pub record PeerProfile : Type 0 where
  pub nickname : Text
  pub energy : ℕ
  pub preference : Preference
  pub role : Option Role
  pub avatar : Option ℕ

pub record Invitation : Type 0 where
  pub nickname : Option Text
  pub id : Text
  pub expires_at : ℕ

pub record TownStatus : Type 0 where
  pub online : ℕ
  pub waiting : ℕ
  pub is_open : Bool
  pub hours : Text

pub record JoinRequest : Type 0 where
  pub nickname : Text
  pub energy : ℕ
  pub preference : Preference
  pub adult : Bool

-- What the store hears of its transport.
pub data TransportEvent : Type 0 where
  connection_event : Connection → TransportEvent
  waiting_event : Option ℕ → TransportEvent
  companion_invite_event : Text → ℕ → Option Text → TransportEvent
  companion_cleared_event : Text → TransportEvent
  -- me, the partner, whether simulated, the end, and the seconds of grace as they came
  matched_event : PeerProfile → PeerProfile → Bool → ℕ → Json → TransportEvent
  message_event : Text → Party → Option Text → Option PartnerRef → TransportEvent
  typing_event : TransportEvent
  extend_requested_event : Party → TransportEvent
  extended_event : ℕ → TransportEvent
  ended_event : EndReason → TransportEvent
  idle_event : TransportEvent
  error_event : Text → TransportEvent

-- What the store asks of its transport.
pub data Intent : Type 0 where
  join_intent : JoinRequest → Intent
  cancel_intent start_jojo_intent typing_intent extend_intent leave_intent : Intent
  answer_intent : Text → Bool → Intent
  send_intent : Text → Intent
  report_intent : ReportReason → Text → Intent

-- An attached transport: which one it is, its mode, and whether it has `startJojo`.
pub record Transport : Type 0 where
  pub identity : ℕ
  pub mode : Mode
  pub has_jojo : Bool

-- LbtData, the variables of the module (a timer is set or not; the typing and invitation timers
-- keep when they are due), and what has been asked of the transport with its times, newest first.
pub record Client : Type 0 where
  pub jojo_available_at : Option ℕ
  pub jojo_starting : Bool
  pub jojo_reply_pending : Bool
  pub companion_invitation : Option Invitation
  pub companion_answering : Bool
  pub mode : Mode
  pub view : View
  pub energy : ℕ
  pub preference : Preference
  pub nickname : Text
  pub adult : Bool
  pub connection : Connection
  pub town : Option TownStatus
  pub partner : Option PeerProfile
  pub self_avatar : Option ℕ
  pub simulated : Bool
  pub lines : List ChatLine
  pub ends_at : Option ℕ
  pub now : ℕ
  pub partner_typing : Bool
  pub extend_mine : Bool
  pub extend_partner : Bool
  pub topic_id : Option TopicId
  pub sky_topic : Option Text
  pub topic_cursor : ℕ
  pub modal : Option Modal
  pub report_pending : Bool
  pub end_reason : Option EndReason
  pub notice : Option Text
  pub time_up_shown : Bool
  pub waiting_since : Option ℕ
  pub transport : Option Transport
  pub tick : Bool
  pub typing_clear : Option ℕ
  pub invite_expiry : Option ℕ
  pub last_typing_sent : ℕ
  pub system_seq : ℕ
  pub asked : List (ℕ × Intent)

-- INITIAL, with the module's variables as they start.
abbrev pub initial_client : Client
initial_client = record {
  jojo_available_at = none;
  jojo_starting = false;
  jojo_reply_pending = false;
  companion_invitation = none;
  companion_answering = false;
  mode = live;
  view = home_view;
  energy = 1;
  preference = casual;
  nickname = [];
  adult = false;
  connection = idle_connection;
  town = none;
  partner = none;
  self_avatar = none;
  simulated = false;
  lines = [];
  ends_at = none;
  now = 0;
  partner_typing = false;
  extend_mine = false;
  extend_partner = false;
  topic_id = none;
  sky_topic = none;
  topic_cursor = 0;
  modal = none;
  report_pending = false;
  end_reason = none;
  notice = none;
  time_up_shown = false;
  waiting_since = none;
  transport = none;
  tick = false;
  typing_clear = none;
  invite_expiry = none;
  last_typing_sent = 0;
  system_seq = 0;
  asked = [];
}

abbrev pub session_seconds : ℕ
session_seconds = 420

abbrev pub lbt_message_max : ℕ
lbt_message_max = 500

abbrev pub typing_throttle_ms : ℕ
typing_throttle_ms = 3000

abbrev pub partner_typing_clear_ms : ℕ
partner_typing_clear_ms = 4000

unfoldable pub is_home : View → Bool
is_home home_view = true
is_home _ = false

unfoldable pub is_waiting : View → Bool
is_waiting waiting_view = true
is_waiting _ = false

unfoldable pub is_chat : View → Bool
is_chat chat_view = true
is_chat _ = false

unfoldable pub is_end : View → Bool
is_end end_view = true
is_end _ = false

unfoldable pub is_connected : Connection → Bool
is_connected open_connection = true
is_connected _ = false

unfoldable pub is_offline : Connection → Bool
is_offline offline = true
is_offline _ = false

unfoldable pub is_report : Option Modal → Bool
is_report (some report_modal) = true
is_report _ = false

unfoldable pub is_time_up : Option Modal → Bool
is_time_up (some time_up_modal) = true
is_time_up _ = false

abbrev pub line_id : ChatLine → Text
line_id (system_line id code) = id
line_id (my_line id text) = id
line_id (partner_line id text ref) = id

-- `Math.max(0, Math.ceil((endsAt - now) / 1000))`
unfoldable pub remaining_seconds : Client → ℕ
remaining_seconds s = elim s.ends_at [
  | none ↦ session_seconds
  | some end ↦ (end - s.now + 999) / 1000
]

unfoldable pub system_id : (ℕ → Text) → ℕ → Text
system_id print n = codes "sys-" ++ print n
