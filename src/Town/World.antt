-- ===== src/Town/World.antt =====
-- edge/src/town.ts: what the class Town is given (TownConfig, TownDeps), what it sends and keeps.
-- A time is a number of milliseconds: `iso`, which renders one as text, is left out.
use focustown_public.Prelude.{ℕ, Bool, Option, none, List, [], Text, Assoc}
use focustown_public.Guest.{GuestId}
use focustown_public.Rules.Contacts.{RegExp}
use focustown_public.Rules.Hours.{OpenHours}
use focustown_public.Rules.Profile.{Profile, Preference, Code}
use focustown_public.Store.State.{State, Conversation, empty}

pub record Config : Type 0 where
  pub session_ms : ℕ
  pub grace_ms : ℕ
  pub relax_after_ms : ℕ
  pub alert_after_ms : ℕ
  pub alert_gap_ms : ℕ
  pub offline_after_ms : ℕ
  pub block_ms : ℕ
  pub open_hours : Option OpenHours

abbrev pub default_config : Config
default_config = record {
  session_ms = 420000;
  grace_ms = 60000;
  relax_after_ms = 30000;
  alert_after_ms = 20000;
  alert_gap_ms = 120000;
  offline_after_ms = 45000;
  block_ms = 86400000;
  open_hours = none;
}

pub data Party : Type 0 where
  me partner : Party

pub data ClearReason : Type 0 where
  expired declined cancelled accepted matched_other disconnected : ClearReason

pub data EndReason : Type 0 where
  left partner_left reported timeout partner_disconnected suspended_end : EndReason

pub record Timing : Type 0 where
  pub ends_at : ℕ
  pub grace_seconds : ℕ
  pub server_now : ℕ

-- One side of a matched frame: the public profile and the avatar.
pub record Side : Type 0 where
  pub profile : Profile
  pub avatar : ℕ

-- The frames `lbt.*`.
pub data Frame : Type 0 where
  error : Code → Frame
  matched : ℕ → Side → Side → Timing → Frame
  message : ℕ → Party → Text → ℕ → Frame
  extend_requested : Party → Frame
  -- joined at, and when the AI can be asked with the server's time, if it is there
  waiting : ℕ → Option (ℕ × ℕ) → Frame
  companion_invite : ℕ → Text → ℕ → ℕ → Frame
  companion_pending : ℕ → Profile → Text → Frame
  companion_cleared : ℕ → ClearReason → Frame
  idle typing : Frame
  extended : Timing → Frame
  ended : EndReason → Frame

pub data ReportReason : Type 0 where
  harassment sexual minor spam self_harm other : ReportReason

pub record ReportLine : Type 0 where
  pub by_reporter : Bool
  pub text : Text
  pub at : ℕ

pub record ReportRecord : Type 0 where
  pub id : ℕ
  pub conversation_id : ℕ
  pub reporter_guest_id : GuestId
  pub reported_guest_id : GuestId
  pub reason : ReportReason
  pub note : Option Text
  pub transcript : List ReportLine
  pub reporter_profile : Profile
  pub reported_profile : Profile
  pub created_at : ℕ

pub record Alert : Type 0 where
  pub energy : ℕ
  pub preference : Preference
  pub waited_ms : ℕ

-- An inference that is awaited: the conversation as it was, who asked, and whether it was aborted.
pub record Request : Type 0 where
  pub conversation : Conversation
  pub asker : GuestId
  pub aborted : Bool

-- Everything the town reads and writes: the storage, its own fields, and what it has handed to
-- its hooks so far (frames sent, reports saved, conversations counted, alerts raised).
pub record World : Type 0 where
  pub store : State
  pub jojo_requests : Assoc ℕ Request
  pub jojo_starts : List GuestId
  pub suspensions : Assoc GuestId ℕ
  pub drawn : ℕ
  pub sent : List (GuestId × Frame)
  pub reports : List ReportRecord
  pub started : List ℕ
  pub alerts : List Alert

-- The town's surroundings: `local_minutes` is Intl's local time of day, `new_id k` the k-th id
-- drawn from crypto.randomUUID, `id_text` an id's text. The flags say which hooks are wired.
-- While a hook that writes to D1 is awaited, other events run: `meanwhile` is what they make of the
-- town, and `rejects` is whether the hook then fails.
pub record Deps : Type 0 where
  pub config : Config
  pub local_minutes : ℕ → ℕ
  pub new_id : ℕ → ℕ
  pub id_text : ℕ → Text
  pub re : RegExp
  pub jojo_reply : Bool
  pub lonely_alerts : Bool
  pub save_report : Bool
  pub meanwhile : World → World
  pub rejects : World → Bool

abbrev pub new_world : World
new_world = record {
  store = empty;
  jojo_requests = [];
  jojo_starts = [];
  suspensions = [];
  drawn = 0;
  sent = [];
  reports = [];
  started = [];
  alerts = [];
}
