-- ===== src/Client/Run.antt =====
-- The inputs of sessionStore.ts one after another, each at the time that the page's clock shows.
use focustown_public.Prelude.{ℕ, Bool, Option, none, some, List, [], ◌∷◌, ◌≡◌, false, Text}
use focustown_public.Rules.Profile.{Preference}
use focustown_public.Town.World.{ReportReason}
use focustown_public.Client.State.{Client, is_chat, Transport, TownStatus, Modal, TransportEvent}
use focustown_public.Client.Handle.{handle_event}
use focustown_public.Client.Clock.{tick_clock, clear_typing, expire_invitation}
use focustown_public.Client.Actions.{
  attach, detach, set_adult, start_waiting, cancel_waiting, answer_invitation, ask_jojo, go_home,
  leave_chat, try_send, notify_typing, ask_extension, start_report, settle_report, draw_topic,
  reset,
}

pub data Input : Type 0 where
  heard : TransportEvent → Input
  ticked typing_due invitation_due : Input
  attached detached : Transport → Input
  energy_set : ℕ → Input
  preference_set : Preference → Input
  adult_set : Bool → Input
  town_set : Option TownStatus → Input
  walked_in : Text → Input
  again_called cancelled jojo_called went_home left_chat typed extension_called : Input
  answered_invitation : Bool → Input
  draft_sent : Text → Input
  report_started : ReportReason → Text → Input
  report_settled : Bool → Input
  topic_drawn topic_dismissed sky_topic_cleared modal_closed notice_dismissed was_reset : Input
  sky_topic_taken : Text → Input
  modal_opened : Modal → Input

module _ (print : ℕ → Text) where
  unfoldable pub step : ℕ → Input → Client → Client
  step now (heard event) s = handle_event print now event s
  step now ticked s = tick_clock now s
  step now typing_due s = clear_typing now s
  step now invitation_due s = expire_invitation now s
  step now (attached t) s = attach t s
  step now (detached t) s = detach t s
  step now (energy_set energy) s = record s { energy = energy }
  step now (preference_set preference) s = record s { preference = preference }
  step now (adult_set adult) s = set_adult adult s
  step now (town_set town) s = record s { town = town }
  step now (walked_in nickname) s = start_waiting now nickname s
  step now again_called s = start_waiting now s.nickname s
  step now cancelled s = cancel_waiting now s
  step now jojo_called s = ask_jojo now s
  step now went_home s = go_home now s
  step now left_chat s = leave_chat now s
  step now typed s = notify_typing now s
  step now extension_called s = ask_extension now s
  step now (answered_invitation accept) s = answer_invitation now accept s
  step now (draft_sent raw) s = (try_send now raw s).1
  step now (report_started reason note) s = (start_report now reason note s).1
  step now (report_settled failed) s = settle_report failed s
  step now topic_drawn s = draw_topic s
  step now topic_dismissed s = record s { topic_id = none }
  step now sky_topic_cleared s = record s { sky_topic = none }
  step now modal_closed s = record s { modal = none }
  step now notice_dismissed s = record s { notice = none }
  step now was_reset s = reset s
  step now (sky_topic_taken word) s = record s { sky_topic = some word }
  step now (modal_opened modal) s = record s { modal = some modal }

  unfoldable pub play : List (ℕ × Input) → Client → Client
  unfolding step
  play [] s = s
  play ((now, i) ∷ is) s = play is (step now i s)

-- startWaiting, again and cancelWaiting are buttons of the home, end and waiting screens.
abbrev pub IsOffered : Input → Client → Type 0
IsOffered (walked_in nickname) s = is_chat s.view ≡ false
IsOffered again_called s = is_chat s.view ≡ false
IsOffered cancelled s = is_chat s.view ≡ false
IsOffered _ s = Unit {0}

module _ (print : ℕ → Text) where
  abbrev pub AllOffered : List (ℕ × Input) → Client → Type 0
  AllOffered [] s = Unit {0}
  AllOffered ((now, i) ∷ is) s = IsOffered i s × AllOffered is (step print now i s)
