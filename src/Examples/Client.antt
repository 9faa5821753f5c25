-- ===== src/Examples/Client.antt =====
-- Concrete inputs for the theorems on the web client, on tokens and on fresh codes.
use focustown_public.Client.Unlocked.{
  IsCurrent, IsOutcome, RedeemAnswer, Saved, Unlocked, expire, load, check_answer, redeem,
  unlocked-IsCurrent,
}
use focustown_public.Client.TownTime.{
  LocalDate, apply_town_time, time_text, town_time_at, week_text, town_week_at,
  apply_town_time-agrees,
}
use focustown_public.Town.World.{partner}
use focustown_public.Client.Live.Outbox.{on_socket, is_queued}
use focustown_public.Client.Live.Waiting.{IsShut, asked_by}
use focustown_public.Client.Live.Delivery.{all_asked, outbox_delivered}
use focustown_public.Client.Understood.{event_for, frame-understood}
use focustown_public.Client.Sending.{IsSendable, try_send-Sends}
use focustown_public.Server.Wire.{frame_json}
use focustown_public.Client.Screens.{play-Consistent}
use focustown_public.Town.World.{Frame, Side, left, matched}
use focustown_public.Rules.Profile.{casual, listen, admin}
use focustown_public.Client.Typing.{IsSpaced, typing_times, play-IsSpaced}
use focustown_public.Client.Live.Trying.{IsTrying, never_given_up}
use focustown_public.Client.Live.History.{
  Happening, happen_all, started, token_came, opened, closed_with, went_offline, went_online,
  token_lost, called, reconnect_timed, happen,
}
use focustown_public.Client.Live.{
  open_id, socket_opened, ask_live, send_frame, reconnect_due, is_due,
}
use focustown_public.Client.Lines.{IsOnce, play-IsOnce}
use focustown_public.Client.Frames.{map_server_frame}
use focustown_public.Client.Consistent.{IsConsistent}
use focustown_public.Client.Connection.{
  LiveTransport, new_live, asked_frame, connect_live, emit, token_ready,
}
use focustown_public.Client.Actions.{attach, try_send, set_adult, draft}
use focustown_public.Prelude.{
  ℕ, zero, suc, ◌≤◌, ◌≡◌, refl, ap, arith, true, false, Option, none, some, List, [], ◌∷◌, ◌++◌,
  map, length, Text, codes, num, ◌↔◌, lookup, insert,
}
use focustown_public.Client.State.{
  Client, Transport, live, initial_client, PeerProfile, end_view, matched_event, waiting_event,
  chat_view, open_connection, send_intent, message_event, extend_intent, is_chat, system_id,
  lbt_message_max,
}
use focustown_public.Client.Run.{
  Input, heard, adult_set, attached, walked_in, typed, left_chat, step, play, AllOffered,
}
use focustown_public.Client.Phases.{Follows, phase_of, play-Follows}

-- A number as so many strokes.
tally : ℕ → Text
tally zero = []
tally (suc n) = 49 ∷ tally n

tally-injective : (m n : ℕ) → tally m ≡ tally n → m ≡ n
unfolding tally
tally-injective zero zero e = refl
tally-injective zero (suc n) e = cc
tally-injective (suc m) zero e = cc
tally-injective (suc m) (suc n) e = ap (λ k. suc k) (tally-injective m n (cc e))

length-tally : (n : ℕ) → length (tally n) ≡ n
unfolding tally
length-tally zero = refl
length-tally (suc n) = ap (λ k. suc k) (length-tally n)

abbrev mo : PeerProfile
mo = record { nickname = codes "Mo"; energy = 2; preference = casual; role = none; avatar = some 3 }

abbrev ana : PeerProfile
ana = record {
  nickname = codes "Ana";
  energy = 1;
  preference = listen;
  role = none;
  avatar = some 4;
}

abbrev wire : Transport
wire = record { identity = 1; mode = live; has_jojo = true }

-- A visit: a chat with a message and a sign of typing, which the visitor leaves.
abbrev visit : List (ℕ × Input)
visit =
    (0, attached wire)
    ∷ (1, adult_set true)
    ∷ (2, walked_in (codes "Mo"))
    ∷ (3, heard (waiting_event none))
    ∷ (4, heard (matched_event mo ana false 420004 (num 60)))
    ∷ (9000, typed)
    ∷ (9001, heard (message_event (codes "7") partner (some (codes "hi")) none))
    ∷ (9002, left_chat)
    ∷ []

visit-offered : AllOffered tally visit initial_client
unfolding step attach set_adult is_chat
visit-offered = (tt, (tt, (refl, (tt, (tt, (tt, (tt, (tt, tt))))))))

play-Follows_example :
    Follows visit (phase_of initial_client) (phase_of (play tally visit initial_client))
play-Follows_example = play-Follows tally visit visit-offered

play-Consistent_example : IsConsistent (play tally visit initial_client)
play-Consistent_example = play-Consistent tally visit visit-offered

play-IsOnce_example : IsOnce (play tally visit initial_client).lines
play-IsOnce_example =
    play-IsOnce tally tally-injective visit
      (tt, (tt, (tt, (tt, (tt, (tt, (λ n e. unfold system_id in cc e, (tt, tt))))))))

play-IsSpaced_example : IsSpaced (typing_times (play tally visit initial_client).asked)
play-IsSpaced_example = play-IsSpaced tally visit (tt, (tt, (tt, (tt, (tt, (tt, (tt, (tt, tt))))))))

-- The conversation was left, and the server still replays it.
abbrev left_behind : Client
left_behind = record initial_client {
  view = end_view;
  end_reason = some left;
  nickname = codes "Mo";
}

abbrev replay : List (ℕ × Input)
replay =
    (1, heard (matched_event mo ana false 420004 (num 60)))
    ∷ (2, heard (waiting_event none))
    ∷ (3, heard (matched_event mo ana false 420004 (num 60)))
    ∷ []

abbrev chatting : Client
chatting = record initial_client {
  view = chat_view;
  transport = some wire;
  connection = open_connection;
  ends_at = some 5000;
  now = 1000;
}

try_send-Sends_example :
    (((try_send 1000 (codes " hi ") chatting).0 ≡ true) ↔ IsSendable (codes " hi ") chatting)
    × (length (draft (codes " hi ")) ≤ lbt_message_max)
    × ((try_send 1000 (codes " hi ") chatting).0 ≡ true
        → (try_send 1000 (codes " hi ") chatting).1.asked
          ≡ (1000, send_intent (draft (codes " hi "))) ∷ chatting.asked)
    × ((try_send 1000 (codes " hi ") chatting).0 ≡ false
        → (try_send 1000 (codes " hi ") chatting).1 ≡ chatting)
try_send-Sends_example = try_send-Sends 1000 (codes " hi ") chatting wire refl

abbrev mo_side : Side
mo_side = record {
  profile = record { nickname = codes "Mo"; energy = 2; preference = casual; role = none };
  avatar = 3;
}

abbrev ana_side : Side
ana_side = record {
  profile = record { nickname = codes "Ana"; energy = 1; preference = listen; role = some admin };
  avatar = 9;
}

abbrev meeting : Frame
meeting = matched 1 mo_side ana_side (record { ends_at = 45; grace_seconds = 60; server_now = 3 })

read_tally : Text → Option ℕ
read_tally t = some (length t)

frame-understood_example :
    map_server_frame read_tally (frame_json tally tally meeting) 5 ≡ event_for tally 5 meeting
frame-understood_example =
    frame-understood tally tally read_tally (unfold read_tally in λ t. ap some (length-tally t))
      meeting 5 ((refl, omega arith), (refl, omega arith))

abbrev outing : List (ℕ × Happening)
outing =
    (0, started false)
    ∷ (1, token_came)
    ∷ (2, opened 0)
    ∷ (3, closed_with 0 1006)
    ∷ (9, went_offline)
    ∷ (10, went_online)
    ∷ (11, token_lost)
    ∷ []

never_given_up_example : IsTrying (happen_all read_tally outing (new_live none))
never_given_up_example = never_given_up read_tally outing none

-- A socket is being opened.
-- No socket, and a reconnection is due.
abbrev cut_off : LiveTransport
cut_off = record (new_live none) { listener = true; running = true; reconnect_timer = some 5 }

abbrev meanwhile : List (ℕ × Happening)
meanwhile =
    (4, called (send_intent (codes "hi")))
    ∷ (5, reconnect_timed)
    ∷ (6, called extend_intent)
    ∷ (7, token_came)
    ∷ []

cut_off-IsShut : IsShut cut_off
cut_off-IsShut = (λ id e. cc, refl)

outbox_delivered_example :
    ((socket_opened 7 0 (happen_all (λ t. none) meanwhile cut_off)).sent
      ≡ cut_off.sent ++ map (λ i. on_socket 0 (asked_frame i)) (all_asked meanwhile))
    × ((socket_opened 7 0 (happen_all (λ t. none) meanwhile cut_off)).outbox ≡ [])
outbox_delivered_example =
    outbox_delivered (λ t. none) meanwhile 7 0 cut_off cut_off-IsShut refl
      (unfold is_queued in (refl, (tt, (refl, (tt, tt)))))
      (unfold all_asked asked_by in omega arith)
      (unfold happen_all happen ask_live send_frame open_id reconnect_due is_due connect_live emit
          token_ready insert lookup in
        refl)

abbrev evening : LocalDate
evening = record { hours = 19; minutes = 30; week_day = 6 }

apply_town_time-agrees_example :
    apply_town_time evening none none (record { time = some (codes "day"); week = none }) ≡ record {
      time = some (time_text (town_time_at evening));
      week = some (week_text (town_week_at evening));
    }
apply_town_time-agrees_example =
    apply_town_time-agrees evening (record { time = some (codes "day"); week = none })

abbrev kept_token : Saved
kept_token = record { token = codes "t"; has_item = true; checked_at = 5; expires_at = some 90 }

abbrev device : Unlocked
device = record { saved = some kept_token; has_item = true; loaded = true; expires_at = some 90 }

abbrev granted : RedeemAnswer
granted = record {
  status_code = 200;
  is_ok = true;
  token = some (codes "u");
  has_item = true;
  expires_at = some 400;
  error_code = none;
}

unlocked-IsCurrent_example :
    IsCurrent 100 (expire 100 device)
    × IsCurrent 100 (load 100 device)
    × IsCurrent 100 (check_answer 100 kept_token true (some 300) device)
    × IsOutcome 100 device (some granted) (redeem 100 (some granted) device)
unlocked-IsCurrent_example = unlocked-IsCurrent 100 device kept_token true (some 300) (some granted)
