-- ===== src/Examples.antt =====
-- Concrete inputs for the theorems: a small town, and what happens in it.
pub mod Client
pub mod Tokens
pub mod Interleaved
use focustown_public.Prelude.{
  ℕ, ◌+◌, ◌<◌, ◌≤◌, ◌≡◌, ◌≢◌, refl, subst, inl, true, false, not, none, some, List, [], ◌∷◌, ◌++◌,
  arith, Text, codes, Json, str, num, bool, obj, field, no_fields, lookup, insert, ℕ_eq, length,
  contains, min, Among, All,
}
use focustown_public.Guest.{GuestId, visitor, GuestId_eq}
use focustown_public.Avatars.{avatar_pair, avatar_count, avatar_pair_distinct}
use focustown_public.Rules.Cleaning.{clean, strip_control, line_feeds}
use focustown_public.Rules.Cleaning.Laws.{
  IsVisible, IsTrimmed, clean_bounds, clean_idem, line_feeds-strip_control,
}
use focustown_public.Rules.Hours.{OpenHours, window, parse_open_hours, is_open}
use focustown_public.Rules.Hours.Laws.{IsWindow, is_open_swap, parse_open_hours-IsWindow}
use focustown_public.Rules.Pairing.{Waiting, compatibility, pick_partner}
use focustown_public.Rules.Pairing.Laws.{Best, pick_partner-Best, compatibility_comm}
use focustown_public.Rules.Profile.{Profile, listen, story, ok, parse_profile}
use focustown_public.Rules.Profile.Laws.{IsAccepted, parse_profile-IsAccepted}
use focustown_public.Store.State.{Line, LimitKey_eq, msg, empty, Conversation}
use focustown_public.Store.Blocks.{
  block_pair, blocked_for, blocked_for-block_pair, blocked_for_comm,
}
use focustown_public.Store.Limits.{hit, limited, admitted, hit-limited, admitted_window}
use focustown_public.Store.Queue.{enqueue, IsQueue, enqueue-IsQueue, dequeue-convs}
use focustown_public.Store.Chats.{
  append_line, transcript, transcript_max_lines, has_pending_work, get_conversation,
  conversation_id_of,
}
use focustown_public.Store.Chats.Laws.{append_line-length}
use focustown_public.Town.World.{Deps, default_config, new_world}
use focustown_public.Town.Sound.Rules.{IsSound}
use focustown_public.Town.Sound.Waits.{IsCalm}
use focustown_public.Town.Sound.Store.Waiting.{dequeue-Sound}
use focustown_public.Server.Dispatch.{join_frame, text_frame}
use focustown_public.Server.Events.{Event, received, alarm, run, AllAdmissible}
use focustown_public.Server.Sound.{run-Sound}
use focustown_public.Server.Reach.{run-one_conversation, run-waiting_alone, run-transcript_owned}
use focustown_public.Server.Alarm.{
  sweep_ms, ensure_alarm, IsDueBy, ensure_alarm-IsDueBy, ensure_alarm-IsDueBy_current,
}
use focustown_public.Server.Sockets.{accept_socket, IsBounded, accept_socket-IsBounded}
use focustown_public.Server.Moderation.{Tables, moderate_report}
use focustown_public.Server.Moderation.Laws.{Reviewed, moderate_report-Reviewed}
use focustown_public.Unlocks.{CodeRow, redeem_row, normalize_code}
use focustown_public.Unlocks.Laws.{IsWithin, IsCode, redeem_row-IsWithin, normalize_code-IsCode}
use focustown_public.Town.Exec.{
  pure, throw, lift, gets, stored, done, modify, store_to, reject, continue, ◌>>=◌, for_each,
  on_option, awaited,
}
use focustown_public.Town.Session.{
  partner_of, profile_of, send, message_frame, current_of, waiting_of, cancel_companion_for,
  suspended, require_allowed, open_now, timing, side, matched_frame, send_matched, send_waiting,
  draw_id, require,
}
use focustown_public.Town.Lobby.{
  is_human, insert_waiting, by_wait, count_started, open_conversation, start_conversation, pair_one,
  pair_loop, restrict_if_suspended, pair_waiting, join,
}
use focustown_public.Server.Dispatch.{
  is_adult, dispatch, answer_error, answered, web_socket_message, is_input_error,
}
use focustown_public.Server.Events.{handle}
use focustown_public.Store.Limits.{live_counter}
use focustown_public.Store.State.{limit_key_beq}
use focustown_public.Guest.{guest_beq, is_jojo}
use focustown_public.Rules.Profile.{preference_of, flatten_lines, public_profile}
use focustown_public.Rules.Cleaning.{is_control, is_space, trim, clean_text}
use focustown_public.Prelude.{text_beq, property, erase}
use focustown_public.Store.Presence.{touch_online}
use focustown_public.Store.Queue.{dequeue}
use focustown_public.Store.Chats.{save_conversation}
use focustown_public.Store.Blocks.{partners}
use focustown_public.Rules.Pairing.{preference_score, eligible, better, consider, pick_from}
use focustown_public.Town.Chat.{relay, say, send_text, send_message}
use focustown_public.Rules.Contacts.{mask_contacts, mask_phone}
use focustown_public.Avatars.{avatar_pair_of}
use focustown_public.Prelude.{◌↔◌, eqb, if◌then◌else◌}
use focustown_public.Settings.{Env, town_config, IsUsable, town_config-IsUsable}
use focustown_public.Stats.{
  Tallies, DailyTrend, negsuc, utc_day, record_conversation, trend_of, list_daily_trends, AreDays,
  list_daily_trends-AreDays, record_conversation-trend,
}
use focustown_public.Store.Presence.{last_seen}
use focustown_public.Town.Session.{is_gone}
use focustown_public.Topics.{
  TopicRow, manual, public_topics, AreDistinct, public_topics-AreDistinct,
}
use focustown_public.Unlocks.Create.{IsModest, parse_create_codes, parse_create_codes-IsModest}

abbrev env : Env
env = record {
  open_hours = some (codes "21:00-24:00");
  session_seconds = some (codes "300");
  token_ttl_hours = none;
  report_retention_days = none;
  feedback_retention_days = none;
}

abbrev tallies : Tallies
tallies = record { conversations = (99, 4) ∷ []; reports = 8640000001 ∷ []; feedback = [] }

abbrev pub deps : Deps
deps = record {
  config = default_config;
  local_minutes = λ t. 0;
  new_id = λ k. k;
  id_text = λ k. k ∷ [];
  re = record { replace = λ p f s. s; declares_minor = λ s. false };
  jojo_reply = true;
  lonely_alerts = true;
  save_report = true;
  meanwhile = λ w. record w { store = (dequeue (visitor 4) w.store).1 };
  rejects = λ w. false;
}

-- While a hook is awaited, the fourth visitor leaves the queue.
deps-IsCalm : IsCalm deps
deps-IsCalm = record {
  sound = λ w s. dequeue-Sound deps.new_id w.drawn w.store s (visitor 4);
  none_started = λ w s id v e.
      (v, subst (λ m. lookup id m ≡ some v) (dequeue-convs (visitor 4) w.store) e, (refl, refl));
}

abbrev raw_profile : Json
raw_profile = obj (
    field (codes "nickname") (str (codes "cat"))
      (field (codes "energy") (num 2) (field (codes "preference") (str (codes "story")) no_fields)))

abbrev pub visits : GuestId → ℕ × Event
visits g = (5, received g (some (join_frame raw_profile (bool true))))

-- Two visitors join and are paired, one says hello, and a third waits.
abbrev day : List (ℕ × Event)
day =
    visits (visitor 1)
    ∷ visits (visitor 2)
    ∷ (20, received (visitor 2) (some (text_frame (str (codes "hello")))))
    ∷ visits (visitor 3)
    ∷ []

all_admissible : AllAdmissible day
all_admissible = (tt, (tt, (tt, (tt, tt))))

-- The same, up to a sweep.
abbrev day_and_sweep : List (ℕ × Event)
day_and_sweep = day ++ (3000, alarm) ∷ []

run-Sound_example : IsSound deps.new_id (run deps day_and_sweep new_world)
run-Sound_example =
    run-Sound deps (λ i j e. e) deps-IsCalm day_and_sweep (tt, (tt, (tt, (tt, (tt, tt)))))

abbrev pub cat : Profile
cat = record { nickname = codes "cat"; energy = 2; preference = story; role = none }

abbrev chat : Conversation
chat = record {
  id = 0;
  guest_a = visitor 1;
  guest_b = visitor 2;
  profile_a = cat;
  profile_b = cat;
  started_at = 5;
  ends_at = 420005;
  extensions = 0;
}

chat_kept : get_conversation 0 (run deps day new_world).store ≡ some chat
unfolding pure throw lift gets stored done modify store_to reject continue ◌>>=◌ for_each on_option
    partner_of profile_of send message_frame current_of waiting_of cancel_companion_for suspended
    require_allowed open_now timing side matched_frame send_matched send_waiting draw_id require
    is_human awaited insert_waiting by_wait count_started open_conversation start_conversation
    pair_one pair_loop restrict_if_suspended pair_waiting join is_adult dispatch answer_error
    answered web_socket_message is_input_error run handle live_counter hit limit_key_beq guest_beq
    is_jojo is_open preference_of flatten_lines parse_profile public_profile is_control is_space
    trim line_feeds clean clean_text text_beq property lookup insert erase touch_online enqueue
    dequeue save_conversation get_conversation conversation_id_of append_line transcript partners
    blocked_for preference_score compatibility eligible better consider pick_from pick_partner relay
    say send_text send_message mask_contacts mask_phone avatar_pair avatar_pair_of
chat_kept = refl

abbrev hello : Line
hello = record { id = 1; from = visitor 2; text = codes "hello"; at = 20 }

hello_kept : lookup 0 (run deps day new_world).store.lines ≡ some (hello ∷ [])
unfolding pure throw lift gets stored done modify store_to reject continue ◌>>=◌ for_each on_option
    partner_of profile_of send message_frame current_of waiting_of cancel_companion_for suspended
    require_allowed open_now timing side matched_frame send_matched send_waiting draw_id require
    is_human awaited insert_waiting by_wait count_started open_conversation start_conversation
    pair_one pair_loop restrict_if_suspended pair_waiting join is_adult dispatch answer_error
    answered web_socket_message is_input_error run handle live_counter hit limit_key_beq guest_beq
    is_jojo is_open preference_of flatten_lines parse_profile public_profile is_control is_space
    trim line_feeds clean clean_text text_beq property lookup insert erase touch_online enqueue
    dequeue save_conversation get_conversation conversation_id_of append_line transcript partners
    blocked_for preference_score compatibility eligible better consider pick_from pick_partner relay
    say send_text send_message mask_contacts mask_phone avatar_pair avatar_pair_of
hello_kept = refl

abbrev third : Waiting
third = record { guest_id = visitor 3; profile = cat; joined_at = 5 }

third_waits : Among third (run deps day new_world).store.queue
unfolding pure throw lift gets stored done modify store_to reject continue ◌>>=◌ for_each on_option
    partner_of profile_of send message_frame current_of waiting_of cancel_companion_for suspended
    require_allowed open_now timing side matched_frame send_matched send_waiting draw_id require
    is_human awaited insert_waiting by_wait count_started open_conversation start_conversation
    pair_one pair_loop restrict_if_suspended pair_waiting join is_adult dispatch answer_error
    answered web_socket_message is_input_error run handle live_counter hit limit_key_beq guest_beq
    is_jojo is_open preference_of flatten_lines parse_profile public_profile is_control is_space
    trim line_feeds clean clean_text text_beq property lookup insert erase touch_online enqueue
    dequeue save_conversation get_conversation conversation_id_of append_line transcript partners
    blocked_for preference_score compatibility eligible better consider pick_from pick_partner relay
    say send_text send_message mask_contacts mask_phone avatar_pair avatar_pair_of
third_waits = inl refl

abbrev first_id : ℕ
first_id = 0

run-one_conversation_example : first_id ≡ first_id
run-one_conversation_example =
    run-one_conversation deps (λ i j e. e) deps-IsCalm day all_admissible (visitor 1) first_id
      first_id chat chat chat_kept chat_kept (inl refl) (inl refl)

run-waiting_alone_example : conversation_id_of (visitor 3) (run deps day new_world).store ≡ none
run-waiting_alone_example =
    run-waiting_alone deps (λ i j e. e) deps-IsCalm day all_admissible third third_waits

run-transcript_owned_example :
    (c : Conversation) × (get_conversation 0 (run deps day new_world).store ≡ some c)
    × (conversation_id_of c.guest_a (run deps day new_world).store ≡ some 0)
    × (conversation_id_of c.guest_b (run deps day new_world).store ≡ some 0)
run-transcript_owned_example =
    run-transcript_owned deps (λ i j e. e) deps-IsCalm day all_admissible 0 (hello ∷ []) hello_kept

abbrev listener : Waiting
listener = record {
  guest_id = visitor 2;
  profile = record cat { preference = listen };
  joined_at = 3;
}

pick_partner-Best_example :
    Best third 10 30000 []
      (λ q. Among q (listener ∷ third ∷ []))
      (pick_partner third 10 30000 [] (listener ∷ third ∷ []))
pick_partner-Best_example = pick_partner-Best third 10 30000 [] (listener ∷ third ∷ [])

abbrev tables : Tables
tables = record {
  reports =
      (4, record { reported_guest_id = visitor 2; created_at = 100; is_actioned = false }) ∷ [];
  suspensions = [];
  actions = [];
}

abbrev review_body : Json
review_body = obj (
    field (codes "action") (str (codes "suspend"))
      (field (codes "reason") (str (codes "spam")) (field (codes "days") (num 7) no_fields)))

moderate_report-Reviewed_example :
    Reviewed 4 200 180 tables (moderate_report 4 review_body 200 180 tables)
moderate_report-Reviewed_example = moderate_report-Reviewed 4 200 180 tables review_body

no_sockets : IsBounded []
no_sockets g = ground arith

accept_socket-IsBounded_example : IsBounded (accept_socket 50000 5000 true (visitor 1) []).1
accept_socket-IsBounded_example = accept_socket-IsBounded 50000 5000 true (visitor 1) [] no_sockets

admitted_window_example :
    admitted (msg (visitor 1)) 2 60000 (5 ∷ 6 ∷ 7 ∷ []) empty
    ≡ min (length {A = ℕ} (5 ∷ 6 ∷ 7 ∷ [])) 2
admitted_window_example =
    admitted_window (msg (visitor 1)) 2 60000 5 (6 ∷ 7 ∷ []) empty (unfold lookup in refl)
      (omega arith, (omega arith, tt))

hit-limited_example :
    (hit (msg (visitor 1)) 2 60000 5 empty).0 ≡ not (limited (msg (visitor 1)) 2 5 empty)
hit-limited_example = hit-limited (msg (visitor 1)) 2 60000 5 empty (omega arith)

abbrev koi : CodeRow
koi = record {
  id = 1;
  code_hash = 77;
  note = [];
  max_devices = 3;
  redemptions = 2;
  is_revoked = false;
  created_at = 0;
  last_redeemed_at = none;
  is_timed = true;
  activated_at = some 10;
  expires_at = some 9000;
}

redeem_row-IsWithin_example : IsWithin (redeem_row (λ t. t + 1000) 50 koi (koi ∷ [])).1
redeem_row-IsWithin_example =
    redeem_row-IsWithin (λ t. t + 1000) 50 koi (koi ∷ []) (omega arith, tt)

normalize_code-IsCode_example : IsCode (normalize_code (λ s. s) (str (codes "ABCD-EFGH-JKLM")))
normalize_code-IsCode_example = normalize_code-IsCode (λ s. s) (str (codes "ABCD-EFGH-JKLM"))

parsed_cat : parse_profile raw_profile ≡ ok cat
unfolding parse_profile preference_of flatten_lines is_control is_space trim line_feeds clean
    clean_text text_beq property
parsed_cat = refl

parse_profile-IsAccepted_example : IsAccepted cat
parse_profile-IsAccepted_example = parse_profile-IsAccepted raw_profile cat parsed_cat

abbrev spaced : Text
spaced = codes " a\n b "

clean_bounds_example :
    (length (clean spaced 3) ≤ 3) × All IsVisible (clean spaced 3) × IsTrimmed (clean spaced 3)
clean_bounds_example = clean_bounds spaced 3

clean_idem_example : clean (clean spaced 3) 3 ≡ clean spaced 3
clean_idem_example = clean_idem spaced 3

line_feeds-strip_control_example : line_feeds (strip_control spaced) ≡ strip_control spaced
line_feeds-strip_control_example = line_feeds-strip_control spaced

abbrev evening : OpenHours
evening = record { start = 1260; end = 0 }

parsed_evening : parse_open_hours (codes "21:00-24:00") ≡ window evening
unfolding parse_open_hours
parsed_evening = refl

parse_open_hours-IsWindow_example : IsWindow evening
parse_open_hours-IsWindow_example =
    parse_open_hours-IsWindow (codes "21:00-24:00") evening parsed_evening

blocked_for-block_pair_example :
    (contains (blocked_for (visitor 1) 5 (block_pair (visitor 1) (visitor 2) 9 empty)) (visitor 2)
      ≡ true)
    × (contains (blocked_for (visitor 2) 5 (block_pair (visitor 1) (visitor 2) 9 empty)) (visitor 1)
        ≡ true)
blocked_for-block_pair_example =
    blocked_for-block_pair (visitor 1) (visitor 2) 9 5 empty (omega arith)

avatar_pair_distinct_example :
    ((avatar_pair (codes "c1")).0 < avatar_count)
    × ((avatar_pair (codes "c1")).1 < avatar_count)
    × ((avatar_pair (codes "c1")).0 ≢ (avatar_pair (codes "c1")).1)
avatar_pair_distinct_example = avatar_pair_distinct (codes "c1")

queue_pending : (has_pending_work (record empty { queue = listener ∷ [] })).0 ≡ true
unfolding has_pending_work
queue_pending = refl

ensure_alarm-IsDueBy_example :
    IsDueBy (100 + sweep_ms) (ensure_alarm 100 (record empty { queue = listener ∷ [] }) none)
ensure_alarm-IsDueBy_example =
    ensure_alarm-IsDueBy 100 (record empty { queue = listener ∷ [] }) none queue_pending

town_config-IsUsable_example : IsUsable (town_config (λ s. some 300) env)
town_config-IsUsable_example = town_config-IsUsable (λ s. some 300) env

list_daily_trends-AreDays_example :
    (rows : List DailyTrend) × (list_daily_trends tallies 8640000000 (negsuc 6) ≡ some rows)
    × (1 ≤ length rows)
    × (length rows ≤ 90)
    × AreDays (utc_day 8640000000) rows
list_daily_trends-AreDays_example =
    list_daily_trends-AreDays tallies 8640000000 (negsuc 6) (omega arith)

record_conversation-trend_example :
    (trend_of (record_conversation 8640000000 tallies) 100).conversations
    ≡ (trend_of tallies 100).conversations + (if eqb (utc_day 8640000000) 100 then 1 else 0)
record_conversation-trend_example = record_conversation-trend tallies 8640000000 100

abbrev topic : TopicRow
topic = record { word = codes "cats"; prompt = none; source = manual; is_hidden = false }

public_topics-AreDistinct_example : AreDistinct (public_topics (topic ∷ topic ∷ []) 20000)
public_topics-AreDistinct_example = public_topics-AreDistinct (topic ∷ topic ∷ []) 20000

abbrev code_form : Json
code_form =
    obj (field (codes "item") (str (codes "koi-pond")) (field (codes "count") (num 5) no_fields))

parse_create_codes-IsModest_example : IsModest (parse_create_codes (λ v. some 5) code_form)
parse_create_codes-IsModest_example = parse_create_codes-IsModest (λ v. some 5) code_form
