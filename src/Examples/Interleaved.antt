-- ===== src/Examples/Interleaved.antt =====
-- An await that is not calm: while the first pair of a reopened town is counted, a visitor joins,
-- and the two who are left are paired twice (edge/src/town.ts, lines 302 and 338).
use focustown_public.Prelude.{ℕ, ◌≡◌, refl, true, false, List, [], ◌∷◌, lookup, insert, ℕ_eq}
use focustown_public.Guest.{GuestId, visitor, GuestId_eq}
use focustown_public.Avatars.{avatar_pair}
use focustown_public.Rules.Cleaning.{clean, line_feeds}
use focustown_public.Rules.Hours.{is_open}
use focustown_public.Rules.Pairing.{compatibility, pick_partner}
use focustown_public.Rules.Profile.{parse_profile}
use focustown_public.Store.State.{LimitKey_eq}
use focustown_public.Store.Blocks.{blocked_for}
use focustown_public.Store.Limits.{hit}
use focustown_public.Store.Queue.{enqueue}
use focustown_public.Store.Chats.{append_line, transcript, get_conversation, conversation_id_of}
use focustown_public.Town.World.{Deps, new_world, World}
use focustown_public.Server.Events.{Event, run}
use focustown_public.Town.Exec.{
  pure, throw, lift, gets, stored, done, modify, store_to, reject, continue, ◌>>=◌, for_each,
  on_option, awaited,
}
use focustown_public.Town.Session.{
  partner_of, profile_of, send, message_frame, current_of, waiting_of, cancel_companion_for,
  suspended, require_allowed, open_now, timing, side, matched_frame, send_matched, send_waiting,
  draw_id, require,
}
use focustown_public.Town.Lobby.{
  is_human, insert_waiting, by_wait, count_started, open_conversation, start_conversation, pair_one,
  pair_loop, restrict_if_suspended, pair_waiting, join,
}
use focustown_public.Server.Dispatch.{
  is_adult, dispatch, answer_error, answered, web_socket_message, is_input_error,
}
use focustown_public.Server.Events.{handle}
use focustown_public.Store.Limits.{live_counter}
use focustown_public.Store.State.{limit_key_beq}
use focustown_public.Guest.{guest_beq, is_jojo}
use focustown_public.Rules.Profile.{preference_of, flatten_lines, public_profile}
use focustown_public.Rules.Cleaning.{is_control, is_space, trim, clean_text}
use focustown_public.Prelude.{text_beq, property, erase}
use focustown_public.Store.Presence.{touch_online}
use focustown_public.Store.Queue.{dequeue}
use focustown_public.Store.Chats.{save_conversation}
use focustown_public.Store.Blocks.{partners}
use focustown_public.Rules.Pairing.{preference_score, eligible, better, consider, pick_from}
use focustown_public.Town.Chat.{relay, say, send_text, send_message}
use focustown_public.Rules.Contacts.{mask_contacts, mask_phone}
use focustown_public.Avatars.{avatar_pair_of}
use focustown_public.Prelude.{map}
use focustown_public.Server.Events.{maintenance_call}
use focustown_public.Server.Dispatch.{switch_maintenance}
use focustown_public.Store.Presence.{set_maintenance}
use focustown_public.Examples.{deps, visits, GuestId, Waiting, cat, empty}

abbrev busy : Deps
busy = record deps { meanwhile = run deps (visits (visitor 5) ∷ []) }

abbrev waiter : ℕ → Waiting
waiter n = record { guest_id = visitor n; profile = cat; joined_at = 5 }

-- Four visitors have waited through a pause.
abbrev paused_world : World
paused_world = record new_world {
  store = record empty {
    queue = waiter 1 ∷ waiter 2 ∷ waiter 3 ∷ waiter 6 ∷ [];
    maintenance = true;
  };
}

abbrev reopening : List (ℕ × Event)
reopening = (9, maintenance_call false) ∷ []

-- The third and the sixth visitor are in two conversations that are kept.
paired_twice :
    map {B = ℕ × GuestId × GuestId}
      (λ e. (e.0, e.1.guest_a, e.1.guest_b))
      (run busy reopening paused_world).store.convs
    ≡ (0, visitor 1, visitor 2) ∷ (1, visitor 3, visitor 6) ∷ (2, visitor 3, visitor 6) ∷ []
unfolding pure throw lift gets stored done modify store_to reject continue ◌>>=◌ for_each on_option
    partner_of profile_of send message_frame current_of waiting_of cancel_companion_for suspended
    require_allowed open_now timing side matched_frame send_matched send_waiting draw_id require
    is_human awaited insert_waiting by_wait count_started open_conversation start_conversation
    pair_one pair_loop restrict_if_suspended pair_waiting join is_adult dispatch answer_error
    answered web_socket_message is_input_error run handle live_counter hit limit_key_beq guest_beq
    is_jojo is_open preference_of flatten_lines parse_profile public_profile is_control is_space
    trim line_feeds clean clean_text text_beq property lookup insert erase touch_online enqueue
    dequeue save_conversation get_conversation conversation_id_of append_line transcript partners
    blocked_for preference_score compatibility eligible better consider pick_from pick_partner relay
    say send_text send_message mask_contacts mask_phone avatar_pair avatar_pair_of
    switch_maintenance set_maintenance
paired_twice = refl
