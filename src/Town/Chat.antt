-- ===== src/Town/Chat.antt =====
-- edge/src/town.ts, inside a conversation: sendMessage (up to the await of the AI's reply, which
-- `Jojo.finish_reply` continues), typing, extend, leave and report.
use focustown_public.Prelude.{
  ℕ, ◌+◌, ◌/◌, false, not, ◌||◌, Option, none, some, [], ◌∷◌, ◌++◌, map, max, leb, is_some,
  if◌then◌else◌, ◌==◌, lookup, insert, erase, Json, Text, ℕ_eq,
}
use focustown_public.Guest.{GuestId, is_jojo, GuestId_eq}
use focustown_public.Rules.Cleaning.{clean_text, message_max, report_note_max}
use focustown_public.Rules.Contacts.{mask_contacts}
use focustown_public.Rules.Profile.{
  empty_message, time_up, too_late, age_required, jojo_busy, jojo_unavailable, invalid_reason,
  no_conversation, report_storage_not_wired,
}
use focustown_public.Store.State.{Conversation, Line, jojo_minute, jojo_hour, jojo_day}
use focustown_public.Store.Queue.{dequeue}
use focustown_public.Store.Blocks.{block_pair}
use focustown_public.Store.Limits.{hit}
use focustown_public.Store.Chats.{
  save_conversation, conversation_id_of, add_extend_vote, transcript, append_line,
}
use focustown_public.Town.World.{
  World, Deps, ReportReason, ReportRecord, me, partner, error, typing, extended, extend_requested,
  cancelled, left, partner_left, reported,
}
use focustown_public.Town.Exec.{
  Exec, on_throw, on_option, Done, pure, throw, lift, gets, stored, done, modify, store_to, reject,
  ◌>>=◌, ◌>>◌, awaited,
}
use focustown_public.Town.Session.{
  current, partner_of, profile_of, send, message_frame, close, cancel_companion_for,
  require_allowed, require, timing, draw_id,
}

module _ (d : Deps) (now : ℕ) where
  -- the line itself, to both sides
  unfoldable pub relay : Conversation → GuestId → GuestId → Text → Exec Done
  relay c guest_id other text = do
    id ← draw_id d now
    let line : Line = record { id = id; from = guest_id; text = text; at = now }
    store_to (append_line c.id line)
    send guest_id (message_frame line guest_id)
    send other (message_frame line other)

  -- the three counters of the AI, each asked only if those before it allow
  unfoldable pub jojo_quota : GuestId → Exec Done
  jojo_quota guest_id = do
    minute ← stored (hit (jojo_minute guest_id) 12 60000 now)
    reject (not minute) jojo_unavailable
    hour ← stored (hit (jojo_hour guest_id) 60 3600000 now)
    reject (not hour) jojo_unavailable
    day ← stored (hit (jojo_day (now / 86400000)) 1000 86400000 now)
    reject (not day) jojo_unavailable

  unfoldable pub forget_request : ℕ → World → World
  forget_request id w = record w { jojo_requests = erase id w.jojo_requests }

  -- The `try` of sendMessage with an AI partner: a throw before the await removes the request.
  unfoldable pub relay_to_jojo : Conversation → GuestId → GuestId → Text → Exec Done
  unfolding jojo_quota forget_request relay
  relay_to_jojo c guest_id other text = do
    modify (λ w. record w {
      jojo_requests =
          insert c.id (record { conversation = c; asker = guest_id; aborted = false })
            w.jojo_requests;
    })
    on_throw (if d.jojo_reply then jojo_quota guest_id else throw jojo_unavailable)
        (forget_request c.id)
    relay c guest_id other text
    send guest_id typing

  unfoldable pub say : Conversation → GuestId → GuestId → Text → Exec Done
  unfolding relay relay_to_jojo
  say c guest_id other text = do
    busy ← gets (λ w. is_some (lookup c.id w.jojo_requests))
    if is_jojo other
        then (if d.re.declares_minor text
            then (do send guest_id (error age_required); close c ((guest_id, left) ∷ []))
            else (do reject busy jojo_busy; relay_to_jojo c guest_id other text))
        else relay c guest_id other text

  unfoldable pub send_text : GuestId → Text → Exec Done
  unfolding say
  send_text guest_id [] = throw empty_message
  send_text guest_id (x ∷ xs) = do
    c ← require d now guest_id
    reject (leb c.ends_at now) time_up
    other ← lift (partner_of c guest_id)
    say c guest_id other (x ∷ xs)

  unfoldable pub send_message : GuestId → Json → Exec Done
  unfolding send_text
  send_message guest_id raw = send_text guest_id (mask_contacts d.re (clean_text raw message_max))

  unfoldable pub type_to_partner : GuestId → Exec Done
  type_to_partner guest_id = do
    require_allowed d now guest_id
    c ← current guest_id
    on_option c done (λ c. do other ← lift (partner_of c guest_id); send other typing)

  -- Agreeing during the grace period still yields a full window.
  unfoldable pub extended_conversation : Conversation → Conversation
  extended_conversation c = record c {
    ends_at = max now c.ends_at + d.config.session_ms;
    extensions = c.extensions + 1;
  }

  unfoldable pub extend : GuestId → Exec Done
  unfolding extended_conversation
  extend guest_id = do
    c ← require d now guest_id
    reject (leb (c.ends_at + d.config.grace_ms) now) too_late
    other ← lift (partner_of c guest_id)
    if is_jojo other then (do stored (add_extend_vote c other); done) else done
    complete ← stored (add_extend_vote c guest_id)
    if complete
        then (do
          store_to (save_conversation (extended_conversation c))
          send guest_id (extended (timing d now (extended_conversation c)))
          send other (extended (timing d now (extended_conversation c))))
        else (do send guest_id (extend_requested me); send other (extend_requested partner))

  unfoldable pub leave : GuestId → Exec Done
  leave guest_id = do
    cancel_companion_for guest_id cancelled
    stored (dequeue guest_id)
    c ← current guest_id
    on_option c done (λ c. do
      other ← lift (partner_of c guest_id)
      close c ((guest_id, left) ∷ (other, partner_left) ∷ []))

  unfoldable pub note_of : Text → Option Text
  note_of [] = none
  note_of (x ∷ xs) = some (x ∷ xs)

  unfoldable pub report_record :
      Conversation → GuestId → GuestId → ReportReason → Json → ℕ → World → ReportRecord
  unfolding note_of
  report_record c guest_id other reason note id w = record {
    id = id;
    conversation_id = c.id;
    reporter_guest_id = guest_id;
    reported_guest_id = other;
    reason = reason;
    note = note_of (clean_text note report_note_max);
    transcript =
        map (λ l. record { by_reporter = l.from == guest_id; text = l.text; at = l.at })
          (transcript c.id w.store);
    reporter_profile = profile_of c guest_id;
    reported_profile = profile_of c other;
    created_at = now;
  }

  -- Behind the await of saveReport: the chat may have ended meanwhile.
  unfoldable pub finish_report : Conversation → GuestId → GuestId → Exec Done
  finish_report c guest_id other = do
    store_to (block_pair guest_id other (now + d.config.block_ms))
    id ← gets (λ w. conversation_id_of guest_id w.store)
    on_option id done (λ i.
        if i == c.id then close c ((guest_id, reported) ∷ (other, partner_left) ∷ []) else done)

  -- `reason` is none where the client sent none of REPORT_REASONS
  unfoldable pub report : GuestId → Option ReportReason → Json → Exec ℕ
  unfolding report_record finish_report
  report guest_id none note = throw invalid_reason
  report guest_id (some reason) note = do
    reject (not d.save_report) report_storage_not_wired
    c ← current guest_id
    on_option c (throw no_conversation) (λ c.
        if c.guest_a == guest_id || c.guest_b == guest_id
        then (do
          other ← lift (partner_of c guest_id)
          id ← draw_id d now
          evidence ← gets (report_record c guest_id other reason note id)
          awaited d
          modify (λ w. record w { reports = w.reports ++ evidence ∷ [] })
          finish_report c guest_id other
          pure id)
        else throw no_conversation)
