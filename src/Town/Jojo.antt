-- ===== src/Town/Jojo.antt =====
-- edge/src/town.ts: the AI resident. Inference is awaited, and other events run meanwhile: a method
-- that awaits it is split, and `finish_reply` is the part behind the await.
use focustown_public.Prelude.{
  ℕ, ◌+◌, Bool, false, not, ◌||◌, Option, none, some, [], ◌∷◌, leb, is_some, if◌then◌else◌, ◌==◌,
  contains, select, lookup, erase, Json, Text, codes, ℕ_eq,
}
use focustown_public.Prelude.{bool}
use focustown_public.Guest.{GuestId, companion_id, jojo_id, is_jojo, GuestId_eq}
use focustown_public.Rules.Cleaning.{clean}
use focustown_public.Rules.Contacts.{mask_contacts}
use focustown_public.Rules.Pairing.{Waiting}
use focustown_public.Rules.Profile.{
  jojo_profile, jojo_unavailable, jojo_consent_required, not_waiting, jojo_busy, closed,
  jojo_too_early, slow_down,
}
use focustown_public.Store.State.{Conversation, Line, jojo_start}
use focustown_public.Store.Presence.{last_seen}
use focustown_public.Store.Blocks.{blocked_for}
use focustown_public.Store.Limits.{hit}
use focustown_public.Store.Chats.{get_conversation, append_line}
use focustown_public.Town.World.{Deps, Request, error}
use focustown_public.Town.Exec.{
  Exec, finally, on_option, Done, throw, gets, stored, done, modify, store_to, reject, ◌>>=◌, ◌>>◌,
}
use focustown_public.Town.Session.{
  current, send, message_frame, waiting_of, require_allowed, open_now, is_gone, draw_id,
  jojo_wait_ms,
}
use focustown_public.Town.Lobby.{start_conversation, pair_waiting, connect, is_human}

abbrev pub greeting : Text
greeting = codes "我是「你家貓咪會後空翻嗎」，小鎮的 AI 居民。想隨便聊，還是讓我逗你一下？"

module _ (d : Deps) (now : ℕ) where
  unfoldable pub deliver_text : Conversation → Text → Exec Done
  deliver_text c [] = done
  deliver_text c (x ∷ xs) = do
    id ← draw_id d now
    let line : Line = record { id = id; from = c.guest_b; text = x ∷ xs; at = now }
    store_to (append_line c.id line)
    send c.guest_a (message_frame line c.guest_a)

  -- A leave, report or timeout may have ended the chat while inference was awaited.
  unfoldable pub deliver_jojo : Conversation → Text → Exec Done
  unfolding deliver_text
  deliver_jojo c raw = do
    live ← gets (λ w. get_conversation c.id w.store)
    on_option live done (λ l.
        if is_human l.profile_b.role || leb l.ends_at now
        then done
        else deliver_text c (mask_contacts d.re (clean raw 80)))

  -- Behind the await in sendMessage, and its `catch` and `finally`: `none` is a rejected promise,
  -- and an aborted request rejects.
  unfoldable pub finish_request : ℕ → Option Text → Request → Exec Done
  unfolding deliver_jojo
  finish_request id reply r =
      finally
        (on_option (if r.aborted then none else reply)
          (do
            live ← gets (λ w. get_conversation id w.store)
            if is_some live then send r.asker (error jojo_unavailable) else done)
          (λ raw. deliver_jojo r.conversation raw))
        (λ w. record w { jojo_requests = erase id w.jojo_requests })

  unfoldable pub finish_reply : ℕ → Option Text → Exec Done
  unfolding finish_request
  finish_reply id reply = do
    request ← gets (λ w. lookup id w.jojo_requests)
    on_option request done (λ r. finish_request id reply r)

  unfoldable pub greet : Option Conversation → Exec Done
  greet none = done
  greet (some c) = if is_human c.profile_b.role then done else deliver_jojo c greeting

  -- The checks on a visitor who is still waiting, and the start.
  unfoldable pub start_with : GuestId → Waiting → Exec Done
  unfolding greet deliver_jojo
  start_with guest_id w = do
    seen ← gets (λ w. last_seen guest_id w.store)
    reject (is_gone d now seen) not_waiting
    reject (not (leb (w.joined_at + jojo_wait_ms) now)) jojo_too_early
    blocked ← gets (λ w. blocked_for guest_id now w.store)
    reject (contains blocked (jojo_id guest_id)) jojo_unavailable
    within ← stored (hit (jojo_start guest_id) 4 3600000 now)
    reject (not within) slow_down
    start_conversation d now w
        (record { guest_id = jojo_id guest_id; profile = jojo_profile; joined_at = now })
    c ← current guest_id
    greet c

  -- The body of the `try` in startJojo.
  unfoldable pub start_inner : GuestId → Exec Done
  unfolding start_with
  start_inner guest_id = do
    lit ← gets (open_now d now)
    reject (not lit) closed
    before ← current guest_id
    if is_some before then connect d now guest_id else (do
      pair_waiting d now
      after ← current guest_id
      if is_some after then done else (do
        entry ← gets (λ w. waiting_of guest_id w.store)
        on_option entry (throw not_waiting) (λ w. start_with guest_id w)))

  -- `consent !== true`
  unfoldable pub is_true : Json → Bool
  is_true (bool b) = b
  is_true _ = false

  unfoldable pub start_jojo : GuestId → Json → Exec Done
  unfolding start_inner is_true
  start_jojo guest_id consent = do
    require_allowed d now guest_id
    reject (not d.jojo_reply) jojo_unavailable
    reject (not (is_true consent)) jojo_consent_required
    reject (guest_id == companion_id || is_jojo guest_id) not_waiting
    starting ← gets (λ w. contains w.jojo_starts guest_id)
    reject starting jojo_busy
    modify (λ w. record w { jojo_starts = guest_id ∷ w.jojo_starts })
    finally (start_inner guest_id)
        (λ w. record w { jojo_starts = select (λ g. not (g == guest_id)) w.jojo_starts })
