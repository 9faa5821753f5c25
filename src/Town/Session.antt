-- ===== src/Town/Session.antt =====
-- edge/src/town.ts: the helpers that the methods share, the frames, and the ways a conversation or
-- an invitation ends (close, restrict, clearCompanion, require).
use focustown_public.Prelude.{
  ℕ, ◌+◌, ◌-◌, ◌/◌, Bool, true, not, ◌&&◌, ◌||◌, Option, none, some, List, [], ◌∷◌, ◌++◌, ltb,
  if◌then◌else◌, or_default, ◌==◌, find, lookup, insert, Text, Assoc, ℕ_eq,
}
use focustown_public.Guest.{GuestId, companion_id, GuestId_eq}
use focustown_public.Avatars.{avatar_pair}
use focustown_public.Rules.Hours.{is_open}
use focustown_public.Rules.Pairing.{Waiting}
use focustown_public.Rules.Profile.{
  Profile, Result, ok, err, guest_suspended, no_conversation, not_a_participant,
  companion_profile_default, public_profile,
}
use focustown_public.Store.State.{State, Conversation, Line, CompanionInvite}
use focustown_public.Store.Presence.{clear_companion_invite}
use focustown_public.Store.Queue.{dequeue}
use focustown_public.Store.Chats.{close_conversation, get_conversation, conversation_id_of}
use focustown_public.Town.World.{
  World, Deps, Frame, Timing, Side, me, partner, ClearReason, EndReason, cancelled, ended,
  partner_left, suspended_end, companion_cleared, companion_invite, matched, message, waiting,
  Request,
}
use focustown_public.Town.Exec.{
  Exec, on_option, Done, pure, throw, lift, gets, stored, done, modify, store_to, reject, ◌>>=◌,
  ◌>>◌, for_each,
}

abbrev pub jojo_wait_ms : ℕ
jojo_wait_ms = 60000

unfoldable pub partner_of : Conversation → GuestId → Result GuestId
partner_of c guest_id =
    if guest_id == c.guest_a
    then ok c.guest_b
    else if guest_id == c.guest_b
    then ok c.guest_a
    else err not_a_participant

unfoldable pub profile_of : Conversation → GuestId → Profile
profile_of c guest_id = if guest_id == c.guest_a then c.profile_a else c.profile_b

unfoldable pub send : GuestId → Frame → Exec Done
send guest_id frame = modify λ w. record w { sent = w.sent ++ (guest_id, frame) ∷ [] }

unfoldable pub message_frame : Line → GuestId → Frame
message_frame line recipient =
    message line.id (if line.from == recipient then me else partner) line.text line.at

-- `this.current`: the conversation that the guest is in
unfoldable pub current_of : GuestId → State → Option Conversation
unfolding conversation_id_of get_conversation
current_of guest_id s = elim (conversation_id_of guest_id s) [
  | none ↦ none
  | some id ↦ get_conversation id s
]

abbrev pub current : GuestId → Exec (Option Conversation)
current guest_id = gets λ w. current_of guest_id w.store

-- the entry of the queue
unfoldable pub waiting_of : GuestId → State → Option Waiting
waiting_of guest_id s = find (λ w. w.guest_id == guest_id) s.queue

unfoldable pub abort_request : ℕ → Assoc ℕ Request → Assoc ℕ Request
abort_request id requests = elim (lookup id requests) [
  | none ↦ requests
  | some r ↦ insert id (record r { aborted = true }) requests
]

-- `reasons` in the order of its entries
unfoldable pub close : Conversation → List (GuestId × EndReason) → Exec Done
close c reasons = do
  modify (λ w. record w { jojo_requests = abort_request c.id w.jojo_requests })
  store_to (close_conversation c)
  for_each reasons (λ r. send r.0 (ended r.1))

unfoldable pub clear_companion : ClearReason → Exec Done
clear_companion reason = do
  invite ← gets (λ w. w.store.companion_invite)
  on_option invite done (λ i. do
    store_to clear_companion_invite
    for_each (i.guest_id ∷ companion_id ∷ []) (λ g. send g (companion_cleared i.id reason)))

unfoldable pub cancel_companion_for : GuestId → ClearReason → Exec Done
cancel_companion_for guest_id reason = do
  invite ← gets (λ w. w.store.companion_invite)
  on_option invite done (λ i.
      if guest_id == companion_id || i.guest_id == guest_id then clear_companion reason else done)

-- Queue and invitations first, then the chat.
unfoldable pub restrict : GuestId → Exec Done
restrict guest_id = do
  cancel_companion_for guest_id cancelled
  stored (dequeue guest_id)
  c ← current guest_id
  on_option c done (λ c. do
    other ← lift (partner_of c guest_id)
    close c ((guest_id, suspended_end) ∷ (other, partner_left) ∷ []))

module _ (d : Deps) (now : ℕ) where
  unfoldable pub suspended : GuestId → World → Bool
  suspended guest_id w = ltb now (or_default (lookup guest_id w.suspensions) 0)

  unfoldable pub require_allowed : GuestId → Exec Done
  require_allowed guest_id = do barred ← gets (suspended guest_id); reject barred guest_suspended

  -- `this.require`
  unfoldable pub require : GuestId → Exec Conversation
  unfolding require_allowed
  require guest_id = do
    require_allowed guest_id
    c ← current guest_id
    on_option c (throw no_conversation) (λ c. do
      other ← lift (partner_of c guest_id)
      barred ← gets (suspended other)
      if barred then (do restrict other; throw no_conversation) else pure c)

  unfoldable pub open_now : World → Bool
  open_now w = is_open (d.local_minutes now) d.config.open_hours && not w.store.maintenance

  -- `Math.round(graceMs / 1000)`
  unfoldable pub timing : Conversation → Timing
  timing c = record {
    ends_at = c.ends_at;
    grace_seconds = (d.config.grace_ms + 500) / 1000;
    server_now = now;
  }

  unfoldable pub side : Conversation → GuestId → Side
  unfolding profile_of
  side c guest_id =
      let (a, b) = avatar_pair (d.id_text c.id) in
      record {
        profile = public_profile (profile_of c guest_id);
        avatar = if guest_id == c.guest_a then a else b;
      }

  unfoldable pub matched_frame : Conversation → GuestId → GuestId → Frame
  unfolding side timing
  matched_frame c guest_id other = matched c.id (side c guest_id) (side c other) (timing c)

  unfoldable pub send_matched : Conversation → GuestId → Exec Done
  unfolding partner_of matched_frame
  send_matched c guest_id = do
    other ← lift (partner_of c guest_id)
    send guest_id (matched_frame c guest_id other)

  unfoldable pub send_waiting : Waiting → Exec Done
  send_waiting w =
      send w.guest_id (
        waiting w.joined_at (if d.jojo_reply then some (w.joined_at + jojo_wait_ms, now) else none))

  abbrev pub invite_name : CompanionInvite → Text
  invite_name i = (public_profile (or_default i.profile companion_profile_default)).nickname

  unfoldable pub send_companion_invite : CompanionInvite → Exec Done
  send_companion_invite i = send i.guest_id (companion_invite i.id (invite_name i) i.expires_at now)

  -- `now - offlineAfterMs` stops at 0: the same on times that are not negative
  unfoldable pub cutoff : ℕ
  cutoff = now - d.config.offline_after_ms

  -- `seen === null || seen < cutoff`
  unfoldable pub is_gone : Option ℕ → Bool
  unfolding cutoff
  is_gone none = true
  is_gone (some seen) = ltb seen cutoff

  -- `newId()`
  unfoldable pub draw_id : Exec ℕ
  draw_id w = (ok (d.new_id w.drawn), record w { drawn = w.drawn + 1 })
