-- ===== src/Town/Lobby.antt =====
-- edge/src/town.ts: the connection lifecycle, the waiting room and pairing.
use focustown_public.Prelude.{
  ℕ, ◌+◌, ◌-◌, Bool, true, false, not, ◌&&◌, Option, some, List, [], ◌∷◌, ◌++◌, leb, ltb, is_some,
  if◌then◌else◌, ◌==◌, contains, select, length, Json,
}
use focustown_public.Guest.{GuestId, companion_id, GuestId_eq}
use focustown_public.Rules.Pairing.{Waiting, pick_partner}
use focustown_public.Rules.Profile.{
  Role, ai, parse_profile, admin_cannot_queue, age_required, closed, already_in_conversation,
  guest_suspended,
}
use focustown_public.Store.State.{Conversation}
use focustown_public.Store.Presence.{touch_online, count_online}
use focustown_public.Store.Queue.{enqueue, dequeue}
use focustown_public.Store.Blocks.{blocked_for}
use focustown_public.Store.Chats.{save_conversation, transcript, extend_votes}
use focustown_public.Town.World.{
  World, Deps, me, partner, error, idle, extend_requested, companion_pending, cancelled,
  disconnected, matched_other,
}
use focustown_public.Town.Exec.{
  Exec, on_option, Done, pure, lift, gets, stored, done, modify, store_to, reject, ◌>>=◌, ◌>>◌,
  for_each, awaited,
}
use focustown_public.Town.Session.{
  current, send, message_frame, waiting_of, cancel_companion_for, restrict, suspended,
  require_allowed, open_now, send_matched, send_waiting, send_companion_invite, invite_name,
  draw_id,
}

-- `role !== "ai"`
unfoldable pub is_human : Option Role → Bool
is_human (some ai) = false
is_human _ = true

-- insertion of an entry in front of those that joined no earlier
unfoldable pub insert_waiting : Waiting → List Waiting → List Waiting
insert_waiting w [] = w ∷ []
insert_waiting w (x ∷ xs) =
    if leb w.joined_at x.joined_at then w ∷ x ∷ xs else x ∷ insert_waiting w xs

-- `queue.sort((a, b) => a.joinedAt - b.joinedAt)`, which is stable
unfoldable pub by_wait : List Waiting → List Waiting
unfolding insert_waiting
by_wait [] = []
by_wait (w ∷ ws) = insert_waiting w (by_wait ws)

-- `if (b.profile.role !== "ai") await this.deps.onConversationStarted?.(now)`
unfoldable pub count_started : Deps → ℕ → Waiting → Exec Done
count_started d now b =
    if is_human b.profile.role
    then (do awaited d; modify (λ w. record w { started = w.started ++ now ∷ [] }))
    else done

module _ (d : Deps) (now : ℕ) where
  abbrev pub new_conversation : Waiting → Waiting → ℕ → Conversation
  new_conversation a b id = record {
    id = id;
    guest_a = a.guest_id;
    guest_b = b.guest_id;
    profile_a = a.profile;
    profile_b = b.profile;
    started_at = now;
    ends_at = now + d.config.session_ms;
    extensions = 0;
  }

  unfoldable pub open_conversation : Waiting → Waiting → Exec Conversation
  open_conversation a b = do
    id ← draw_id d now
    store_to (save_conversation (new_conversation a b id))
    pure (new_conversation a b id)

  unfoldable pub start_conversation : Waiting → Waiting → Exec Done
  unfolding open_conversation count_started
  start_conversation a b = do
    cancel_companion_for a.guest_id matched_other
    cancel_companion_for b.guest_id matched_other
    stored (dequeue a.guest_id)
    stored (dequeue b.guest_id)
    c ← open_conversation a b
    count_started d now b
    send_matched d now c a.guest_id
    send_matched d now c b.guest_id

  -- one round of the loop, with `taken` and `made`
  unfoldable pub pair_one : List Waiting → Waiting → List GuestId × ℕ → Exec (List GuestId × ℕ)
  pair_one pool self (taken, made) =
      if contains taken self.guest_id then pure (taken, made) else (do
        blocked ← gets (λ w. blocked_for self.guest_id now w.store)
        let others =
            select (λ w. not (contains taken w.guest_id) && not (w.guest_id == self.guest_id)) pool
        on_option (pick_partner self now d.config.relax_after_ms blocked others)
            (pure (taken, made))
            (λ p. do
              start_conversation self p
              pure (p.guest_id ∷ self.guest_id ∷ taken, made + 1)))

  unfoldable pub pair_loop :
      List Waiting → List Waiting → List GuestId × ℕ → Exec (List GuestId × ℕ)
  pair_loop pool [] acc = pure acc
  pair_loop pool (self ∷ rest) acc = do acc' ← pair_one pool self acc; pair_loop pool rest acc'

  unfoldable pub restrict_if_suspended : Waiting → Exec Done
  restrict_if_suspended w = do
    barred ← gets (suspended d now w.guest_id)
    if barred then restrict w.guest_id else done

  -- the pairs made
  unfoldable pub pair_waiting : Exec ℕ
  unfolding pair_one pair_loop restrict_if_suspended start_conversation by_wait
  pair_waiting = do
    paused ← gets (λ w. w.store.maintenance)
    if paused then pure 0 else (do
      queued ← gets (λ w. w.store.queue)
      for_each queued restrict_if_suspended
      pool ← gets (λ w. by_wait w.store.queue)
      acc ← pair_loop pool pool ([], 0)
      pure acc.1)

  unfoldable pub join : GuestId → Json → Bool → Exec Done
  join guest_id raw_profile adult = do
    reject (guest_id == companion_id) admin_cannot_queue
    require_allowed d now guest_id
    reject (not adult) age_required
    lit ← gets (open_now d now)
    reject (not lit) closed
    profile ← lift (parse_profile raw_profile)
    c ← current guest_id
    reject (is_some c) already_in_conversation
    store_to (touch_online guest_id now)
    let w : Waiting = record { guest_id = guest_id; profile = profile; joined_at = now }
    store_to (enqueue w)
    send_waiting d now w
    pair_waiting
    done

  unfoldable pub cancel : GuestId → Exec Done
  cancel guest_id = do cancel_companion_for guest_id cancelled; stored (dequeue guest_id); done

  unfoldable pub heartbeat : GuestId → Exec Done
  heartbeat guest_id = store_to (touch_online guest_id now)

  unfoldable pub disconnect : GuestId → Exec Done
  disconnect guest_id = do
    cancel_companion_for guest_id disconnected
    stored (dequeue guest_id)
    store_to (touch_online guest_id now)

  -- What a guest in a conversation is sent again.
  unfoldable pub replay_chat : Conversation → GuestId → Exec Done
  replay_chat c guest_id = do
    send_matched d now c guest_id
    lines ← gets (λ w. transcript c.id w.store)
    for_each lines (λ l. send guest_id (message_frame l guest_id))
    votes ← gets (λ w. extend_votes c.id w.store)
    for_each votes (λ v. send guest_id (extend_requested (if v == guest_id then me else partner)))

  -- What a waiting guest is sent again.
  unfoldable pub replay_waiting : Waiting → GuestId → Exec Done
  replay_waiting w guest_id = do
    send_waiting d now w
    invite ← gets (λ w. w.store.companion_invite)
    on_option invite done (λ i.
        if i.guest_id == guest_id && ltb now i.expires_at
        then send_companion_invite d now i
        else done)

  -- A pending invitation, as the companion's console is told of it; otherwise `lbt.idle`.
  unfoldable pub replay_idle : GuestId → Exec Done
  replay_idle guest_id = do
    invite ← gets (λ w. w.store.companion_invite)
    on_option invite (send guest_id idle) (λ i.
        if guest_id == companion_id && ltb now i.expires_at
        then (do
          target ← gets (λ w. waiting_of i.guest_id w.store)
          on_option target (send guest_id idle)
              (λ t. send guest_id (companion_pending i.id t.profile (invite_name d now i))))
        else send guest_id idle)

  unfoldable pub connect : GuestId → Exec Done
  unfolding replay_chat replay_waiting replay_idle
  connect guest_id = do
    store_to (touch_online guest_id now)
    barred ← gets (suspended d now guest_id)
    if barred then (do restrict guest_id; send guest_id (error guest_suspended)) else (do
      c ← current guest_id
      entry ← gets (λ w. waiting_of guest_id w.store)
      on_option c (on_option entry (replay_idle guest_id) (λ w. replay_waiting w guest_id))
          (λ c. replay_chat c guest_id))

  -- `status()`: online, waiting, open
  unfoldable pub status : World → ℕ × ℕ × Bool
  status w = (
    count_online (now - d.config.offline_after_ms) w.store,
    length w.store.queue,
    open_now d now w,
  )
