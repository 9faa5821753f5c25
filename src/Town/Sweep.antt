-- ===== src/Town/Sweep.antt =====
-- edge/src/town.ts, periodic work: sweep and alertOwner.
use focustown_public.Prelude.{
  ℕ, ◌+◌, ◌-◌, ◌*◌, Bool, true, false, not, ◌&&◌, ◌||◌, Option, none, some, List, [], ◌∷◌, ◌++◌,
  leb, eqb, is_some, if◌then◌else◌, or_default, ◌==◌, any, find, length, lookup, insert,
  keep_entries,
}
use focustown_public.Guest.{GuestId, companion_id, is_jojo, GuestId_eq}
use focustown_public.Rules.Pairing.{Waiting}
use focustown_public.Store.State.{State, Conversation}
use focustown_public.Store.Presence.{
  last_seen, prune_online, set_alerted_waiters, set_last_owner_alert,
}
use focustown_public.Store.Queue.{dequeue}
use focustown_public.Store.Chats.{get_conversation, prune_expired}
use focustown_public.Town.World.{
  World, Deps, EndReason, expired, left, timeout, partner_disconnected,
}
use focustown_public.Town.Exec.{
  Exec, on_option, Done, gets, stored, done, modify, store_to, ◌>>=◌, ◌>>◌, for_each, awaited,
}
use focustown_public.Town.Session.{close, clear_companion, restrict, suspended, is_gone, cutoff}
use focustown_public.Town.Lobby.{pair_waiting, is_human}

module _ (d : Deps) (now : ℕ) where
  unfoldable pub sweep_invite : Exec Done
  sweep_invite = do
    invite ← gets (λ w. w.store.companion_invite)
    on_option invite done (λ i. do
      seen ← gets (λ w. last_seen companion_id w.store)
      target_seen ← gets (λ w. last_seen i.guest_id w.store)
      if leb i.expires_at now || is_gone d now seen || is_gone d now target_seen
          then clear_companion expired
          else done)

  -- `gone.includes(g)`: the AI is never gone
  unfoldable pub absent : GuestId → World → Bool
  absent g w = not (is_jojo g) && is_gone d now (last_seen g w.store)

  unfoldable pub why : Bool → EndReason
  why true = left
  why false = partner_disconnected

  -- a conversation that has no reason of its own to end: is somebody gone?
  unfoldable pub sweep_absent : Conversation → Exec Done
  unfolding absent why
  sweep_absent c = do
    a ← gets (absent c.guest_a)
    b ← gets (absent c.guest_b)
    if a || b then close c ((c.guest_a, why a) ∷ (c.guest_b, why b) ∷ []) else done

  unfoldable pub sweep_conversation : Conversation → Exec Done
  unfolding sweep_absent
  sweep_conversation c =
      if not (is_human c.profile_b.role) && not d.jojo_reply
      then close c ((c.guest_a, partner_disconnected) ∷ [])
      else (do
        barred_a ← gets (suspended d now c.guest_a)
        barred_b ← gets (suspended d now c.guest_b)
        if barred_a
            then restrict c.guest_a
            else if barred_b
            then restrict c.guest_b
            else if leb (c.ends_at + d.config.grace_ms) now
            then close c ((c.guest_a, timeout) ∷ (c.guest_b, timeout) ∷ [])
            else sweep_absent c)

  unfoldable pub sweep_id : ℕ → Exec Done
  unfolding sweep_conversation
  sweep_id id = do
    c ← gets (λ w. get_conversation id w.store)
    on_option c done (λ c. sweep_conversation c)

  unfoldable pub sweep_waiter : Waiting → Exec Done
  sweep_waiter w = do
    seen ← gets (λ v. last_seen w.guest_id v.store)
    if is_gone d now seen then (do stored (dequeue w.guest_id); done) else done

  -- the waiters already told of who still wait
  unfoldable pub kept_alerts : State → List (GuestId × ℕ)
  kept_alerts s = keep_entries (λ g at. any (λ w. w.guest_id == g) s.queue) s.alerted_waiters

  unfoldable pub due_waiter : State → Option Waiting
  unfolding kept_alerts
  due_waiter s =
      find
        (λ w.
          not (is_some (lookup w.guest_id (kept_alerts s)))
          && leb (w.joined_at + d.config.alert_after_ms) now)
        s.queue

  -- the companion console is not on duty, and the last alert is long enough ago
  unfoldable pub may_alert : State → Bool
  unfolding cutoff
  may_alert s =
      not (leb (cutoff d now) (or_default (last_seen companion_id s) 0))
      && elim s.last_owner_alert [
        | none ↦ true
        | some last ↦ leb (last + d.config.alert_gap_ms) now
      ]

  unfoldable pub raise_alert : Waiting → Exec Done
  raise_alert w = do
    kept ← gets (λ v. kept_alerts v.store)
    store_to (set_last_owner_alert now)
    store_to (set_alerted_waiters (insert w.guest_id now kept))
    awaited d
    modify (λ v. record v {
      alerts =
          v.alerts
          ++ record {
            energy = w.profile.energy;
            preference = w.profile.preference;
            waited_ms = now - w.joined_at;
          }
            ∷ [];
    })

  unfoldable pub tidy_alerts : Exec Done
  tidy_alerts = do
    kept ← gets (λ v. kept_alerts v.store)
    all ← gets (λ v. v.store.alerted_waiters)
    if eqb (length kept) (length all) then done else store_to (set_alerted_waiters kept)

  unfoldable pub alert_owner : Exec Done
  unfolding due_waiter may_alert raise_alert tidy_alerts
  alert_owner = if not d.lonely_alerts then done else (do
    due ← gets (λ v. due_waiter v.store)
    may ← gets (λ v. may_alert v.store)
    on_option due tidy_alerts (λ w. if may then raise_alert w else tidy_alerts))

  unfoldable pub sweep : Exec Done
  unfolding sweep_invite sweep_id sweep_waiter alert_owner
  sweep = do
    sweep_invite
    ids ← gets (λ w. w.store.active)
    for_each ids sweep_id
    queued ← gets (λ w. w.store.queue)
    for_each queued sweep_waiter
    store_to (prune_online (now - d.config.offline_after_ms * 2))
    store_to (prune_expired now)
    pair_waiting d now
    alert_owner
