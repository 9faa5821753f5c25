-- ===== src/Town/Sound/Sweeps.antt =====
-- The invariant under sweep of edge/src/town.ts.
use focustown_public.Prelude.{
  ℕ, ◌+◌, ◌≡◌, refl, sym, Bool, not, ◌&&◌, ◌||◌, Option, none, some, List, [], ◌∷◌, arith,
  if◌then◌else◌, lookup, leb, subst, ℕ_eq,
}
use focustown_public.Guest.{GuestId, GuestId_eq}
use focustown_public.Rules.Pairing.{Waiting}
use focustown_public.Store.State.{State, Conversation}
use focustown_public.Store.Presence.{set_alerted_waiters, set_last_owner_alert}
use focustown_public.Store.Chats.{get_conversation, prune_expired}
use focustown_public.Town.World.{World, Deps, Alert, EndReason, timeout, partner_disconnected}
use focustown_public.Town.Exec.{Exec, Done, gets, done, modify, store_to, ◌>>=◌}
use focustown_public.Town.Session.{close, restrict, suspended}
use focustown_public.Town.Lobby.{is_human}
use focustown_public.Town.Sweep.{
  sweep_invite, why, sweep_absent, sweep_conversation, sweep_id, sweep_waiter, raise_alert,
  tidy_alerts, alert_owner, sweep,
}
use focustown_public.Town.Hoare.{Core, core, Quiet, quiet_rules, Quiet-done, Quiet-gets}
use focustown_public.Town.Sound.{Sound}
use focustown_public.Town.Sound.Waits.{IsCalm, Runs-awaited}
use focustown_public.Town.Sound.Quiet.{quiet, Quiet-modify, Quiet-prune_online}
use focustown_public.Town.Sound.Rules.{
  Runs, Anything, Whatever, Runs-after, Runs-bind, Runs-option, Runs-quiet, Runs-weaken,
  Runs-store_to, Runs-gets, Runs-if, Runs-for_each,
}
use focustown_public.Town.Sound.Store.Ending.{prune_expired-Sound}
use focustown_public.Town.Sound.Ends.{Held, Runs-close, Runs-dequeue, Runs-restrict}
use focustown_public.Town.Sound.Starts.{Runs-pair_waiting}

-- The conversation that was read under an id.
abbrev Read : Option Conversation → Core → Type 0
Read none k = Unit {0}
Read (some c) k = Held c k

held-Read :
    (new_id : ℕ → ℕ) (n : ℕ) (id : ℕ) (s : State) (o : Option Conversation)
    → Sound new_id n (core s)
    → lookup id s.convs ≡ o
    → Read o (core s)
held-Read new_id n id s none v e = tt
held-Read new_id n id s (some c) v e =
    subst (λ i. lookup i s.convs ≡ some c) (sym (v.conv_valid id c e).own_id) e

Quiet-set_last : (now : ℕ) → Quiet (store_to (set_last_owner_alert now))
unfolding store_to set_last_owner_alert
Quiet-set_last now = record { same = λ w. refl; grows = λ w. omega arith }

Quiet-set_alerted : (m : List (GuestId × ℕ)) → Quiet (store_to (set_alerted_waiters m))
unfolding store_to set_alerted_waiters
Quiet-set_alerted m = record { same = λ w. refl; grows = λ w. omega arith }

Quiet-raise : (f : World → List Alert) → Quiet (modify (λ w. record w { alerts = f w }))
Quiet-raise f = Quiet-modify (λ w. record w { alerts = f w }) (λ w. refl) (λ w. refl)

module _ (d : Deps) (now : ℕ) where
  Runs-raise_alert :
      IsCalm d → (w : Waiting) → Runs d.new_id Anything (raise_alert d now w) Whatever
  unfolding raise_alert
  Runs-raise_alert calm w = Runs-after d.new_id _ _ (Quiet-gets _) (λ kept.
      Runs-after d.new_id _ _ (Quiet-set_last now) (λ u.
        Runs-after d.new_id _ _ (Quiet-set_alerted _) (λ u.
          Runs-bind d.new_id (λ u. Anything) _ _
            (Runs-awaited d calm Anything (λ m n k k' v v' c p. tt))
            (λ u. Runs-quiet d.new_id Anything _ (Quiet-raise _)))))

  Quiet-tidy_alerts : Quiet (tidy_alerts d now)
  unfolding tidy_alerts
  Quiet-tidy_alerts = search (quiet_rules, Quiet-set_alerted) depth 12

  Runs-alert_owner : IsCalm d → Runs d.new_id Anything (alert_owner d now) Whatever
  unfolding alert_owner
  Runs-alert_owner calm =
      let tidied = Runs-quiet d.new_id Anything _ Quiet-tidy_alerts in
      Runs-if d.new_id (not d.lonely_alerts) _ _ (λ t. Runs-quiet d.new_id Anything done Quiet-done)
        (λ f. Runs-after d.new_id _ _ (Quiet-gets _) (λ due.
          Runs-after d.new_id _ _ (Quiet-gets _) (λ may.
            Runs-option d.new_id due _ _ (λ e. tidied)
              (λ w e. Runs-if d.new_id may _ _ (λ t. Runs-raise_alert calm w) (λ f. tidied)))))

  Quiet-sweep_invite : Quiet (sweep_invite d now)
  unfolding sweep_invite
  Quiet-sweep_invite = search quiet depth 12

  -- What a sweep may do to a conversation: nothing.
  Held-done : (c : Conversation) → Runs d.new_id (Held c) done Whatever
  Held-done c =
      Runs-weaken d.new_id (λ k p. tt) (λ u k q. q) (Runs-quiet d.new_id Anything done Quiet-done)

  Held-restrict : (c : Conversation) (g : GuestId) → Runs d.new_id (Held c) (restrict g) Whatever
  Held-restrict c g = Runs-weaken d.new_id (λ k p. tt) (λ u k q. q) (Runs-restrict d.new_id g)

  closed_or :
      (c : Conversation) (b : Bool) (reasons : List (GuestId × EndReason)) (m : Exec Done)
      → Runs d.new_id (Held c) m Whatever
      → Runs d.new_id (Held c) (if b then close c reasons else m) Whatever
  closed_or c b reasons m h =
      Runs-if d.new_id b (close c reasons) m (λ t. Runs-close d.new_id c reasons) (λ f. h)

  Runs-sweep_absent : (c : Conversation) → Runs d.new_id (Held c) (sweep_absent d now c) Whatever
  unfolding sweep_absent
  Runs-sweep_absent c = Runs-after d.new_id _ _ (search quiet_rules) (λ a.
      Runs-after d.new_id _ _ (search quiet_rules) (λ b.
        closed_or c (a || b) ((c.guest_a, why d now a) ∷ (c.guest_b, why d now b) ∷ []) done
          (Held-done c)))

  Runs-sweep_conversation :
      (c : Conversation) → Runs d.new_id (Held c) (sweep_conversation d now c) Whatever
  unfolding sweep_conversation
  Runs-sweep_conversation c =
      let late =
        if leb (c.ends_at + d.config.grace_ms) now
        then close c ((c.guest_a, timeout) ∷ (c.guest_b, timeout) ∷ [])
        else sweep_absent d now c in
      closed_or c (not (is_human c.profile_b.role) && not d.jojo_reply)
        ((c.guest_a, partner_disconnected) ∷ [])
        (do
          barred_a ← gets (suspended d now c.guest_a)
          barred_b ← gets (suspended d now c.guest_b)
          if barred_a then restrict c.guest_a else if barred_b then restrict c.guest_b else late)
        (Runs-after d.new_id _ _ (Quiet-gets _) (λ barred_a.
          Runs-after d.new_id _ _ (Quiet-gets _) (λ barred_b.
            Runs-if d.new_id barred_a _ _ (λ t. Held-restrict c c.guest_a)
              (λ f.
                Runs-if d.new_id barred_b _ _ (λ t. Held-restrict c c.guest_b)
                  (λ f.
                    closed_or c (leb (c.ends_at + d.config.grace_ms) now)
                      ((c.guest_a, timeout) ∷ (c.guest_b, timeout) ∷ []) (sweep_absent d now c)
                      (Runs-sweep_absent c))))))

  Runs-sweep_id : (id : ℕ) → Runs d.new_id Anything (sweep_id d now id) Whatever
  unfolding sweep_id get_conversation
  Runs-sweep_id id =
      Runs-bind d.new_id Read _ _
        (Runs-gets d.new_id (λ w. get_conversation id w.store)
          (λ w s p. held-Read d.new_id w.drawn id w.store (lookup id w.store.convs) s refl))
        (λ o.
          Runs-option d.new_id o _ _
            (λ e.
              Runs-weaken d.new_id (λ k p. tt) (λ u k q. q)
                (Runs-quiet d.new_id Anything done Quiet-done))
            (λ c e. rw e (Runs-sweep_conversation c)))

  Runs-sweep_waiter : (w : Waiting) → Runs d.new_id Anything (sweep_waiter d now w) Whatever
  unfolding sweep_waiter
  Runs-sweep_waiter w = Runs-after d.new_id _ _ (search quiet_rules) (λ seen.
      Runs-if d.new_id _ _ _
        (λ t.
          Runs-bind d.new_id Whatever _ _ (Runs-dequeue d.new_id w.guest_id)
            (λ r. Runs-quiet d.new_id Anything done Quiet-done))
        (λ f. Runs-quiet d.new_id Anything done Quiet-done))

  Runs-prune : Runs d.new_id Anything (store_to (prune_expired now)) Whatever
  Runs-prune =
      Runs-store_to d.new_id (prune_expired now)
        (λ s n v p. (prune_expired-Sound d.new_id n now s v, tt))

  pub Runs-sweep :
      ((i j : ℕ) → d.new_id i ≡ d.new_id j → i ≡ j)
      → IsCalm d
      → Runs d.new_id Anything (sweep d now) Whatever
  unfolding sweep
  Runs-sweep injective calm = Runs-after d.new_id _ _ Quiet-sweep_invite (λ u.
      Runs-after d.new_id (gets _) _ (Quiet-gets _) (λ ids.
        Runs-bind d.new_id Whatever _ _ (Runs-for_each d.new_id ids (sweep_id d now) Runs-sweep_id)
          (λ u. Runs-after d.new_id (gets _) _ (Quiet-gets _) (λ queued.
            Runs-bind d.new_id Whatever _ _
              (Runs-for_each d.new_id queued (sweep_waiter d now) Runs-sweep_waiter)
              (λ u. Runs-after d.new_id _ _ (Quiet-prune_online _) (λ u.
                Runs-bind d.new_id Whatever _ _ Runs-prune (λ u.
                  Runs-bind d.new_id Whatever _ _ (Runs-pair_waiting d injective calm now)
                    (λ u. Runs-alert_owner calm))))))))
