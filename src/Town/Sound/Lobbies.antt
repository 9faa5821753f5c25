-- ===== src/Town/Sound/Lobbies.antt =====
-- The invariant under connect, cancel, disconnect, heartbeat, join and inviteCompanion of
-- edge/src/town.ts.
use focustown_public.Prelude.{
  ℕ, ◌≡◌, refl, subst, Bool, false, Option, none, some, is_some, lookup, Json,
}
use focustown_public.Guest.{GuestId, GuestId_eq}
use focustown_public.Rules.Pairing.{Waiting}
use focustown_public.Rules.Profile.{Profile, already_in_conversation}
use focustown_public.Store.State.{Conversation, CompanionInvite}
use focustown_public.Store.Queue.{enqueue}
use focustown_public.Town.World.{Deps, cancelled, disconnected}
use focustown_public.Town.Exec.{store_to, done, ◌>>◌}
use focustown_public.Town.Session.{send_waiting}
use focustown_public.Town.Lobby.{
  pair_waiting, join, cancel, heartbeat, disconnect, replay_chat, replay_waiting, replay_idle,
  connect,
}
use focustown_public.Town.Companion.{end_pending, offer, invite_companion}
use focustown_public.Town.Hoare.{Core, Quiet, quiet_rules, Quiet-done}
use focustown_public.Town.Sound.{IsVisitor}
use focustown_public.Town.Sound.Waits.{IsCalm}
use focustown_public.Town.Sound.Quiet.{
  quiet, Quiet-touch_online, Quiet-cancel_companion_for, Quiet-send_waiting,
}
use focustown_public.Town.Sound.Rules.{
  Runs, Anything, Whatever, Runs-after, Runs-bind, Runs-quiet, Runs-weaken, Runs-store_to, Runs-if,
  Runs-reject,
}
use focustown_public.Town.Sound.Store.Waiting.{enqueue-Sound}
use focustown_public.Town.Sound.Ends.{Finds, Runs-current, Runs-dequeue, Runs-restrict}
use focustown_public.Town.Sound.Starts.{Runs-pair_waiting}

module _ (d : Deps) (now : ℕ) where
  Quiet-replay_chat : (c : Conversation) (g : GuestId) → Quiet (replay_chat d now c g)
  unfolding replay_chat
  Quiet-replay_chat c g = search quiet depth 12

  Quiet-replay_waiting : (w : Waiting) (g : GuestId) → Quiet (replay_waiting d now w g)
  unfolding replay_waiting
  Quiet-replay_waiting w g = search quiet depth 12

  Quiet-replay_idle : (g : GuestId) → Quiet (replay_idle d now g)
  unfolding replay_idle
  Quiet-replay_idle g = search quiet depth 12

  pub Runs-connect : (g : GuestId) → Runs d.new_id Anything (connect d now g) Whatever
  unfolding connect
  Runs-connect g = Runs-after d.new_id _ _ (Quiet-touch_online g now) (λ u.
      Runs-after d.new_id _ _ (search quiet_rules) (λ barred.
        Runs-if d.new_id barred _ _
          (λ t.
            Runs-bind d.new_id Whatever _ _ (Runs-restrict d.new_id g)
              (λ u. Runs-quiet d.new_id Anything _ (search quiet)))
          (λ f.
            Runs-quiet d.new_id Anything _
              (search (quiet_rules, Quiet-replay_chat, Quiet-replay_waiting, Quiet-replay_idle)))))

  pub Runs-cancel : (g : GuestId) → Runs d.new_id Anything (cancel d now g) Whatever
  unfolding cancel
  Runs-cancel g = Runs-after d.new_id _ _ (Quiet-cancel_companion_for g cancelled) (λ u.
      Runs-bind d.new_id Whatever _ _ (Runs-dequeue d.new_id g)
        (λ u. Runs-quiet d.new_id Anything _ (search quiet_rules)))

  pub Runs-disconnect : (g : GuestId) → Runs d.new_id Anything (disconnect d now g) Whatever
  unfolding disconnect
  Runs-disconnect g = Runs-after d.new_id _ _ (Quiet-cancel_companion_for g disconnected) (λ u.
      Runs-bind d.new_id Whatever _ _ (Runs-dequeue d.new_id g)
        (λ u. Runs-quiet d.new_id Anything _ (Quiet-touch_online g now)))

  pub Runs-heartbeat : (g : GuestId) → Runs d.new_id Anything (heartbeat d now g) Whatever
  unfolding heartbeat
  Runs-heartbeat g = Runs-quiet d.new_id Anything _ (Quiet-touch_online g now)

  Quiet-end_pending : (o : Option CompanionInvite) → Quiet (end_pending d now o)
  unfolding end_pending
  Quiet-end_pending none = search quiet
  Quiet-end_pending (some i) = search quiet

  Quiet-offer : (p : Profile) (w : Waiting) → Quiet (offer d now p w)
  unfolding offer
  Quiet-offer p w = search quiet depth 12

  pub Quiet-invite_companion :
      (target : Option GuestId) (identity : Json) → Quiet (invite_companion d now target identity)
  unfolding invite_companion
  Quiet-invite_companion target identity = search (quiet, Quiet-end_pending, Quiet-offer) depth 20

none-of-is_some : {A : Type 0} (o : Option A) → is_some o ≡ false → o ≡ none
none-of-is_some none h = refl
none-of-is_some (some a) h = cc

-- Past the test, the guest is in no conversation.
pub unless_talking :
    (g : GuestId) (o : Option Conversation) (k : Core)
    → Finds g o k
    → is_some o ≡ false
    → lookup g k.current ≡ none
unless_talking g o k h e = subst (λ o. Finds g o k) (none-of-is_some o e) h

module _ (d : Deps) (injective : (i j : ℕ) → d.new_id i ≡ d.new_id j → i ≡ j) (calm : IsCalm d)
    (now : ℕ) where
  Runs-enter :
      (w : Waiting)
      → IsVisitor w.guest_id
      → Runs d.new_id
          (λ k. lookup w.guest_id k.current ≡ none)
          (do store_to (enqueue w); send_waiting d now w; pair_waiting d now; done)
          Whatever
  Runs-enter w visits =
      Runs-bind d.new_id Whatever (store_to (enqueue w)) _
        (Runs-store_to d.new_id (enqueue w)
          (λ s n v free. (enqueue-Sound d.new_id n s v w free visits, tt)))
        (λ u. Runs-after d.new_id _ _ (Quiet-send_waiting d now w) (λ u.
          Runs-bind d.new_id Whatever _ _ (Runs-pair_waiting d injective calm now)
            (λ u. Runs-quiet d.new_id Anything done Quiet-done)))

  pub Runs-join :
      (g : GuestId) (raw : Json) (adult : Bool)
      → IsVisitor g
      → Runs d.new_id Anything (join d now g raw adult) Whatever
  unfolding join
  Runs-join g raw adult visits = Runs-after d.new_id _ _ (search quiet_rules) (λ u.
      Runs-after d.new_id _ _ (search quiet) (λ u.
        Runs-after d.new_id _ _ (search quiet_rules) (λ u.
          Runs-after d.new_id _ _ (search quiet_rules) (λ lit.
            Runs-after d.new_id _ _ (search quiet_rules) (λ u.
              Runs-after d.new_id _ _ (search quiet_rules) (λ profile.
                Runs-bind d.new_id (λ o k. Unit {0} × Finds g o k) _ _
                  (Runs-current d.new_id Anything g)
                  (λ o.
                    Runs-bind d.new_id _ _ _
                      (Runs-reject d.new_id (is_some o) already_in_conversation)
                      (λ u. Runs-after d.new_id _ _ (Quiet-touch_online g now) (λ u.
                        Runs-weaken d.new_id (λ k (p, e). unless_talking g o k p.1 e) (λ a k q. q)
                          (Runs-enter (record { guest_id = g; profile = profile; joined_at = now })
                            visits))))))))))
