-- ===== src/Town/Sound/Residents.antt =====
-- The invariant under the AI resident's methods of edge/src/town.ts.
use focustown_public.Prelude.{
  ℕ, ◌≡◌, refl, ◌⊎◌, inl, inr, Option, none, some, [], ◌∷◌, if◌then◌else◌, is_some, lookup, Json,
  Text, ◌||◌, ℕ_eq, subst, leb,
}
use focustown_public.Guest.{GuestId, GuestId_eq}
use focustown_public.Rules.Profile.{jojo_unavailable}
use focustown_public.Store.State.{State, Conversation}
use focustown_public.Store.Chats.{get_conversation}
use focustown_public.Town.World.{Deps, Request, error}
use focustown_public.Town.Exec.{on_option, throw, gets, done, ◌>>=◌}
use focustown_public.Town.Session.{send}
use focustown_public.Town.Jojo.{deliver_text, deliver_jojo, finish_request, finish_reply}
use focustown_public.Town.Hoare.{Core, core, Quiet, quiet_rules, Quiet-done}
use focustown_public.Town.Sound.{IsLive, Sound}
use focustown_public.Town.Sound.Waits.{IsCalm}
use focustown_public.Town.Sound.Quiet.{quiet, Quiet-send, Quiet-modify, Quiet-draw_id}
use focustown_public.Town.Sound.Rules.{
  Runs, Anything, Whatever, Runs-after, Runs-bind, Runs-option, Runs-quiet, Runs-weaken, Runs-gets,
  Runs-if, Runs-throw, Runs-finally, Runs-assume,
}
use focustown_public.Guest.{visitor, companion_id, jojo_id}
use focustown_public.Rules.Pairing.{Waiting}
use focustown_public.Rules.Profile.{not_waiting, jojo_profile}
use focustown_public.Town.Jojo.{greet, start_with, start_inner, start_jojo}
use focustown_public.Town.Session.{waiting_of}
use focustown_public.Town.Lobby.{start_conversation, is_human}
use focustown_public.Rules.Cleaning.{clean}
use focustown_public.Rules.Contacts.{mask_contacts}
use focustown_public.Town.Jojo.{greeting}
use focustown_public.Town.Sound.{IsVisitor, Sides}
use focustown_public.Town.Sound.Starts.{Runs-pair_waiting}
use focustown_public.Town.Sound.Lobbies.{Runs-connect}
use focustown_public.Town.Sound.Invites.{IsFree, Entry, Runs-waiting_of, Runs-start_pair}
use focustown_public.Town.Sound.Chats.{Runs-append_line}

-- What is read under an id is kept.
abbrev LiveAs : ℕ → Option Conversation → Core → Type 0
LiveAs id none k = Unit {0}
LiveAs id (some v) k = IsLive k id

live-read :
    (id : ℕ) (s : State) (o : Option Conversation) → lookup id s.convs ≡ o → LiveAs id o (core s)
live-read id s none e = tt
live-read id s (some v) e = (v, e)

own_visitor :
    (a b g : GuestId) → IsVisitor g → Sides a b → (a ≡ jojo_id g) ⊎ (b ≡ jojo_id g) → a ≡ g
own_visitor (visitor n) (visitor m) g h s (inl e) = cc
own_visitor (visitor n) (visitor m) g h s (inr e) = cc
own_visitor (visitor n) companion_id g h s (inl e) = cc
own_visitor (visitor n) companion_id g h s (inr e) = cc
own_visitor (visitor n) (jojo_id (visitor m)) g h s (inl e) = cc
own_visitor (visitor n) (jojo_id (visitor m)) g h s (inr e) = cc
own_visitor (visitor n) (jojo_id companion_id) g h s e = absurd s
own_visitor (visitor n) (jojo_id (jojo_id i)) g h s e = absurd s
own_visitor companion_id b g h s e = absurd s
own_visitor (jojo_id i) b g h s e = absurd s

-- An AI's only partner is its own visitor, so a free visitor has a free AI.
jojo_free :
    (new_id : ℕ → ℕ) (n : ℕ) (k : Core) (g : GuestId) (o : Option ℕ)
    → Sound new_id n k
    → IsVisitor g
    → lookup g k.current ≡ none
    → lookup (jojo_id g) k.current ≡ o
    → lookup (jojo_id g) k.current ≡ none
jojo_free new_id n k g none v h free e = e
jojo_free new_id n k g (some id) v h free e =
    let (c, at, side) = v.current_valid (jojo_id g) id e in
    let a = v.conv_valid id c at in
    let own = own_visitor c.guest_a c.guest_b g h a.sides side in
    let busy = subst (λ x. lookup x k.current ≡ some id) own a.current_a in cc

module _ (d : Deps) (now : ℕ) where
  Runs-deliver_text :
      (c : Conversation) (text : Text)
      → Runs d.new_id (λ k. IsLive k c.id) (deliver_text d now c text) Whatever
  unfolding deliver_text
  Runs-deliver_text c [] =
      Runs-weaken d.new_id (λ k p. tt) (λ u k q. q) (Runs-quiet d.new_id Anything done Quiet-done)
  Runs-deliver_text c (x ∷ xs) = Runs-after d.new_id _ _ (Quiet-draw_id d now) (λ id.
      Runs-bind d.new_id Whatever _ _
        (Runs-append_line d.new_id c.id
          (record { id = id; from = c.guest_b; text = x ∷ xs; at = now }))
        (λ u. Runs-quiet d.new_id Anything _ (Quiet-send c.guest_a _)))

  Runs-read :
      (id : ℕ) → Runs d.new_id Anything (gets (λ w. get_conversation id w.store)) (λ o. LiveAs id o)
  unfolding get_conversation
  Runs-read id =
      Runs-gets d.new_id (λ w. get_conversation id w.store)
        (λ w s p. live-read id w.store (lookup id w.store.convs) refl)

  pub Runs-deliver_jojo :
      (c : Conversation) (raw : Text) → Runs d.new_id Anything (deliver_jojo d now c raw) Whatever
  unfolding deliver_jojo
  Runs-deliver_jojo c raw =
      Runs-bind d.new_id (λ o. LiveAs c.id o) _ _ (Runs-read c.id)
        (λ o.
          Runs-option d.new_id o _ _
            (λ e.
              Runs-weaken d.new_id (λ k p. tt) (λ u k q. q)
                (Runs-quiet d.new_id Anything done Quiet-done))
            (λ l e. rw e (
              Runs-if d.new_id (is_human l.profile_b.role || leb l.ends_at now) done
                (deliver_text d now c (mask_contacts d.re (clean raw 80)))
                (λ t.
                  Runs-weaken d.new_id (λ k p. tt) (λ u k q. q)
                    (Runs-quiet d.new_id Anything done Quiet-done))
                (λ f. Runs-deliver_text c (mask_contacts d.re (clean raw 80))))))

  Quiet-tell_failed :
      (id : ℕ) (g : GuestId)
      → Quiet (do
        live ← gets (λ w. get_conversation id w.store)
        if is_some live then send g (error jojo_unavailable) else done)
  Quiet-tell_failed id g = search (quiet_rules, Quiet-send)

  Runs-finish_request :
      (id : ℕ) (reply : Option Text) (r : Request)
      → Runs d.new_id Anything (finish_request d now id reply r) Whatever
  unfolding finish_request
  Runs-finish_request id reply r =
      Runs-finally d.new_id _ _ (λ w. refl) (λ w. refl)
        (Runs-option d.new_id (if r.aborted then none else reply) _ _
          (λ e. Runs-quiet d.new_id Anything _ (Quiet-tell_failed id r.asker))
          (λ raw e. Runs-deliver_jojo r.conversation raw))

  pub Runs-finish_reply :
      (id : ℕ) (reply : Option Text) → Runs d.new_id Anything (finish_reply d now id reply) Whatever
  unfolding finish_reply
  Runs-finish_reply id reply = Runs-after d.new_id _ _ (search quiet_rules) (λ o.
      Runs-option d.new_id o _ _ (λ e. Runs-quiet d.new_id Anything done Quiet-done)
        (λ r e. Runs-finish_request id reply r))

  Runs-greet : (o : Option Conversation) → Runs d.new_id Anything (greet d now o) Whatever
  unfolding greet
  Runs-greet none = Runs-quiet d.new_id Anything done Quiet-done
  Runs-greet (some c) =
      Runs-if d.new_id (is_human c.profile_b.role) done (deliver_jojo d now c greeting)
        (λ t. Runs-quiet d.new_id Anything done Quiet-done) (λ f. Runs-deliver_jojo c greeting)

module _ (d : Deps) (injective : (i j : ℕ) → d.new_id i ≡ d.new_id j → i ≡ j) (calm : IsCalm d)
    (now : ℕ) where
  Sides-jojo : (g : GuestId) → IsVisitor g → Sides g (jojo_id g)
  Sides-jojo (visitor n) h = refl
  Sides-jojo companion_id h = absurd h
  Sides-jojo (jojo_id g) h = absurd h

  -- The conversation with the AI, where the visitor is free.
  Runs-start_jojo_pair :
      (w : Waiting)
      → Runs d.new_id
          (IsFree w)
          (start_conversation d now w
            (record { guest_id = jojo_id w.guest_id; profile = jojo_profile; joined_at = now }))
          Whatever
  Runs-start_jojo_pair w = record {
    at = λ v s (visits, free).
        (Runs-start_pair d injective calm now w
            (record { guest_id = jojo_id w.guest_id; profile = jojo_profile; joined_at = now })
            (Sides-jojo w.guest_id)).at
          v s
          (
            (visits, free),
            jojo_free d.new_id v.drawn (core v.store) w.guest_id
                (lookup (jojo_id w.guest_id) v.store.current) s visits free refl,
          );
  }

  Runs-start_own :
      (g : GuestId) (w : Waiting)
      → w.guest_id ≡ g
      → Runs d.new_id
          (IsFree w)
          (start_conversation d now w
            (record { guest_id = jojo_id g; profile = jojo_profile; joined_at = now }))
          Whatever
  Runs-start_own g w e =
      subst
        (λ g.
          Runs d.new_id (IsFree w)
            (start_conversation d now w
              (record { guest_id = jojo_id g; profile = jojo_profile; joined_at = now }))
            Whatever)
        e (Runs-start_jojo_pair w)

  Runs-start_with :
      (g : GuestId) (w : Waiting)
      → w.guest_id ≡ g
      → Runs d.new_id (IsFree w) (start_with d now g w) Whatever
  unfolding start_with
  Runs-start_with g w own = Runs-after d.new_id _ _ (search quiet_rules) (λ seen.
      Runs-after d.new_id _ _ (search quiet_rules) (λ u.
        Runs-after d.new_id _ _ (search quiet_rules) (λ u.
          Runs-after d.new_id _ _ (search quiet_rules) (λ blocked.
            Runs-after d.new_id _ _ (search quiet_rules) (λ u.
              Runs-after d.new_id _ _ (search quiet) (λ within.
                Runs-after d.new_id _ _ (search quiet_rules) (λ u.
                  Runs-bind d.new_id Whatever _ _ (Runs-start_own g w own) (λ u.
                    Runs-after d.new_id _ _ (search quiet_rules) (λ c. Runs-greet d now c)))))))))

  Runs-start_entry :
      (g : GuestId)
      → Runs d.new_id Anything
          (do
            entry ← gets (λ w. waiting_of g w.store)
            on_option entry (throw not_waiting) (λ w. start_with d now g w))
          Whatever
  Runs-start_entry g =
      Runs-bind d.new_id (λ o k. Unit {0} × Entry g o k) _ _ (Runs-waiting_of d.new_id Anything g)
        (λ o.
          Runs-option d.new_id o _ _ (λ e. Runs-throw d.new_id not_waiting)
            (λ w e. rw e (
              Runs-assume d.new_id (λ k p. p.1.0)
                (λ own.
                  Runs-weaken d.new_id (λ k p. p.1.1) (λ u k q. q) (Runs-start_with g w own)))))

  Runs-start_inner : (g : GuestId) → Runs d.new_id Anything (start_inner d now g) Whatever
  unfolding start_inner
  Runs-start_inner g = Runs-after d.new_id _ _ (search quiet_rules) (λ lit.
      Runs-after d.new_id _ _ (search quiet_rules) (λ u.
        Runs-after d.new_id _ _ (search quiet_rules) (λ before.
          Runs-if d.new_id (is_some before) _ _ (λ t. Runs-connect d now g)
            (λ f. Runs-bind d.new_id Whatever _ _ (Runs-pair_waiting d injective calm now) (λ u.
              Runs-after d.new_id _ _ (search quiet_rules) (λ after.
                Runs-if d.new_id (is_some after) _ _
                  (λ t. Runs-quiet d.new_id Anything done Quiet-done)
                  (λ f. Runs-start_entry g)))))))

  pub Runs-start_jojo :
      (g : GuestId) (consent : Json) → Runs d.new_id Anything (start_jojo d now g consent) Whatever
  unfolding start_jojo
  Runs-start_jojo g consent = Runs-after d.new_id _ _ (search quiet) (λ u.
      Runs-after d.new_id _ _ (search quiet_rules) (λ u.
        Runs-after d.new_id _ _ (search quiet_rules) (λ u.
          Runs-after d.new_id _ _ (search quiet_rules) (λ u.
            Runs-after d.new_id _ _ (search quiet_rules) (λ starting.
              Runs-after d.new_id _ _ (search quiet_rules) (λ u.
                Runs-after d.new_id _ _
                  (Quiet-modify (λ w. record w { jojo_starts = g ∷ w.jojo_starts }) (λ w. refl)
                    (λ w. refl))
                  (λ u.
                    Runs-finally d.new_id _ _ (λ w. refl) (λ w. refl) (Runs-start_inner g))))))))
