-- ===== src/Town/Sound/Chats.antt =====
-- The invariant under sendMessage, typing and leave of edge/src/town.ts.
use focustown_public.Prelude.{
  ℕ, ◌≡◌, refl, false, [], ◌∷◌, arith, if◌then◌else◌, lookup, insert, Json, Text, ℕ_eq, ap, ◌∙◌,
}
use focustown_public.Guest.{GuestId, GuestId_eq, is_jojo}
use focustown_public.Rules.Profile.{empty_message, age_required, jojo_busy, jojo_unavailable}
use focustown_public.Store.State.{State, Conversation, Line}
use focustown_public.Store.Chats.{append_line, add_extend_vote}
use focustown_public.Town.World.{Deps, error, left, cancelled}
use focustown_public.Town.Exec.{on_throw, throw, stored, store_to, reject}
use focustown_public.Town.Session.{send}
use focustown_public.Town.Chat.{
  relay, jojo_quota, forget_request, relay_to_jojo, say, send_text, send_message, type_to_partner,
  leave,
}
use focustown_public.Town.Hoare.{Core, Quiet, quiet_rules, Quiet-on_throw, Quiet-reject}
use focustown_public.Town.Sound.{IsLive}
use focustown_public.Town.Sound.Quiet.{
  quiet, Quiet-send, Quiet-modify, Quiet-cancel_companion_for, Quiet-draw_id,
}
use focustown_public.Town.Sound.Rules.{
  Runs, Anything, Whatever, Runs-after, Runs-bind, Runs-quiet, Runs-weaken, Runs-store_to,
  Runs-stored, Runs-if, Runs-throw,
}
use focustown_public.Town.Sound.Store.Talking.{append_line-Sound, add_extend_vote-Sound}
use focustown_public.Town.Sound.Ends.{Held, Runs-close, Runs-dequeue, close_current, Runs-require}

abbrev Live : ℕ → Core → Type 0
Live id k = IsLive k id

module _ (new_id : ℕ → ℕ) where
  -- A line can be written to a conversation that is kept.
  pub Runs-append_line :
      (id : ℕ) (line : Line) → Runs new_id (Live id) (store_to (append_line id line)) Whatever
  Runs-append_line id line =
      Runs-store_to new_id (append_line id line)
        (λ s n v live. (append_line-Sound new_id n s v id line live, tt))

  extend-convs :
      (c : Conversation) (g : GuestId) (s : State) → (add_extend_vote c g s).1.convs ≡ s.convs
  unfolding add_extend_vote
  extend-convs c g s = ground arith

  -- A vote leaves the conversation as it is.
  pub Runs-vote :
      (c : Conversation) (g : GuestId)
      → Runs new_id (Held c) (stored (add_extend_vote c g)) (λ b. Held c)
  Runs-vote c g = Runs-stored new_id (add_extend_vote c g) (λ s n v held. (
    add_extend_vote-Sound new_id n s v c g (c, held),
    ap (lookup c.id) (extend-convs c g s) ∙ held,
  ))

module _ (d : Deps) (now : ℕ) where
  Runs-relay :
      (c : Conversation) (g other : GuestId) (text : Text)
      → Runs d.new_id (Held c) (relay d now c g other text) Whatever
  unfolding relay
  Runs-relay c g other text = Runs-after d.new_id _ _ (Quiet-draw_id d now) (λ id.
      Runs-bind d.new_id Whatever _ _
        (Runs-weaken d.new_id (λ k held. (c, held)) (λ u k q. q)
          (Runs-append_line d.new_id c.id (record { id = id; from = g; text = text; at = now })))
        (λ u. Runs-quiet d.new_id Anything _ (search (quiet_rules, Quiet-send))))

  Quiet-jojo_quota : (g : GuestId) → Quiet (jojo_quota d now g)
  unfolding jojo_quota
  Quiet-jojo_quota g = search quiet depth 14

  Quiet-quota_or_forget :
      (id : ℕ) (g : GuestId)
      → Quiet (
          on_throw
            (if d.jojo_reply then jojo_quota d now g else throw jojo_unavailable)
            (forget_request d now id))
  unfolding forget_request
  Quiet-quota_or_forget id g =
      Quiet-on_throw _ _ (search (quiet_rules, Quiet-jojo_quota)) (λ w. refl) (λ w. refl)

  Runs-relay_to_jojo :
      (c : Conversation) (g other : GuestId) (text : Text)
      → Runs d.new_id (Held c) (relay_to_jojo d now c g other text) Whatever
  unfolding relay_to_jojo
  Runs-relay_to_jojo c g other text =
      Runs-after d.new_id _ _
        (Quiet-modify
          (λ w. record w {
            jojo_requests =
                insert c.id (record { conversation = c; asker = g; aborted = false })
                  w.jojo_requests;
          })
          (λ w. refl) (λ w. refl))
        (λ u. Runs-after d.new_id _ _ (Quiet-quota_or_forget c.id g) (λ u.
          Runs-bind d.new_id Whatever _ _ (Runs-relay c g other text)
            (λ u. Runs-quiet d.new_id Anything _ (search (quiet_rules, Quiet-send)))))

  Runs-say :
      (c : Conversation) (g other : GuestId) (text : Text)
      → Runs d.new_id (Held c) (say d now c g other text) Whatever
  unfolding say
  Runs-say c g other text = Runs-after d.new_id _ _ (search quiet_rules) (λ busy.
      Runs-if d.new_id (is_jojo other) _ _
        (λ t.
          Runs-if d.new_id _ _ _
            (λ t.
              Runs-after d.new_id (send g (error age_required)) _ (Quiet-send g _)
                (λ u. Runs-close d.new_id c ((g, left) ∷ [])))
            (λ f.
              Runs-after d.new_id (reject busy jojo_busy) _ (Quiet-reject busy jojo_busy)
                (λ u. Runs-relay_to_jojo c g other text)))
        (λ f. Runs-relay c g other text))

  Runs-send_text :
      (g : GuestId) (text : Text) → Runs d.new_id Anything (send_text d now g text) Whatever
  unfolding send_text
  Runs-send_text g [] = Runs-throw d.new_id empty_message
  Runs-send_text g (x ∷ xs) = Runs-bind d.new_id Held _ _ (Runs-require d.new_id d now g) (λ c.
      Runs-after d.new_id _ _ (search quiet_rules)
        (λ u. Runs-after d.new_id _ _ (search quiet_rules) (λ other. Runs-say c g other (x ∷ xs))))

  pub Runs-send_message :
      (g : GuestId) (raw : Json) → Runs d.new_id Anything (send_message d now g raw) Whatever
  unfolding send_message
  Runs-send_message g raw = Runs-send_text g _

  pub Runs-type_to_partner :
      (g : GuestId) → Runs d.new_id Anything (type_to_partner d now g) Whatever
  unfolding type_to_partner
  Runs-type_to_partner g = Runs-quiet d.new_id Anything _ (search quiet depth 12)

  pub Runs-leave : (g : GuestId) → Runs d.new_id Anything (leave d now g) Whatever
  unfolding leave
  Runs-leave g = Runs-after d.new_id _ _ (Quiet-cancel_companion_for g cancelled) (λ u.
      Runs-bind d.new_id Whatever _ _ (Runs-dequeue d.new_id g) (λ u. close_current d.new_id g _))
