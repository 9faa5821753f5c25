-- ===== src/Town/Sound/Starts.antt =====
-- The invariant under startConversation and pairWaiting of edge/src/town.ts.
use focustown_public.Prelude.{◌++◌}
use focustown_public.Prelude.{
  ℕ, ◌+◌, ◌≡◌, ◌≢◌, refl, sym, ap, subst, ◌⊎◌, inl, inr, false, not, ◌&&◌, none, some, List, [],
  ◌∷◌, arith, lookup, contains, select, Among, Among-select, ℕ_eq, ◌==◌,
}
use focustown_public.Guest.{visitor, companion_id, jojo_id, GuestId, GuestId_eq, guest_beq_iff}
use focustown_public.Rules.Pairing.{Waiting, pick_partner}
use focustown_public.Rules.Pairing.Laws.{Best, pick_partner-Best}
use focustown_public.Store.Queue.{
  dequeue, IsAbsent, dequeue-IsAbsent, dequeue-IsAbsent_other, dequeue-current,
}
use focustown_public.Store.Chats.{save_conversation}
use focustown_public.Town.World.{Deps, matched_other}
use focustown_public.Town.Exec.{done, store_to, gets, pure, ◌>>=◌, ◌>>◌}
use focustown_public.Town.Session.{draw_id}
use focustown_public.Town.Lobby.{
  count_started, is_human, insert_waiting, by_wait, new_conversation, open_conversation,
  start_conversation, pair_one, pair_loop, restrict_if_suspended, pair_waiting,
}
use focustown_public.Town.Hoare.{Core, core, Quiet-done, quiet_rules}
use focustown_public.Town.Sound.{IsVisitor, Sides, Sound}
use focustown_public.Town.Sound.Waits.{IsCalm, Lasts, still_free, Runs-awaited}
use focustown_public.Town.Sound.Quiet.{quiet, Quiet-modify, Quiet-cancel_companion_for}
use focustown_public.Town.Sound.Rules.{
  Runs, Anything, Whatever, Runs-after, Runs-bind, Runs-option, Runs-quiet, Runs-stored, Runs-gets,
  Runs-pure, Runs-if, Runs-for_each,
}
use focustown_public.Town.Sound.Store.Starting.{start-Sound, current-save}
use focustown_public.Town.Sound.Store.Waiting.{dequeue-Sound}
use focustown_public.Town.Sound.Ends.{Runs-restrict}

-- None of these guests is in a conversation.
abbrev pub AllFree : (GuestId → Type 0) → Core → Type 0
AllFree F k = (g : GuestId) → F g → lookup g k.current ≡ none

-- All but the two that a conversation takes.
abbrev pub Without : (GuestId → Type 0) → GuestId → GuestId → GuestId → Type 0
Without F a b g = F g × (g ≢ a) × (g ≢ b)

AllFree-Lasts : (new_id : ℕ → ℕ) (F : GuestId → Type 0) → Lasts new_id (AllFree F)
AllFree-Lasts new_id F m n k k' v v' none_started free g f =
    still_free new_id m n k k' v v' none_started g (free g f)

module _ (d : Deps) (injective : (i j : ℕ) → d.new_id i ≡ d.new_id j → i ≡ j) (calm : IsCalm d)
    (now : ℕ) where
  -- Whoever is free before the conversation is counted still is.
  Runs-count_started :
      (F : GuestId → Type 0) (b : Waiting)
      → Runs d.new_id (AllFree F) (count_started d now b) (λ u. AllFree F)
  unfolding count_started
  Runs-count_started F b =
      Runs-if d.new_id (is_human b.profile.role) _ _
        (λ t.
          Runs-bind d.new_id (λ u. AllFree F) _ _
            (Runs-awaited d calm (AllFree F) (AllFree-Lasts d.new_id F))
            (λ u. Runs-quiet d.new_id (AllFree F) _ (
              Quiet-modify (λ w. record w { started = w.started ++ now ∷ [] }) (λ w. refl)
                (λ w. refl))))
        (λ f. Runs-quiet d.new_id (AllFree F) done Quiet-done)

  module _ (F : GuestId → Type 0) (a b : Waiting) (in_a : F a.guest_id) (in_b : F b.guest_id)
      (sides : Sides a.guest_id b.guest_id) where
    -- The two have left the queue.
    abbrev Left : Core → Type 0
    Left k = AllFree F k × IsAbsent a.guest_id k.queue × IsAbsent b.guest_id k.queue

    Runs-open :
        Runs d.new_id Left
          (open_conversation d now a b)
          (λ c. AllFree (Without F a.guest_id b.guest_id))
    unfolding open_conversation draw_id store_to pure ◌>>=◌
    Runs-open = record {
      at = λ w s (free, left_a, left_b).
          let c = new_conversation d now a b (d.new_id w.drawn) in
          (
            subst (λ n. Sound d.new_id n (core (save_conversation c w.store))) (omega arith)
                (start-Sound d.new_id injective w.drawn w.store c s refl (free a.guest_id in_a)
                  (free b.guest_id in_b) sides left_a left_b),
            λ g (f, na, nb). ground (
              arith,
              current-save w.store c g,
              guest_beq_iff a.guest_id g,
              guest_beq_iff b.guest_id g,
              free g f,
            ),
          );
    }

    -- A conversation of two guests who are in none keeps the invariant, and takes only those two.
    pub Runs-start :
        Runs d.new_id
          (AllFree F)
          (start_conversation d now a b)
          (λ u. AllFree (Without F a.guest_id b.guest_id))
    unfolding start_conversation
    Runs-start = Runs-after d.new_id _ _ (Quiet-cancel_companion_for a.guest_id matched_other) (λ u.
        Runs-after d.new_id _ _ (Quiet-cancel_companion_for b.guest_id matched_other) (λ u.
          Runs-bind d.new_id (λ r k. AllFree F k × IsAbsent a.guest_id k.queue) _ _
            (Runs-stored d.new_id (dequeue a.guest_id) (λ s n v free. (
              dequeue-Sound d.new_id n s v a.guest_id,
              (λ g f. rw (dequeue-current a.guest_id s) (free g f), dequeue-IsAbsent a.guest_id s),
            )))
            (λ r.
              Runs-bind d.new_id (λ r k. Left k) _ _
                (Runs-stored d.new_id (dequeue b.guest_id) (λ s n v (free, left_a). (
                  dequeue-Sound d.new_id n s v b.guest_id,
                  (
                    λ g f. rw (dequeue-current b.guest_id s) (free g f),
                    dequeue-IsAbsent_other b.guest_id a.guest_id s left_a,
                    dequeue-IsAbsent b.guest_id s,
                  ),
                )))
                (λ r.
                  Runs-bind d.new_id (λ c. AllFree (Without F a.guest_id b.guest_id)) _ _ Runs-open
                    (λ c.
                      Runs-bind d.new_id (λ u. AllFree (Without F a.guest_id b.guest_id)) _ _
                        (Runs-count_started (Without F a.guest_id b.guest_id) b)
                        (λ u.
                          Runs-quiet d.new_id (AllFree (Without F a.guest_id b.guest_id)) _
                            (search quiet)))))))

  visitors-Sides : (a b : GuestId) → IsVisitor a → IsVisitor b → b ≢ a → Sides a b
  visitors-Sides (visitor m) (visitor n) h k ne = λ e. ne (ap visitor (sym e))
  visitors-Sides (visitor m) companion_id h k ne = tt
  visitors-Sides (visitor m) (jojo_id g) h k ne = absurd k
  visitors-Sides companion_id b h k ne = absurd h
  visitors-Sides (jojo_id g) b h k ne = absurd h

  -- The guests of the pool that are not taken.
  abbrev Open : List Waiting → List GuestId → GuestId → Type 0
  Open pool taken g = ((w : Waiting) × Among w pool × (w.guest_id ≡ g)) × (contains taken g ≡ false)

  module _ (pool : List Waiting)
      (visits : (w : Waiting) → Among w pool → IsVisitor w.guest_id) where
    taken_two :
        (taken : List GuestId) (a b g : GuestId)
        → Open pool (b ∷ a ∷ taken) g
        → Without (Open pool taken) a b g
    taken_two taken a b g (member, out) = ground (arith, guest_beq_iff a g, guest_beq_iff b g)

    abbrev candidates : List GuestId → Waiting → List Waiting
    candidates taken self =
        select (λ w. not (contains taken w.guest_id) && not (w.guest_id == self.guest_id)) pool

    pair_two :
        (taken : List GuestId) (made : ℕ) (self p : Waiting)
        → Among self pool
        → contains taken self.guest_id ≡ false
        → Among p (candidates taken self)
        → Runs d.new_id {A = List GuestId × ℕ}
            (AllFree (Open pool taken))
            (do
              start_conversation d now self p
              pure (p.guest_id ∷ self.guest_id ∷ taken, made + 1))
            (λ acc. AllFree (Open pool acc.0))
    pair_two taken made self p m out c =
        let (q, t) =
          Among-select (λ w. not (contains taken w.guest_id) && not (w.guest_id == self.guest_id)) p
            pool c in
        let ne : p.guest_id ≢ self.guest_id =
          ground (arith, guest_beq_iff p.guest_id self.guest_id) in
        Runs-bind d.new_id (λ u. AllFree (Without (Open pool taken) self.guest_id p.guest_id)) _ _
          (Runs-start (Open pool taken) self p ((self, m, refl), out) ((p, q, refl), ground arith)
            (visitors-Sides self.guest_id p.guest_id (visits self m) (visits p q) ne))
          (λ u.
            Runs-pure d.new_id _
              (λ k free g left. free g (taken_two taken self.guest_id p.guest_id g left)))

    picked-Among :
        (self : Waiting) (blocked : List GuestId) (xs : List Waiting) (p : Waiting)
        → pick_partner self now d.config.relax_after_ms blocked xs ≡ some p
        → Among p xs
    picked-Among self blocked xs p e =
        (subst (Best self now d.config.relax_after_ms blocked (λ q. Among q xs)) e
          (pick_partner-Best self now d.config.relax_after_ms blocked xs)).0

    Runs-pair_one :
        (self : Waiting) (taken : List GuestId) (made : ℕ)
        → Among self pool
        → Runs d.new_id
            (AllFree (Open pool taken))
            (pair_one d now pool self (taken, made))
            (λ acc. AllFree (Open pool acc.0))
    unfolding pair_one
    Runs-pair_one self taken made m =
        Runs-if d.new_id (contains taken self.guest_id) _ _
          (λ t. Runs-pure d.new_id _ (λ k free. free))
          (λ out. Runs-after d.new_id _ _ (search quiet_rules) (λ blocked.
            Runs-option d.new_id _ _ _ (λ e. Runs-pure d.new_id _ (λ k free. free))
              (λ p e.
                pair_two taken made self p m out
                  (picked-Among self blocked (candidates taken self) p e))))

    Runs-pair_loop :
        (rest : List Waiting) (acc : List GuestId × ℕ)
        → ((w : Waiting) → Among w rest → Among w pool)
        → Runs d.new_id
            (AllFree (Open pool acc.0))
            (pair_loop d now pool rest acc)
            (λ acc'. AllFree (Open pool acc'.0))
    unfolding pair_loop
    Runs-pair_loop [] acc sub = Runs-pure d.new_id acc (λ k free. free)
    Runs-pair_loop (self ∷ rest) (taken, made) sub =
        Runs-bind d.new_id (λ acc'. AllFree (Open pool acc'.0)) _ _
          (Runs-pair_one self taken made (sub self (inl refl)))
          (λ acc'. Runs-pair_loop rest acc' (λ w m. sub w (inr m)))

  insert_waiting-Among :
      (x w : Waiting) (ws : List Waiting) → Among x (insert_waiting w ws) → (x ≡ w) ⊎ Among x ws
  unfolding insert_waiting
  insert_waiting-Among x w [] h = h
  insert_waiting-Among x w (y ∷ ys) h = ground (arith, insert_waiting-Among x w ys)

  by_wait-Among : (x : Waiting) (ws : List Waiting) → Among x (by_wait ws) → Among x ws
  unfolding by_wait
  by_wait-Among x [] h = h
  by_wait-Among x (w ∷ ws) h = elim (insert_waiting-Among x w (by_wait ws) h) [
    | inl e ↦ inl e
    | inr m ↦ inr (by_wait-Among x ws m)
  ]

  Runs-restrict_if_suspended :
      (w : Waiting) → Runs d.new_id Anything (restrict_if_suspended d now w) (λ u. Anything)
  unfolding restrict_if_suspended
  Runs-restrict_if_suspended w = Runs-after d.new_id _ _ (search quiet_rules) (λ b.
      Runs-if d.new_id b _ _ (λ t. Runs-restrict d.new_id w.guest_id)
        (λ f. Runs-quiet d.new_id Anything _ (search quiet_rules)))

  -- What is known of the pool when it has been read: its guests are visitors, and free.
  abbrev FreePool : List Waiting → Core → Type 0
  FreePool pool k =
      (w : Waiting) → Among w pool → (lookup w.guest_id k.current ≡ none) × IsVisitor w.guest_id

  pair_pool :
      (pool : List Waiting)
      → Runs d.new_id
          (FreePool pool)
          (pair_loop d now pool pool ([], 0) >>= λ acc. pure acc.1)
          Whatever
  pair_pool pool = record {
    at = λ w s p.
        (Runs-bind d.new_id (λ acc. AllFree (Open pool acc.0)) _ _
            (Runs-pair_loop pool (λ x m. (p x m).1) pool ([], 0) (λ x m. m))
            (λ acc. Runs-pure d.new_id acc.1 (λ k q. tt))).at
          w s
          (λ g (member, out).
            subst (λ h. lookup h w.store.current ≡ none) member.2 (p member.0 member.1).0);
  }

  pair_queue :
      Runs d.new_id Anything
        (do
          pool ← gets (λ w. by_wait w.store.queue)
          acc ← pair_loop d now pool pool ([], 0)
          pure acc.1)
        Whatever
  pair_queue =
      Runs-bind d.new_id FreePool _ _
        (Runs-gets d.new_id (λ w. by_wait w.store.queue)
          (λ w s p x m. s.waiting_free x (by_wait-Among x w.store.queue m)))
        pair_pool

  -- The whole pairing pass keeps the invariant.
  pub Runs-pair_waiting : Runs d.new_id Anything (pair_waiting d now) Whatever
  unfolding pair_waiting
  Runs-pair_waiting = Runs-after d.new_id _ _ (search quiet_rules) (λ paused.
      Runs-if d.new_id paused _ _ (λ t. Runs-pure d.new_id 0 (λ k p. tt))
        (λ f. Runs-after d.new_id _ _ (search quiet_rules) (λ queued.
          Runs-bind d.new_id Whatever _ _
            (Runs-for_each d.new_id queued (restrict_if_suspended d now) Runs-restrict_if_suspended)
            (λ u. pair_queue))))
