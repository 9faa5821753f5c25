-- ===== src/Server/Reach.antt =====
-- Worlds that a history of events of edge/src/townObject.ts leads to.
use focustown_public.Prelude.{ℕ, ◌≡◌, subst, ◌⊎◌, inl, inr, none, some, List, lookup, ℕ_eq, Among}
use focustown_public.Guest.{GuestId, GuestId_eq}
use focustown_public.Rules.Pairing.{Waiting}
use focustown_public.Store.State.{Conversation, Line}
use focustown_public.Store.Chats.{conversation_id_of, get_conversation}
use focustown_public.Town.World.{Deps, new_world}
use focustown_public.Town.Hoare.{Core, core}
use focustown_public.Town.Sound.{Sound, Agrees}
use focustown_public.Town.Sound.Waits.{IsCalm}
use focustown_public.Server.Events.{Event, run, AllAdmissible}
use focustown_public.Server.Sound.{run-Sound}

-- The guest is one of the conversation's two.
abbrev pub IsIn : GuestId → Conversation → Type 0
IsIn g c = (c.guest_a ≡ g) ⊎ (c.guest_b ≡ g)

in_current :
    (k : Core) (id : ℕ) (c : Conversation) (g : GuestId)
    → Agrees k id c
    → IsIn g c
    → lookup g k.current ≡ some id
in_current k id c g a (inl e) = subst (λ g. lookup g k.current ≡ some id) e a.current_a
in_current k id c g a (inr e) = subst (λ g. lookup g k.current ≡ some id) e a.current_b

module _ (d : Deps) (injective : (i j : ℕ) → d.new_id i ≡ d.new_id j → i ≡ j) (calm : IsCalm d)
    (es : List (ℕ × Event)) (admissible : AllAdmissible es) where
  sound : Sound d.new_id (run d es new_world).drawn (core (run d es new_world).store)
  sound = run-Sound d injective calm es admissible

  -- After every history of admissible events, two conversations that are kept and share a guest are
  -- the same one, provided that no id is drawn twice and that the events which run while a hook that
  -- writes to D1 is awaited keep the invariant and start no conversation.
  pub run-one_conversation :
      (g : GuestId) (id j : ℕ) (c v : Conversation)
      → get_conversation id (run d es new_world).store ≡ some c
      → get_conversation j (run d es new_world).store ≡ some v
      → IsIn g c
      → IsIn g v
      → id ≡ j
  unfolding get_conversation
  run-one_conversation g id j c v at_id at_j in_c in_v =
      let a = in_current _ id c g (sound.conv_valid id c at_id) in_c in
      let b = in_current _ j v g (sound.conv_valid j v at_j) in_v in cc

  -- After every history of admissible events, whoever stands in the queue is in no conversation,
  -- provided that no id is drawn twice and that the events which run while a hook that writes to D1
  -- is awaited keep the invariant and start no conversation.
  pub run-waiting_alone :
      (w : Waiting)
      → Among w (run d es new_world).store.queue
      → conversation_id_of w.guest_id (run d es new_world).store ≡ none
  unfolding conversation_id_of
  run-waiting_alone w m = (sound.waiting_free w m).0

  -- After every history of admissible events, a stored transcript is that of a kept conversation
  -- that both of its guests are in at the moment: none outlives its conversation, provided that no
  -- id is drawn twice and that the events which run while a hook that writes to D1 is awaited keep
  -- the invariant and start no conversation.
  pub run-transcript_owned :
      (id : ℕ) (lines : List Line)
      → lookup id (run d es new_world).store.lines ≡ some lines
      → (c : Conversation) × (get_conversation id (run d es new_world).store ≡ some c)
        × (conversation_id_of c.guest_a (run d es new_world).store ≡ some id)
        × (conversation_id_of c.guest_b (run d es new_world).store ≡ some id)
  unfolding get_conversation conversation_id_of
  run-transcript_owned id lines h =
      let (c, at) = sound.lines_live id lines h in
      let a = sound.conv_valid id c at in (c, at, a.current_a, a.current_b)
