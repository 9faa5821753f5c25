-- ===== src/Town/Sound.antt =====
-- The invariant of the town: conversations, the index `current` by guest, the list `active`, the
-- transcripts, the votes and the queue agree with one another.
pub mod Quiet
pub mod Rules
pub mod Waits
pub mod Ends
pub mod Starts
pub mod Lobbies
pub mod Invites
pub mod Chats
pub mod Agreements
pub mod Residents
pub mod Sweeps
pub mod Store
use focustown_public.Prelude.{
  ℕ, ◌<◌, ◌≡◌, ◌≢◌, ◌⊎◌, Option, none, some, List, [], lookup, Among, Assoc, ℕ_eq,
}
use focustown_public.Guest.{GuestId, visitor, companion_id, jojo_id, GuestId_eq}
use focustown_public.Rules.Pairing.{Waiting}
use focustown_public.Store.State.{State, Conversation, Line}
use focustown_public.Store.Queue.{IsQueue}
use focustown_public.Town.Hoare.{Core}

abbrev pub IsVisitor : GuestId → Type 0
IsVisitor (visitor n) = Unit {0}
IsVisitor _ = ⊥

-- Who may talk to whom: a visitor to another, to the companion, or to an AI of the visitor's own.
abbrev pub Sides : GuestId → GuestId → Type 0
Sides (visitor n) (visitor m) = n ≢ m
Sides (visitor n) companion_id = Unit {0}
Sides (visitor n) (jojo_id (visitor m)) = n ≡ m
Sides _ _ = ⊥

-- `id` is a conversation that is kept.
abbrev pub IsLive : Core → ℕ → Type 0
IsLive c id = (v : Conversation) × (lookup id c.convs ≡ some v)

-- What is known of a conversation `v` that is kept under `id`.
pub record Agrees (c : Core) (id : ℕ) (v : Conversation) : Type 0 where
  pub own_id : v.id ≡ id
  pub current_a : lookup v.guest_a c.current ≡ some id
  pub current_b : lookup v.guest_b c.current ≡ some id
  pub listed : Among id c.active
  pub sides : Sides v.guest_a v.guest_b

module _ (new_id : ℕ → ℕ) where
  pub record Sound (drawn : ℕ) (c : Core) : Type 0 where
    -- a guest is in no conversation but one that is kept, and is one of its two
    pub current_valid :
        (g : GuestId) (id : ℕ)
        → lookup g c.current ≡ some id
        → (v : Conversation) × (lookup id c.convs ≡ some v) × ((v.guest_a ≡ g) ⊎ (v.guest_b ≡ g))
    pub conv_valid : (id : ℕ) (v : Conversation) → lookup id c.convs ≡ some v → Agrees c id v
    pub active_live : (id : ℕ) → Among id c.active → IsLive c id
    -- no transcript and no vote outlives its conversation
    pub lines_live : (id : ℕ) (l : List Line) → lookup id c.lines ≡ some l → IsLive c id
    pub votes_live : (id : ℕ) (l : List GuestId) → lookup id c.votes ≡ some l → IsLive c id
    -- nobody waits while talking, and nobody waits twice
    pub waiting_free :
        (w : Waiting)
        → Among w c.queue
        → (lookup w.guest_id c.current ≡ none) × IsVisitor w.guest_id
    pub queue_once : IsQueue c.queue
    pub closed_empty : c.closed ≡ []
    pub drawn_before :
        (id : ℕ) (v : Conversation)
        → lookup id c.convs ≡ some v
        → (k : ℕ) × (k < drawn) × (id ≡ new_id k)
