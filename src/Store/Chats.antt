-- ===== src/Store/Chats.antt =====
-- edge/src/store.ts: conversations, extension votes and transcripts, and the periodic clean-up.
pub mod Laws
use focustown_public.Prelude.{
  ℕ, ◌-◌, Bool, true, false, not, ◌&&◌, ◌||◌, Option, none, some, List, [], ◌∷◌, ◌++◌, map, ltb,
  if◌then◌else◌, ◌==◌, contains, select, take_last, or_default, lookup, insert, erase, keep_entries,
  Assoc, ℕ_eq,
}
use focustown_public.Guest.{GuestId, GuestId_eq}
use focustown_public.Store.State.{State, Conversation, Line, Counter, Block}

abbrev pub transcript_max_lines : ℕ
transcript_max_lines = 400

unfoldable pub save_conversation : Conversation → State → State
save_conversation c s = record s {
  convs = insert c.id c s.convs;
  active = if contains s.active c.id then s.active else s.active ++ c.id ∷ [];
  current = insert c.guest_b c.id (insert c.guest_a c.id s.current);
}

unfoldable pub get_conversation : ℕ → State → Option Conversation
get_conversation id s = lookup id s.convs

unfoldable pub conversation_id_of : GuestId → State → Option ℕ
conversation_id_of g s = lookup g s.current

-- `if (current[g] === c.id) delete current[g]`
unfoldable pub drop_current : ℕ → GuestId → Assoc GuestId ℕ → Assoc GuestId ℕ
drop_current id g current = elim (lookup g current) [
  | none ↦ current
  | some i ↦ if i == id then erase g current else current
]

-- The cleanup marker in `closed` is set first and removed last.
unfoldable pub close_conversation : Conversation → State → State
unfolding drop_current
close_conversation c s = record s {
  closed = erase c.id (insert c.id 0 s.closed);
  convs = erase c.id s.convs;
  lines = erase c.id s.lines;
  votes = erase c.id s.votes;
  current = drop_current c.id c.guest_b (drop_current c.id c.guest_a s.current);
  active = select (λ id. not (id == c.id)) s.active;
}

unfoldable pub erase_all : {V : Type 0} → List ℕ → Assoc ℕ V → Assoc ℕ V
erase_all [] m = m
erase_all (id ∷ ids) m = erase_all ids (erase id m)

-- The ids in `closed`: what an interrupted or an old ending has left. With none, the filters of
-- the source are not run, and keep everything.
unfoldable pub purge_closed : State → State
unfolding erase_all
purge_closed s =
    let ids = map (λ e. e.0) s.closed in
    record s {
      convs = erase_all ids s.convs;
      lines = erase_all ids s.lines;
      votes = erase_all ids s.votes;
      current = keep_entries (λ g id. not (contains ids id)) s.current;
      active = select (λ id. not (contains ids id)) s.active;
      last = none;
      closed = [];
    }

unfoldable pub prune_expired : ℕ → State → State
unfolding purge_closed
prune_expired now s =
    let s' = purge_closed s in
    record s' {
      blocks = select (λ k. ltb now k.until) s'.blocks;
      admin_revoked = keep_entries (λ f until. ltb now until) s'.admin_revoked;
      limits = keep_entries (λ k l. ltb now l.reset_at) s'.limits;
    }

abbrev is_nonempty : {A : Type 0} → List A → Bool
is_nonempty [] = false
is_nonempty (x ∷ xs) = true

-- `{ live, expiring }`
unfoldable pub has_pending_work : State → Bool × Bool
has_pending_work s = (
  is_nonempty s.queue || is_nonempty s.active,
  is_nonempty s.closed
      || is_nonempty s.online
      || is_nonempty s.limits
      || is_nonempty s.admin_revoked,
)

-- `new Set(votes).add(g)`
unfoldable pub add_vote : GuestId → List GuestId → List GuestId
add_vote g votes = if contains votes g then votes else votes ++ g ∷ []

unfoldable pub extend_votes : ℕ → State → List GuestId
extend_votes id s = or_default (lookup id s.votes) []

unfoldable pub add_extend_vote : Conversation → GuestId → State → Bool × State
unfolding add_vote extend_votes
add_extend_vote c g s =
    let votes = add_vote g (extend_votes c.id s) in
    if contains votes c.guest_a && contains votes c.guest_b
    then (true, record s { votes = erase c.id s.votes })
    else (false, record s { votes = insert c.id votes s.votes })

unfoldable pub transcript : ℕ → State → List Line
transcript id s = or_default (lookup id s.lines) []

unfoldable pub append_line : ℕ → Line → State → State
unfolding transcript
append_line id line s = record s {
  lines = insert id (take_last transcript_max_lines (transcript id s ++ line ∷ [])) s.lines;
}
