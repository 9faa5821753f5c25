-- ===== src/Store/Chats/Laws.antt =====
-- edge/src/store.ts, appendLine and transcript: lemmas.
use focustown_public.Prelude.{
  ℕ, ◌+◌, ◌≡◌, [], ◌∷◌, ◌++◌, arith, min, length, length-append, length-take_last, take_last,
  lookup-insert, ℕ_eq, eqb_iff,
}
use focustown_public.Guest.{GuestId_eq}
use focustown_public.Store.State.{State, Line}
use focustown_public.Store.Chats.{transcript_max_lines, transcript, append_line}

-- Writing a line makes the transcript one longer, up to 400 lines, where it stays.
pub append_line-length :
    (id : ℕ) (line : Line) (s : State)
    → length (transcript id (append_line id line s))
      ≡ min (length (transcript id s) + 1) transcript_max_lines
unfolding append_line transcript
append_line-length id line s =
    rw (lookup-insert id id (take_last transcript_max_lines (transcript id s ++ line ∷ [])) s.lines)
      (unfold transcript in
        ground (
          arith,
          eqb_iff id id,
          length-take_last transcript_max_lines (transcript id s ++ line ∷ []),
          length-append (transcript id s) (line ∷ []),
        ))
