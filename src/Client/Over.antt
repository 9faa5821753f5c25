-- ===== src/Client/Over.antt =====
-- sessionStore.ts after a conversation has ended: the snapshots that a reconnecting server replays.
use focustown_public.Prelude.{ℕ, ◌≡◌, true, false, is_some, List, [], ◌∷◌, Text_eq}
use focustown_public.Client.State.{Client, is_chat}
use focustown_public.Client.Run.{Input, walked_in, again_called, was_reset}

-- The conversation ended with a reason, and no chat is on the screen.
abbrev pub IsOver : Client → Type 0
IsOver s = (is_some s.end_reason ≡ true) × (is_chat s.view ≡ false)

-- Inputs other than walking in (startWaiting, again) and reset.
abbrev pub IsPassive : Input → Type 0
IsPassive (walked_in nickname) = ⊥
IsPassive again_called = ⊥
IsPassive was_reset = ⊥
IsPassive _ = Unit {0}

abbrev pub AllPassive : List (ℕ × Input) → Type 0
AllPassive [] = Unit {0}
AllPassive ((now, i) ∷ is) = IsPassive i × AllPassive is
