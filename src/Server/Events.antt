-- ===== src/Server/Events.antt =====
-- The events that the Durable Object runs one at a time, each at the time its clock shows, and the
-- world that a history of them leads to. Where a method awaits inference, its continuation is an
-- event of its own (`reply`), with any others between.
use focustown_public.Prelude.{ℕ, Bool, Option, List, [], ◌∷◌, Json, Text}
use focustown_public.Guest.{GuestId, visitor, companion_id, jojo_id}
use focustown_public.Town.World.{World, Deps, ReportReason}
use focustown_public.Town.Exec.{Exec, Done, done, ◌>>◌}
use focustown_public.Town.Lobby.{connect}
use focustown_public.Town.Jojo.{finish_reply}
use focustown_public.Town.Sweep.{sweep}
use focustown_public.Server.Dispatch.{
  ClientFrame, web_socket_message, on_socket_gone, report_limited, switch_maintenance, moderated,
}

pub data Event : Type 0 where
  opened : GuestId → Event
  received : GuestId → Option ClientFrame → Event
  -- with whether another socket of the guest is open
  socket_gone : GuestId → Bool → Event
  reply : ℕ → Option Text → Event
  report_call : GuestId → Option ReportReason → Json → Event
  maintenance_call : Bool → Event
  moderate_call : GuestId → Option ℕ → Event
  alarm : Event

unfoldable pub handle : Deps → ℕ → Event → Exec Done
handle d now (opened guest_id) = connect d now guest_id
handle d now (received guest_id frame) = web_socket_message d now guest_id frame
handle d now (socket_gone guest_id still_open) = on_socket_gone d now guest_id still_open
handle d now (reply id text) = finish_reply d now id text
handle d now (report_call guest_id reason note) = report_limited d now guest_id reason note >> done
handle d now (maintenance_call on) = switch_maintenance d now on
handle d now (moderate_call guest_id until) = moderated d now guest_id until
handle d now alarm = sweep d now

unfoldable pub run : Deps → List (ℕ × Event) → World → World
unfolding handle
run d [] w = w
run d ((now, e) ∷ es) w = run d es (handle d now e w).1

-- A guest that a token names: the tokens of token.ts name visitors and the companion, never an AI.
abbrev pub IsKnown : GuestId → Type 0
IsKnown (visitor n) = Unit {0}
IsKnown companion_id = Unit {0}
IsKnown (jojo_id g) = ⊥

-- Whoever sends a frame is known by a token.
abbrev pub IsAdmissible : Event → Type 0
IsAdmissible (received g frame) = IsKnown g
IsAdmissible _ = Unit {0}

abbrev pub AllAdmissible : List (ℕ × Event) → Type 0
AllAdmissible [] = Unit {0}
AllAdmissible ((now, e) ∷ es) = IsAdmissible e × AllAdmissible es
