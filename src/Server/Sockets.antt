-- ===== src/Server/Sockets.antt =====
-- edge/src/townObject.ts, fetch and closeStaleSockets: which sockets of a guest are open.
use focustown_public.Prelude.{
  ℕ, ◌+◌, ◌≤◌, ◌≡◌, Bool, true, false, not, ◌&&◌, ◌||◌, Option, none, some, List, [], ◌∷◌, ◌++◌,
  map, arith, leb, if◌then◌else◌, ◌==◌, length, select,
}
use focustown_public.Guest.{GuestId, companion_id, GuestId_eq, guest_beq, guest_beq_iff}

-- A socket with its tag, whether it is OPEN, and its attachment.
pub record Socket : Type 0 where
  pub guest_id : GuestId
  pub is_open : Bool
  pub seen : Option ℕ

-- `meta && meta.seen >= cutoff`
unfoldable pub is_fresh : ℕ → Option ℕ → Bool
is_fresh cutoff none = false
is_fresh cutoff (some seen) = leb cutoff seen

unfoldable pub close_where : (Socket → Bool) → List Socket → List Socket
close_where p ws = map (λ w. if p w then record w { is_open = false } else w) ws

-- The cutoff is `now - offlineAfterMs`, which stops at 0.
unfoldable pub close_stale_sockets : ℕ → GuestId → List Socket → List Socket
unfolding is_fresh close_where
close_stale_sockets cutoff guest_id ws =
    close_where (λ w. w.guest_id == guest_id && w.is_open && not (is_fresh cutoff w.seen)) ws

abbrev pub open_of : GuestId → Socket → Bool
open_of guest_id w = w.guest_id == guest_id && w.is_open

abbrev pub open_sockets : GuestId → List Socket → ℕ
open_sockets guest_id ws = length (select (open_of guest_id) ws)

unfoldable pub two_open : GuestId → List Socket → Bool
two_open guest_id ws = not (guest_id == companion_id) && leb 2 (open_sockets guest_id ws)

-- The upgrade of a guest's request, with whether the limit on its address allows it (`hit`), and
-- whether it was accepted.
unfoldable pub accept_socket : ℕ → ℕ → Bool → GuestId → List Socket → Bool × List Socket
unfolding close_stale_sockets close_where two_open
accept_socket now cutoff within guest_id ws =
    let kept = if guest_id == companion_id then ws else close_stale_sockets cutoff guest_id ws in
    let opened : Socket = record { guest_id = guest_id; is_open = true; seen = some now } in
    if not within || two_open guest_id kept
    then (false, kept)
    else if guest_id == companion_id
    then (true, close_where (λ w. w.guest_id == companion_id) kept ++ opened ∷ [])
    else (true, kept ++ opened ∷ [])

-- How many sockets of a guest may be open.
abbrev pub socket_max : GuestId → ℕ
socket_max g = if guest_beq g companion_id then 1 else 2

-- No guest has more sockets open than that.
abbrev pub IsBounded : List Socket → Type 0
IsBounded ws = (g : GuestId) → open_sockets g ws ≤ socket_max g

select-append :
    {A : Type 0} (p : A → Bool) (xs ys : List A)
    → length (select p (xs ++ ys)) ≡ length (select p xs) + length (select p ys)
select-append p [] ys = omega arith
select-append p (x ∷ xs) ys = ground (arith, select-append p xs ys)

open_sockets-close_where :
    (p : Socket → Bool) (g : GuestId) (ws : List Socket)
    → open_sockets g (close_where p ws) ≤ open_sockets g ws
unfolding close_where
open_sockets-close_where p g [] = omega arith
open_sockets-close_where p g (w ∷ ws) = ground (arith, open_sockets-close_where p g ws)

-- Closing all of a guest's sockets leaves none open.
none_open :
    (g : GuestId) (ws : List Socket) → open_sockets g (close_where (λ w. w.guest_id == g) ws) ≡ 0
unfolding close_where
none_open g [] = omega arith
none_open g (w ∷ ws) = ground (arith, none_open g ws)

open_sockets-add :
    (now : ℕ) (g h : GuestId) (ws : List Socket)
    → open_sockets h (ws ++ record { guest_id = g; is_open = true; seen = some now } ∷ [])
      ≡ open_sockets h ws + (if guest_beq g h then 1 else 0)
open_sockets-add now g h ws = ground (
  arith,
  select-append (open_of h) ws (record { guest_id = g; is_open = true; seen = some now } ∷ []),
)

-- Where no guest has more sockets open than the companion's one or another guest's two, none has
-- after an upgrade, whether it is accepted or turned away.
pub accept_socket-IsBounded :
    (now cutoff : ℕ) (within : Bool) (g : GuestId) (ws : List Socket)
    → IsBounded ws
    → IsBounded (accept_socket now cutoff within g ws).1
unfolding accept_socket close_stale_sockets two_open
accept_socket-IsBounded now cutoff within g ws bounded h =
    let stale = λ (w : Socket). w.guest_id == g && w.is_open && not (is_fresh cutoff w.seen) in
    ground (
      arith,
      bounded h,
      guest_beq_iff g h,
      guest_beq_iff g companion_id,
      guest_beq_iff h companion_id,
      open_sockets-close_where stale h ws,
      open_sockets-add now g h (close_where stale ws),
      open_sockets-add now g h (close_where (λ w. w.guest_id == companion_id) ws),
      none_open companion_id ws,
      open_sockets-close_where (λ w. w.guest_id == companion_id) h ws,
    )
