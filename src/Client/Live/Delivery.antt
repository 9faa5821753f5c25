-- ===== src/Client/Live/Delivery.antt =====
-- liveTransport.ts: the outbox over any course of events, up to when a socket opens.
use focustown_public.Prelude.{
  ◌++◌, ◌+◌, ℕ, ◌≡◌, refl, arith, Option, some, List, [], ◌∷◌, lookup, ℕ_eq, Text, sym, ◌∙◌, ap,
  All, ◌≤◌, append-nil, length-append, append_assoc,
}
use focustown_public.Client.State.{Intent}
use focustown_public.Client.Live.{socket_opened, length, map}
use focustown_public.Client.Connection.{LiveTransport, new_socket, asked_frame, outbox_max}
use focustown_public.Client.Live.History.{Happening, happen, happen_all}
use focustown_public.Client.Live.Outbox.{on_socket, opened-sends}
use focustown_public.Client.Live.Waiting.{IsShut, IsPassing, Waits, asked_by, happen-Waits}

-- What is asked for in all.
unfoldable pub all_asked : List (ℕ × Happening) → List Intent
all_asked [] = []
all_asked ((now, h) ∷ hs) = asked_by h ++ all_asked hs

map_asked :
    (is js : List Intent) → map asked_frame (is ++ js) ≡ map asked_frame is ++ map asked_frame js
map_asked [] js = refl
map_asked (i ∷ is) js = ap (λ l. asked_frame i ∷ l) (map_asked is js)

join-Waits :
    (s t u : LiveTransport) (is js : List Intent)
    → Waits s t (map asked_frame is)
    → Waits t u (map asked_frame js)
    → Waits s u (map asked_frame (is ++ js))
join-Waits s t u is js (v, same, waits) (v', same', waits') = (
  v',
  same' ∙ same,
  waits'
      ∙ ap (λ fs. fs ++ map asked_frame js) waits
      ∙ append_assoc s.outbox (map asked_frame is) (map asked_frame js)
      ∙ ap (λ fs. s.outbox ++ fs) (sym (map_asked is js)),
)

length_asked : (is : List Intent) → length (map asked_frame is) ≡ length is
length_asked [] = refl
length_asked (i ∷ is) = omega (arith, length_asked is)

module _ (parse_date : Text → Option ℕ) where
  -- Until a socket opens, what is asked for is put behind what waits.
  happen_all-Waits :
      (hs : List (ℕ × Happening)) (s : LiveTransport)
      → IsShut s
      → All IsPassing hs
      → length s.outbox + length (all_asked hs) ≤ outbox_max
      → Waits s (happen_all parse_date hs s) (map asked_frame (all_asked hs))
  unfolding happen_all all_asked
  happen_all-Waits [] s v p r = (v, refl, sym (append-nil s.outbox))
  happen_all-Waits ((now, h) ∷ hs) s v p r =
      let count = length-append (asked_by h) (all_asked hs) in
      let step = happen-Waits parse_date s v now h p.0 (omega (arith, r, count)) in
      let longer = length-append s.outbox (map asked_frame (asked_by h)) in
      let t = happen parse_date now h s in
      let grown : length t.outbox ≡ length s.outbox + length (asked_by h) =
        ap length step.2 ∙ longer ∙ ap (λ n. length s.outbox + n) (length_asked (asked_by h)) in
      join-Waits s t (happen_all parse_date hs t) (asked_by h) (all_asked hs) step
        (happen_all-Waits hs t step.0 p.1 (omega (arith, r, count, grown)))

  -- From a state in which no socket is open, no heartbeat runs and nothing waits, whatever the
  -- timers, tokens, closing sockets and the network do, in any order, up to when a socket opens: of
  -- up to twenty things that are asked for meanwhile (joining, cancelling, messages and
  -- extensions), each goes out once on the socket that opens, in the order in which they were asked
  -- for, and nothing waits any more; provided that until then no frame comes, the page is not left,
  -- and nothing else is asked for.
  pub outbox_delivered :
      (hs : List (ℕ × Happening)) (now id : ℕ) (s : LiveTransport)
      → IsShut s
      → s.outbox ≡ []
      → All IsPassing hs
      → length (all_asked hs) ≤ outbox_max
      → lookup id (happen_all parse_date hs s).sockets ≡ some new_socket
      → ((socket_opened now id (happen_all parse_date hs s)).sent
          ≡ s.sent ++ map (λ i. on_socket id (asked_frame i)) (all_asked hs))
        × ((socket_opened now id (happen_all parse_date hs s)).outbox ≡ [])
  outbox_delivered hs now id s v n p h e =
      let (v', same, waits) = happen_all-Waits hs s v p (rw n (omega (arith, h))) in
      opened-sends (all_asked hs) now id s (happen_all parse_date hs s) e same
        (waits ∙ ap (λ fs. fs ++ map asked_frame (all_asked hs)) n)
