-- ===== src/Client/Live/Waiting.antt =====
-- liveTransport.ts: what is asked for while there is no open socket, whatever else happens until one
-- opens.
use focustown_public.Prelude.{
  ◌++◌, ◌+◌, ℕ, ◌≡◌, refl, arith, Bool, true, false, Option, none, some, List, [], ◌∷◌, lookup,
  ℕ_eq, Assoc, if◌then◌else◌, Text, sym, ◌≤◌, append-nil, insert, lookup-insert, eqb_iff, subst,
}
use focustown_public.Client.State.{Intent}
use focustown_public.Client.Live.{
  beat, socket_closed, wake, on_offline, on_online, offline_due, reconnect_due, start_live,
  ask_live, has_alive, close_socket, on_close, open_id, length, map,
}
use focustown_public.Client.Connection.{
  LiveTransport, LiveSocket, keep_token, token_failed, token_ready, set_ready, emit, connect_live,
  schedule_offline, schedule_reconnect, new_socket, put_ready, asked_frame, outbox_max, Outgoing,
  is_open_socket, is_current, gone,
}
use focustown_public.Client.Live.History.{
  Happening, happen, started, token_kept, opened, closed_with, frame_came, called, stopped,
  token_came, token_lost, woke, went_offline, went_online, heartbeat_ticked, offline_timed,
  reconnect_timed,
}
use focustown_public.Client.Live.Outbox.{IsQueued, ask_live-queued}

-- There is no open socket, and no heartbeat.
abbrev pub IsShut : LiveTransport → Type 0
IsShut s =
    ((id : ℕ) → s.socket ≡ some id → is_open_socket (lookup id s.sockets) ≡ false)
    × (s.heartbeat_timer ≡ none)

shut_open :
    (m : Assoc ℕ LiveSocket) (o : Option ℕ)
    → ((id : ℕ) → o ≡ some id → is_open_socket (lookup id m) ≡ false)
    → (elim o [ none ↦ none | some id ↦ if is_open_socket (lookup id m) then some id else none ])
      ≡ none
shut_open m none v = refl
shut_open m (some id) v = rw (v id refl) refl

open_id-IsShut : (s : LiveTransport) → IsShut s → open_id s ≡ none
unfolding open_id
open_id-IsShut s (v, n) = shut_open s.sockets s.socket v

-- Everything but a socket that opens, a frame that comes, the end of the page, and what is asked for
-- without waiting for a socket.
abbrev pub IsPassing : ℕ × Happening → Type 0
IsPassing (now, opened id) = ⊥
IsPassing (now, frame_came id frame) = ⊥
IsPassing (now, stopped) = ⊥
IsPassing (now, called i) = IsQueued i
IsPassing _ = Unit {0}

-- What is asked for in one happening.
unfoldable pub asked_by : Happening → List Intent
asked_by (called i) = i ∷ []
asked_by _ = []

-- The step leaves the socket shut, and sends nothing.
abbrev pub Waits : LiveTransport → LiveTransport → List Outgoing → Type 0
Waits s t fs = IsShut t × (t.sent ≡ s.sent) × (t.outbox ≡ s.outbox ++ fs)

module _ (parse_date : Text → Option ℕ) (s : LiveTransport) (v : IsShut s) where
  same-Waits : Waits s s []
  same-Waits = (v, refl, sym (append-nil s.outbox))

  connect_live-Waits : Waits s (connect_live s) []
  unfolding connect_live emit
  connect_live-Waits = ground (arith, v, append-nil s.outbox)

  schedule_offline-Waits : (now : ℕ) → Waits s (schedule_offline now s) []
  unfolding schedule_offline
  schedule_offline-Waits now = ground (arith, v, append-nil s.outbox)

  token_lost-Waits : (now : ℕ) → Waits s (token_failed now s) []
  unfolding token_failed schedule_offline schedule_reconnect
  token_lost-Waits now = ground (arith, v, append-nil s.outbox)

  keep_token-Waits : (now : ℕ) (token : Text) (t : Option ℕ) → Waits s (keep_token now token t s) []
  unfolding keep_token
  keep_token-Waits now token t = ground (arith, v, append-nil s.outbox)

  started-Waits : (b : Bool) → Waits s (start_live b s) []
  unfolding start_live connect_live emit
  started-Waits b = ground (arith, v, append-nil s.outbox)

  woke-Waits : Waits s (wake s) []
  unfolding wake connect_live emit
  woke-Waits = ground (arith, v, append-nil s.outbox)

  online-Waits : Waits s (on_online s) []
  unfolding on_online wake has_alive connect_live emit
  online-Waits = ground (arith, v, append-nil s.outbox)

  offline_due-Waits : (now : ℕ) → Waits s (offline_due now s) []
  unfolding offline_due emit
  offline_due-Waits now = ground (arith, v, append-nil s.outbox)

  reconnect_due-Waits : (now : ℕ) → Waits s (reconnect_due now s) []
  unfolding reconnect_due connect_live emit
  reconnect_due-Waits now = ground (arith, v, append-nil s.outbox)

  beat-Waits : (now : ℕ) → Waits s (beat now s) []
  unfolding beat
  beat-Waits now = ground (arith, v, append-nil s.outbox)

  gone_offline-Waits : Waits s (on_offline s) []
  unfolding on_offline emit close_socket
  gone_offline-Waits = ground (arith, v, append-nil s.outbox)

  made_shut :
      (id : ℕ)
      → some s.made ≡ some id
      → is_open_socket (lookup id (insert s.made new_socket s.sockets)) ≡ false
  unfolding is_open_socket
  made_shut id e =
      let same : s.made ≡ id = cc in
      subst (λ i. is_open_socket (lookup i (insert s.made new_socket s.sockets)) ≡ false) same
        (rw (lookup-insert s.made s.made new_socket s.sockets)
          (ground (arith, eqb_iff s.made s.made)))

  token_ready-Waits : Waits s (token_ready s) []
  unfolding token_ready
  token_ready-Waits = let made = made_shut in ground (arith, v, append-nil s.outbox, made)

  -- A socket that is gone is not open, and the others are as before.
  gone_shut :
      (id j : ℕ) (k : LiveSocket)
      → s.socket ≡ some j
      → is_open_socket (lookup j (insert id (record k { ready_state = gone }) s.sockets)) ≡ false
  unfolding is_open_socket
  gone_shut id j k e =
      let shut = v.0 j e in
      rw (lookup-insert id j (record k { ready_state = gone }) s.sockets) (ground (arith, shut))

  gone_kept :
      (b : Bool) (id j : ℕ) (k : LiveSocket)
      → (if b then none else s.socket) ≡ some j
      → is_open_socket (lookup j (insert id (record k { ready_state = gone }) s.sockets)) ≡ false
  gone_kept true id j k e = cc
  gone_kept false id j k e = gone_shut id j k e

  left_shut :
      (b : Bool) (j : ℕ)
      → (if b then none else s.socket) ≡ some j
      → is_open_socket (lookup j s.sockets) ≡ false
  left_shut true j e = cc
  left_shut false j e = v.0 j e

  set_gone : (id : ℕ) (o : Option LiveSocket) → Waits s (put_ready id gone o s) []
  unfolding put_ready
  set_gone id none = same-Waits
  set_gone id (some k) = ((λ j. gone_shut id j k, v.1), refl, sym (append-nil s.outbox))

  closed_gone :
      (now id code : ℕ) (o : Option LiveSocket)
      → Waits s (on_close now id code (put_ready id gone o s)) []
  unfolding put_ready on_close emit schedule_offline schedule_reconnect
  closed_gone now id code none =
      let kept = left_shut (is_current id s.socket) in ground (arith, kept, v, append-nil s.outbox)
  closed_gone now id code (some k) =
      let kept : (j : ℕ)
          → (if is_current id s.socket then none else s.socket) ≡ some j
          → is_open_socket (lookup j (insert id (record k { ready_state = gone }) s.sockets))
            ≡ false =
        λ j. gone_kept (is_current id s.socket) id j k in
      ground (arith, kept, v.1, append-nil s.outbox)

  closed-Waits : (now id code : ℕ) → Waits s (socket_closed now id code s) []
  unfolding socket_closed set_ready
  closed-Waits now id code =
      let set = set_gone id (lookup id s.sockets) in
      let closed = closed_gone now id code (lookup id s.sockets) in
      ground (arith, same-Waits, set, closed)

  called-Waits :
      (i : Intent)
      → IsQueued i
      → length s.outbox + 1 ≤ outbox_max
      → Waits s (ask_live i s) (asked_frame i ∷ [])
  called-Waits i q h =
      rw (ask_live-queued i s q (open_id-IsShut s v) (omega (arith, h))) (v, refl, refl)

  pub happen-Waits :
      (now : ℕ) (h : Happening)
      → IsPassing (now, h)
      → length s.outbox + length (asked_by h) ≤ outbox_max
      → Waits s (happen parse_date now h s) (map asked_frame (asked_by h))
  unfolding happen asked_by
  happen-Waits now (started b) p r = started-Waits b
  happen-Waits now stopped p r = absurd p
  happen-Waits now token_came p r = token_ready-Waits
  happen-Waits now token_lost p r = token_lost-Waits now
  happen-Waits now (token_kept token t) p r = keep_token-Waits now token t
  happen-Waits now woke p r = woke-Waits
  happen-Waits now went_offline p r = gone_offline-Waits
  happen-Waits now went_online p r = online-Waits
  happen-Waits now (opened id) p r = absurd p
  happen-Waits now (closed_with id code) p r = closed-Waits now id code
  happen-Waits now (frame_came id frame) p r = absurd p
  happen-Waits now heartbeat_ticked p r = beat-Waits now
  happen-Waits now offline_timed p r = offline_due-Waits now
  happen-Waits now reconnect_timed p r = reconnect_due-Waits now
  happen-Waits now (called i) p r = called-Waits i p (omega (arith, r))
