-- ===== src/Client/Live.antt =====
-- frontend/lib/lbt/liveTransport.ts: the connection of a visitor's page, as the browser drives it.
pub mod History
pub mod Trying
pub mod Outbox
pub mod Waiting
pub mod Delivery
use focustown_public.Prelude.{
  ℕ, ◌+◌, ◌-◌, ◌*◌, ◌^◌, min, Bool, true, false, not, ◌&&◌, ◌||◌, Option, none, some, is_some, List,
  [], ◌∷◌, ◌++◌, map, ltb, leb, eqb, if◌then◌else◌, length, Text, Json, Assoc, lookup, insert, ℕ_eq,
}
use focustown_public.Client.State.{
  TransportEvent, connection_event, ended_event, idle_event, connecting, open_connection, offline,
  Intent, join_intent, cancel_intent, start_jojo_intent, typing_intent, extend_intent, leave_intent,
  answer_intent, send_intent, report_intent,
}
use focustown_public.Client.Frames.{map_server_frame}
use focustown_public.Client.Connection.{
  outbox_max, token_margin_ms, offline_grace_ms, heartbeat_ms, StoredToken, Ready, LiveSocket,
  new_socket, Outgoing, LiveTransport, new_live, emit, schedule_offline, read_token, keep_token,
  reconnect_delay, schedule_reconnect, connect_live, token_failed, token_ready, is_open_socket,
  is_alive, is_handled, is_current, put_ready, set_ready, connecting_socket, open_socket, closing,
  gone, asked_frame, heartbeat_frame,
}

-- onopen, which finds its socket open
unfoldable pub on_open : ℕ → ℕ → LiveTransport → LiveTransport
unfolding emit
on_open now id s =
    let t =
      emit (connection_event open_connection) (record s { attempt = 0; offline_timer = none }) in
    record t {
      sent = t.sent ++ map (λ f. (id, f)) t.outbox;
      outbox = [];
      heartbeat_timer = some (id, now + heartbeat_ms);
    }

-- The browser opens a socket that is connecting, and closes one that is not gone.
unfoldable pub is_connecting : Option LiveSocket → Bool
is_connecting none = false
is_connecting (some k) = elim k.ready_state [ connecting_socket ↦ true | _ ↦ false ]

unfoldable pub is_present : Option LiveSocket → Bool
is_present none = false
is_present (some k) = elim k.ready_state [ gone ↦ false | _ ↦ true ]

unfoldable pub socket_opened : ℕ → ℕ → LiveTransport → LiveTransport
unfolding set_ready on_open is_handled is_connecting
socket_opened now id s =
    let t = set_ready id open_socket s in
    if not (is_connecting (lookup id s.sockets))
    then s
    else if is_handled (lookup id s.sockets)
    then on_open now id t
    else t

-- The interval of onopen.
unfoldable pub beat : ℕ → LiveTransport → LiveTransport
unfolding is_open_socket
beat now s = elim s.heartbeat_timer [
  | none ↦ s
  | some (id, due) ↦
      if ltb now due
      then s
      else if is_open_socket (lookup id s.sockets)
      then record s {
        heartbeat_timer = some (id, now + heartbeat_ms);
        sent = s.sent ++ (id, heartbeat_frame) ∷ [];
      }
      else record s { heartbeat_timer = some (id, now + heartbeat_ms) }
]

unfoldable pub ends_session : TransportEvent → Bool
ends_session (ended_event reason) = true
ends_session idle_event = true
ends_session _ = false

unfoldable pub hear : Option TransportEvent → LiveTransport → LiveTransport
unfolding ends_session emit
hear none s = s
hear (some event) s = emit event (if ends_session event then record s { outbox = [] } else s)

-- onmessage, with the frame where it is a JSON text
unfoldable pub on_message : (Text → Option ℕ) → ℕ → ℕ → Json → LiveTransport → LiveTransport
unfolding hear is_handled
on_message parse_date now id frame s =
    if is_handled (lookup id s.sockets) then hear (map_server_frame parse_date frame now) s else s

unfoldable pub on_close : ℕ → ℕ → ℕ → LiveTransport → LiveTransport
unfolding is_current emit schedule_offline schedule_reconnect
on_close now id code s =
    let t = record s {
      heartbeat_timer = none;
      socket = if is_current id s.socket then none else s.socket;
    } in
    let u = schedule_offline now (emit (connection_event connecting) t) in
    if not s.running
    then t
    else schedule_reconnect now (eqb code 4429)
        (if eqb code 4401 then record u { stored = none } else u)

unfoldable pub socket_closed : ℕ → ℕ → ℕ → LiveTransport → LiveTransport
unfolding set_ready on_close is_handled is_present
socket_closed now id code s =
    let t = set_ready id gone s in
    if not (is_present (lookup id s.sockets))
    then s
    else if is_handled (lookup id s.sockets)
    then on_close now id code t
    else t

-- `socket && (socket.readyState === CONNECTING || socket.readyState === OPEN)`
unfoldable pub has_alive : LiveTransport → Bool
unfolding is_alive
has_alive s = elim s.socket [ none ↦ false | some id ↦ is_alive (lookup id s.sockets) ]

unfoldable pub wake : LiveTransport → LiveTransport
unfolding has_alive connect_live
wake s =
    if not s.running || s.connecting
    then s
    else if has_alive s
    then s
    else connect_live (record s { reconnect_timer = none; attempt = 0 })

-- `ws.close(1000)`, for a socket that is not gone
unfoldable pub close_socket : ℕ → Bool → LiveTransport → LiveTransport
close_socket id handled s = elim (lookup id s.sockets) [
  | none ↦ s
  | some k ↦ record s {
    sockets =
        insert id (record { ready_state = closing; handled = handled && k.handled }) s.sockets;
  }
]

unfoldable pub on_offline : LiveTransport → LiveTransport
unfolding emit close_socket
on_offline s =
    let t = record s {
      network_offline = true;
      reconnect_timer = none;
      offline_timer = none;
      heartbeat_timer = none;
      socket = none;
    } in
    if not s.running
    then s
    else emit (connection_event offline)
        (elim s.socket [ none ↦ t | some id ↦ close_socket id false t ])

unfoldable pub on_online : LiveTransport → LiveTransport
unfolding wake
on_online s = wake (record s { network_offline = false })

-- setTimeout's callbacks, when they are due
unfoldable pub is_due : ℕ → Option ℕ → Bool
is_due now none = false
is_due now (some t) = leb t now

unfoldable pub offline_due : ℕ → LiveTransport → LiveTransport
unfolding is_due emit
offline_due now s =
    let t = record s { offline_timer = none } in
    if is_due now s.offline_timer
    then if s.running then emit (connection_event offline) t else t
    else s

unfoldable pub reconnect_due : ℕ → LiveTransport → LiveTransport
unfolding is_due connect_live
reconnect_due now s =
    if is_due now s.reconnect_timer then connect_live (record s { reconnect_timer = none }) else s

-- start, with whether the browser is offline, and the function that it returns
unfoldable pub start_live : Bool → LiveTransport → LiveTransport
unfolding emit connect_live
start_live is_offline s =
    let t = record s { listener = true; running = true; network_offline = is_offline } in
    if is_offline then emit (connection_event offline) t else connect_live t

unfoldable pub stop_live : LiveTransport → LiveTransport
unfolding close_socket
stop_live s =
    let t = record s {
      running = false;
      listener = false;
      reconnect_timer = none;
      heartbeat_timer = none;
      offline_timer = none;
      outbox = [];
      socket = none;
    } in
    elim s.socket [ none ↦ t | some id ↦ close_socket id true t ]

-- `socket && socket.readyState === OPEN`
unfoldable pub open_id : LiveTransport → Option ℕ
unfolding is_open_socket
open_id s = elim s.socket [
  | none ↦ none
  | some id ↦ if is_open_socket (lookup id s.sockets) then some id else none
]

-- send, with whether to queue
unfoldable pub send_frame : Bool → Outgoing → LiveTransport → LiveTransport
unfolding open_id
send_frame queue frame s = elim (open_id s) [
  | none ↦
      if queue && ltb (length s.outbox) outbox_max
      then record s { outbox = s.outbox ++ frame ∷ [] }
      else s
  | some id ↦ record s { sent = s.sent ++ (id, frame) ∷ [] }
]

-- What the store asks for; a report goes over HTTP.
unfoldable pub ask_live : Intent → LiveTransport → LiveTransport
unfolding send_frame
ask_live (join_intent request) s = send_frame true (asked_frame (join_intent request)) s
ask_live cancel_intent s = send_frame true (asked_frame cancel_intent) s
ask_live (answer_intent id accept) s = send_frame false (asked_frame (answer_intent id accept)) s
ask_live start_jojo_intent s = send_frame false (asked_frame start_jojo_intent) s
ask_live (send_intent text) s = send_frame true (asked_frame (send_intent text)) s
ask_live typing_intent s = send_frame false (asked_frame typing_intent) s
ask_live extend_intent s = send_frame true (asked_frame extend_intent) s
ask_live leave_intent s = send_frame true (asked_frame leave_intent) (record s { outbox = [] })
ask_live (report_intent reason note) s = s
