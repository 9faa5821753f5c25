-- ===== src/Client/Connection.antt =====
-- frontend/lib/lbt/liveTransport.ts: what the connection keeps; tokens, sockets and reconnecting. A
-- socket is named by a number, and is `gone` once its close event has been delivered; `handled` is
-- whether its handlers are attached. What awaits a guest token goes on at `token_ready` or
-- `token_failed`. Timers keep when they are due.
use focustown_public.Prelude.{
  ℕ, ◌+◌, ◌*◌, ◌^◌, min, Bool, true, false, not, ◌||◌, Option, none, some, List, [], ◌∷◌, ◌++◌, ltb,
  eqb, if◌then◌else◌, Text, Assoc, lookup, insert, ℕ_eq,
}
use focustown_public.Client.State.{TransportEvent, connection_event, connecting, Intent}

abbrev pub outbox_max : ℕ
outbox_max = 20

abbrev pub token_margin_ms : ℕ
token_margin_ms = 600000

abbrev pub offline_grace_ms : ℕ
offline_grace_ms = 2500

abbrev pub heartbeat_ms : ℕ
heartbeat_ms = 15000

pub record StoredToken : Type 0 where
  pub token : Text
  pub expires_at : ℕ

pub data Ready : Type 0 where
  connecting_socket open_socket closing gone : Ready

pub record LiveSocket : Type 0 where
  pub ready_state : Ready
  pub handled : Bool

abbrev pub new_socket : LiveSocket
new_socket = record { ready_state = connecting_socket; handled = true }

-- A frame that goes out: what the store asked for, or a heartbeat.
pub data Outgoing : Type 0 where
  asked_frame : Intent → Outgoing
  heartbeat_frame : Outgoing

-- The variables of createLiveTransport, the sockets it has made, what it has emitted while there
-- was a listener, and what went out on which socket.
pub record LiveTransport : Type 0 where
  pub listener : Bool
  pub socket : Option ℕ
  pub running : Bool
  pub attempt : ℕ
  pub reconnect_timer : Option ℕ
  pub heartbeat_timer : Option (ℕ × ℕ)
  pub offline_timer : Option ℕ
  pub connecting : Bool
  pub network_offline : Bool
  pub outbox : List Outgoing
  pub stored : Option StoredToken
  pub sockets : Assoc ℕ LiveSocket
  pub made : ℕ
  pub emitted : List TransportEvent
  pub sent : List (ℕ × Outgoing)

abbrev pub new_live : Option StoredToken → LiveTransport
new_live stored = record {
  listener = false;
  socket = none;
  running = false;
  attempt = 0;
  reconnect_timer = none;
  heartbeat_timer = none;
  offline_timer = none;
  connecting = false;
  network_offline = false;
  outbox = [];
  stored = stored;
  sockets = [];
  made = 0;
  emitted = [];
  sent = [];
}

unfoldable pub emit : TransportEvent → LiveTransport → LiveTransport
emit event s = if s.listener then record s { emitted = s.emitted ++ event ∷ [] } else s

unfoldable pub schedule_offline : ℕ → LiveTransport → LiveTransport
schedule_offline now s = record s { offline_timer = some (now + offline_grace_ms) }

-- `parsed.expiresAt - now() > TOKEN_MARGIN_MS`
unfoldable pub read_token : ℕ → Option StoredToken → Option Text
read_token now none = none
read_token now (some t) = if ltb (now + token_margin_ms) t.expires_at then some t.token else none

-- What guestToken keeps of an answer: `Date.parse` of its end, or now.
unfoldable pub keep_token : ℕ → Text → Option ℕ → LiveTransport → LiveTransport
keep_token now token none s = record s {
  stored = some (record { token = token; expires_at = now });
}
keep_token now token (some t) s = record s {
  stored = some (record { token = token; expires_at = t });
}

unfoldable pub reconnect_delay : ℕ → Bool → ℕ
reconnect_delay attempt slow = min 15000 (1000 * 2 ^ attempt) * (if slow then 2 else 1)

unfoldable pub schedule_reconnect : ℕ → Bool → LiveTransport → LiveTransport
unfolding reconnect_delay
schedule_reconnect now slow s = record s {
  reconnect_timer = some (now + reconnect_delay s.attempt slow);
  attempt = s.attempt + 1;
}

-- connect_live, up to where the token is awaited
unfoldable pub connect_live : LiveTransport → LiveTransport
unfolding emit
connect_live s =
    if not s.running || s.connecting || s.network_offline
    then s
    else emit (connection_event connecting) (record s { connecting = true })

unfoldable pub token_failed : ℕ → LiveTransport → LiveTransport
unfolding schedule_offline schedule_reconnect
token_failed now s =
    let t = record s { connecting = false } in
    if not s.connecting
    then s
    else if not s.running || s.network_offline
    then t
    else schedule_reconnect now false (schedule_offline now t)

unfoldable pub token_ready : LiveTransport → LiveTransport
token_ready s =
    if not s.connecting
    then s
    else if not s.running || s.network_offline
    then record s { connecting = false }
    else record s {
      connecting = false;
      socket = some s.made;
      made = s.made + 1;
      sockets = insert s.made new_socket s.sockets;
    }

unfoldable pub is_open_socket : Option LiveSocket → Bool
is_open_socket none = false
is_open_socket (some k) = elim k.ready_state [ open_socket ↦ true | _ ↦ false ]

-- CONNECTING or OPEN
unfoldable pub is_alive : Option LiveSocket → Bool
is_alive none = false
is_alive (some k) = elim k.ready_state [ open_socket ↦ true | connecting_socket ↦ true | _ ↦ false ]

unfoldable pub is_handled : Option LiveSocket → Bool
is_handled none = false
is_handled (some k) = k.handled

unfoldable pub is_current : ℕ → Option ℕ → Bool
is_current id none = false
is_current id (some k) = eqb k id

-- A readyState that the browser changes, of a socket that there is.
unfoldable pub put_ready : ℕ → Ready → Option LiveSocket → LiveTransport → LiveTransport
put_ready id state none s = s
put_ready id state (some k) s = record s {
  sockets = insert id (record k { ready_state = state }) s.sockets;
}

unfoldable pub set_ready : ℕ → Ready → LiveTransport → LiveTransport
unfolding put_ready
set_ready id state s = put_ready id state (lookup id s.sockets) s
