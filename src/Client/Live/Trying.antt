-- ===== src/Client/Live/Trying.antt =====
-- liveTransport.ts: the connection is not given up while the page runs with a network.
use focustown_public.Prelude.{
  ℕ, ◌≡◌, refl, arith, Bool, true, false, ◌&&◌, Option, none, some, is_some, List, [], ◌∷◌, lookup,
  insert, lookup-insert, ℕ_eq, Text, Json, ◌⊎◌, inl, inr, ◌≢◌, eqb_iff,
}
use focustown_public.Client.State.{
  Intent, cancel_intent, start_jojo_intent, typing_intent, extend_intent, leave_intent,
}
use focustown_public.Client.Live.{
  socket_opened, beat, on_message, socket_closed, wake, on_offline, on_online, offline_due,
  reconnect_due, start_live, stop_live, ask_live, is_present, Assoc, send_frame, has_alive,
  close_socket, hear, on_open, on_close, join_intent, answer_intent, send_intent, report_intent,
}
use focustown_public.Client.Connection.{
  gone, open_socket, LiveTransport, Ready, LiveSocket, StoredToken, new_live, keep_token,
  token_failed, token_ready, is_handled, set_ready, emit, connect_live, schedule_offline, Outgoing,
  schedule_reconnect, new_socket, put_ready, open_socket, is_current, gone, asked_frame,
}
use focustown_public.Client.Live.History.{
  Happening, happen, happen_all, started, token_kept, opened, closed_with, frame_came, called,
  stopped, token_came, token_lost, woke, went_offline, went_online, heartbeat_ticked, offline_timed,
  reconnect_timed,
}

-- The socket, if there is one, is not gone and has its handlers.
unfoldable pub is_held : Option LiveSocket → Bool
unfolding is_present is_handled
is_held o = is_present o && is_handled o

pub record IsTrying (s : LiveTransport) : Type 0 where
  pub held : (id : ℕ) → s.socket ≡ some id → is_held (lookup id s.sockets) ≡ true
  pub trying :
      s.running ≡ true
      → s.network_offline ≡ false
      → (s.connecting ≡ true) ⊎ (is_some s.reconnect_timer ≡ true) ⊎ (is_some s.socket ≡ true)

is_held-insert :
    (id j : ℕ) (k : LiveSocket) (m : Assoc ℕ LiveSocket)
    → is_held (some k) ≡ true
    → (id ≡ j) ⊎ (is_held (lookup j m) ≡ true)
    → is_held (lookup j (insert id k m)) ≡ true
is_held-insert id j k m h (inl e) = ground (arith, h, lookup-insert id j k m, eqb_iff id j)
is_held-insert id j k m h (inr g) = ground (arith, h, g, lookup-insert id j k m)

-- Another readyState than `gone` leaves what is held; so does anything done to another socket.
is_held-put_ready :
    (id j : ℕ) (state : Ready) (o : Option LiveSocket) (s : LiveTransport)
    → lookup id s.sockets ≡ o
    → (is_present (some (record { ready_state = state; handled = true })) ≡ true) ⊎ (id ≢ j)
    → is_held (lookup j s.sockets) ≡ true
    → is_held (lookup j (put_ready id state o s).sockets) ≡ true
unfolding put_ready is_held is_present is_handled
is_held-put_ready id j state none s e c h = h
is_held-put_ready id j state (some k) s e c h =
    let l = lookup-insert id j (record k { ready_state = state }) s.sockets in
    ground (arith, c, h, e, l, eqb_iff id j)

module _ (s : LiveTransport) (v : IsTrying s) where
  IsTrying-start_live : (b : Bool) → IsTrying (start_live b s)
  unfolding start_live connect_live emit
  IsTrying-start_live b = ground (arith, v)

  IsTrying-stop_live : IsTrying (stop_live s)
  unfolding stop_live close_socket
  IsTrying-stop_live = ground (arith, v)

  IsTrying-token_ready : IsTrying (token_ready s)
  unfolding token_ready
  IsTrying-token_ready = record {
    held = λ id h. ground (
      arith,
      v.held id,
      h,
      is_held-insert s.made id new_socket s.sockets (unfold is_held is_present is_handled in refl),
    );
    trying = λ a b. ground (arith, v.trying);
  }

  IsTrying-token_failed : (now : ℕ) → IsTrying (token_failed now s)
  unfolding token_failed schedule_offline schedule_reconnect
  IsTrying-token_failed now = ground (arith, v)

  IsTrying-keep_token :
      (now : ℕ) (token : Text) (t : Option ℕ) → IsTrying (keep_token now token t s)
  unfolding keep_token
  IsTrying-keep_token now token t = ground (arith, v)

  IsTrying-wake : IsTrying (wake s)
  unfolding wake connect_live emit has_alive
  IsTrying-wake = ground (arith, v)

  IsTrying-on_offline : IsTrying (on_offline s)
  unfolding on_offline emit close_socket
  IsTrying-on_offline = ground (arith, v)

  IsTrying-beat : (now : ℕ) → IsTrying (beat now s)
  unfolding beat
  IsTrying-beat now = ground (arith, v)

  IsTrying-on_message :
      (parse_date : Text → Option ℕ) (now id : ℕ) (f : Json)
      → IsTrying (on_message parse_date now id f s)
  unfolding on_message hear emit
  IsTrying-on_message parse_date now id f = ground (arith, v)

  IsTrying-offline_due : (now : ℕ) → IsTrying (offline_due now s)
  unfolding offline_due emit
  IsTrying-offline_due now = ground (arith, v)

  IsTrying-reconnect_due : (now : ℕ) → IsTrying (reconnect_due now s)
  unfolding reconnect_due connect_live emit
  IsTrying-reconnect_due now = ground (arith, v)

  IsTrying-send_frame : (queue : Bool) (f : Outgoing) → IsTrying (send_frame queue f s)
  unfolding send_frame
  IsTrying-send_frame queue f = ground (arith, v)

  IsTrying-socket_opened : (now id : ℕ) → IsTrying (socket_opened now id s)
  unfolding socket_opened on_open emit set_ready
  IsTrying-socket_opened now id = record {
    held = λ j h. ground (
      arith,
      v.held j,
      h,
      is_held-put_ready id j open_socket (lookup id s.sockets) s refl
          (inl (unfold is_present in refl)),
    );
    trying = λ a b. ground (arith, v.trying);
  }

  IsTrying-socket_closed : (now id code : ℕ) → IsTrying (socket_closed now id code s)
  unfolding socket_closed on_close emit schedule_offline schedule_reconnect set_ready is_current
      is_held
  IsTrying-socket_closed now id code = record {
    held = λ j h. ground (
      arith,
      v.held j,
      h,
      eqb_iff id j,
      is_held-put_ready id j gone (lookup id s.sockets) s refl,
    );
    trying = λ a b. ground (arith, v.trying, v.held id);
  }

  IsTrying-ask_live : (i : Intent) → IsTrying (ask_live i s)
  unfolding ask_live
  IsTrying-ask_live (join_intent r) = IsTrying-send_frame true (asked_frame (join_intent r))
  IsTrying-ask_live cancel_intent = IsTrying-send_frame true (asked_frame cancel_intent)
  IsTrying-ask_live (answer_intent id b) =
      IsTrying-send_frame false (asked_frame (answer_intent id b))
  IsTrying-ask_live start_jojo_intent = IsTrying-send_frame false (asked_frame start_jojo_intent)
  IsTrying-ask_live (send_intent text) = IsTrying-send_frame true (asked_frame (send_intent text))
  IsTrying-ask_live typing_intent = IsTrying-send_frame false (asked_frame typing_intent)
  IsTrying-ask_live extend_intent = IsTrying-send_frame true (asked_frame extend_intent)
  IsTrying-ask_live leave_intent = unfold send_frame in ground (arith, v)
  IsTrying-ask_live (report_intent reason note) = v

  IsTrying-happen :
      (parse_date : Text → Option ℕ) (now : ℕ) (h : Happening)
      → IsTrying (happen parse_date now h s)
  unfolding happen
  IsTrying-happen parse_date now (started b) = IsTrying-start_live b
  IsTrying-happen parse_date now stopped = IsTrying-stop_live
  IsTrying-happen parse_date now token_came = IsTrying-token_ready
  IsTrying-happen parse_date now token_lost = IsTrying-token_failed now
  IsTrying-happen parse_date now (token_kept token t) = IsTrying-keep_token now token t
  IsTrying-happen parse_date now woke = IsTrying-wake
  IsTrying-happen parse_date now went_offline = IsTrying-on_offline
  IsTrying-happen parse_date now went_online =
      unfold on_online wake connect_live emit has_alive in ground (arith, v)
  IsTrying-happen parse_date now (opened id) = IsTrying-socket_opened now id
  IsTrying-happen parse_date now (closed_with id code) = IsTrying-socket_closed now id code
  IsTrying-happen parse_date now (frame_came id frame) = IsTrying-on_message parse_date now id frame
  IsTrying-happen parse_date now heartbeat_ticked = IsTrying-beat now
  IsTrying-happen parse_date now offline_timed = IsTrying-offline_due now
  IsTrying-happen parse_date now reconnect_timed = IsTrying-reconnect_due now
  IsTrying-happen parse_date now (called intent) = IsTrying-ask_live intent

happen_all-IsTrying :
    (parse_date : Text → Option ℕ) (hs : List (ℕ × Happening)) (s : LiveTransport)
    → IsTrying s
    → IsTrying (happen_all parse_date hs s)
unfolding happen_all
happen_all-IsTrying parse_date [] s v = v
happen_all-IsTrying parse_date ((now, h) ∷ hs) s v =
    happen_all-IsTrying parse_date hs (happen parse_date now h s)
      (IsTrying-happen s v parse_date now h)

-- Whatever the browser, the clock, the network and the store do, in any order: while the transport
-- is started and the network is not known to be off, a token is awaited, or a reconnection is
-- scheduled, or there is a socket; and a socket that there is has its handlers and its close event
-- still to come.
pub never_given_up :
    (parse_date : Text → Option ℕ) (hs : List (ℕ × Happening)) (stored : Option StoredToken)
    → IsTrying (happen_all parse_date hs (new_live stored))
never_given_up parse_date hs stored =
    happen_all-IsTrying parse_date hs (new_live stored)
      (record { held = λ id h. cc h; trying = λ a b. cc a })
