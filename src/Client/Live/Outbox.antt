-- ===== src/Client/Live/Outbox.antt =====
-- liveTransport.ts: the outbox, in which what the visitor does waits for a socket.
use focustown_public.Prelude.{
  ◌++◌, ◌+◌, length-append, ℕ, ◌≡◌, refl, arith, Bool, true, false, Option, none, some, List, [],
  ◌∷◌, lookup, ℕ_eq, Text, Json, ◌∙◌, ap, ◌<◌, ◌≤◌,
}
use focustown_public.Client.State.{
  Intent, cancel_intent, start_jojo_intent, typing_intent, extend_intent, leave_intent,
}
use focustown_public.Client.Live.{
  socket_opened, beat, on_message, socket_closed, wake, on_offline, on_online, offline_due,
  reconnect_due, start_live, stop_live, ask_live, send_frame, has_alive, close_socket, hear,
  on_open, on_close, join_intent, answer_intent, send_intent, report_intent, open_id, length, map,
  is_connecting,
}
use focustown_public.Client.Connection.{
  LiveTransport, StoredToken, new_live, keep_token, token_failed, token_ready, is_handled,
  set_ready, emit, connect_live, schedule_offline, Outgoing, schedule_reconnect, new_socket,
  put_ready, asked_frame, outbox_max,
}
use focustown_public.Client.Live.History.{
  Happening, happen, happen_all, started, token_kept, opened, closed_with, frame_came, called,
  stopped, token_came, token_lost, woke, went_offline, went_online, heartbeat_ticked, offline_timed,
  reconnect_timed,
}

abbrev IsFit : LiveTransport → Type 0
IsFit s = length s.outbox ≤ outbox_max

length-snoc : {A : Type 0} (xs : List A) (x : A) → length (xs ++ x ∷ []) ≡ length xs + 1
length-snoc xs x = length-append xs (x ∷ [])

module _ (s : LiveTransport) (v : IsFit s) where
  IsFit-send_frame : (queue : Bool) (f : Outgoing) → IsFit (send_frame queue f s)
  unfolding send_frame
  IsFit-send_frame queue f = ground (arith, v, length-snoc s.outbox f)

  IsFit-on_message :
      (parse_date : Text → Option ℕ) (now id : ℕ) (f : Json)
      → IsFit (on_message parse_date now id f s)
  unfolding on_message hear emit
  IsFit-on_message parse_date now id f = ground (arith, v)

  IsFit-socket_opened : (now id : ℕ) → IsFit (socket_opened now id s)
  unfolding socket_opened on_open emit set_ready put_ready
  IsFit-socket_opened now id = ground (arith, v)

  IsFit-socket_closed : (now id code : ℕ) → IsFit (socket_closed now id code s)
  unfolding socket_closed on_close emit schedule_offline schedule_reconnect set_ready put_ready
  IsFit-socket_closed now id code = ground (arith, v)

  IsFit-ask_live : (i : Intent) → IsFit (ask_live i s)
  unfolding ask_live
  IsFit-ask_live (join_intent r) = IsFit-send_frame true (asked_frame (join_intent r))
  IsFit-ask_live cancel_intent = IsFit-send_frame true (asked_frame cancel_intent)
  IsFit-ask_live (answer_intent id b) = IsFit-send_frame false (asked_frame (answer_intent id b))
  IsFit-ask_live start_jojo_intent = IsFit-send_frame false (asked_frame start_jojo_intent)
  IsFit-ask_live (send_intent text) = IsFit-send_frame true (asked_frame (send_intent text))
  IsFit-ask_live typing_intent = IsFit-send_frame false (asked_frame typing_intent)
  IsFit-ask_live extend_intent = IsFit-send_frame true (asked_frame extend_intent)
  IsFit-ask_live leave_intent = unfold send_frame in ground (arith, v)
  IsFit-ask_live (report_intent reason note) = v

  IsFit-happen :
      (parse_date : Text → Option ℕ) (now : ℕ) (h : Happening) → IsFit (happen parse_date now h s)
  unfolding happen
  IsFit-happen parse_date now (started b) = unfold start_live connect_live emit in ground (arith, v)
  IsFit-happen parse_date now stopped = unfold stop_live close_socket in ground (arith, v)
  IsFit-happen parse_date now token_came = unfold token_ready in ground (arith, v)
  IsFit-happen parse_date now token_lost =
      unfold token_failed schedule_offline schedule_reconnect in ground (arith, v)
  IsFit-happen parse_date now (token_kept token t) = unfold keep_token in ground (arith, v)
  IsFit-happen parse_date now woke = unfold wake connect_live emit in ground (arith, v)
  IsFit-happen parse_date now went_offline =
      unfold on_offline emit close_socket in ground (arith, v)
  IsFit-happen parse_date now went_online =
      unfold on_online wake connect_live emit has_alive in ground (arith, v)
  IsFit-happen parse_date now (opened id) = IsFit-socket_opened now id
  IsFit-happen parse_date now (closed_with id code) = IsFit-socket_closed now id code
  IsFit-happen parse_date now (frame_came id frame) = IsFit-on_message parse_date now id frame
  IsFit-happen parse_date now heartbeat_ticked = unfold beat in ground (arith, v)
  IsFit-happen parse_date now offline_timed = unfold offline_due emit in ground (arith, v)
  IsFit-happen parse_date now reconnect_timed =
      unfold reconnect_due connect_live emit in ground (arith, v)
  IsFit-happen parse_date now (called intent) = IsFit-ask_live intent

happen_all-IsFit :
    (parse_date : Text → Option ℕ) (hs : List (ℕ × Happening)) (s : LiveTransport)
    → IsFit s
    → IsFit (happen_all parse_date hs s)
unfolding happen_all
happen_all-IsFit parse_date [] s v = v
happen_all-IsFit parse_date ((now, h) ∷ hs) s v =
    happen_all-IsFit parse_date hs (happen parse_date now h s) (IsFit-happen s v parse_date now h)

-- Whatever the browser, the clock, the network and the store do, in any order: at most twenty
-- frames wait for a socket.
pub outbox_bounded :
    (parse_date : Text → Option ℕ) (hs : List (ℕ × Happening)) (stored : Option StoredToken)
    → length (happen_all parse_date hs (new_live stored)).outbox ≤ outbox_max
outbox_bounded parse_date hs stored = happen_all-IsFit parse_date hs (new_live stored) (omega arith)

-- What is queued while there is no open socket, a leave apart, which clears the queue.
unfoldable pub is_queued : Intent → Bool
is_queued (join_intent request) = true
is_queued cancel_intent = true
is_queued (send_intent text) = true
is_queued extend_intent = true
is_queued _ = false

abbrev pub IsQueued : Intent → Type 0
IsQueued i = is_queued i ≡ true

abbrev pub on_socket : ℕ → Outgoing → ℕ × Outgoing
on_socket id f = (id, f)

pub ask_live-queued :
    (i : Intent) (s : LiveTransport)
    → IsQueued i
    → open_id s ≡ none
    → length s.outbox < outbox_max
    → ask_live i s ≡ record s { outbox = s.outbox ++ asked_frame i ∷ [] }
unfolding ask_live send_frame is_queued
ask_live-queued (join_intent r) s q o h = ground (arith, o, h)
ask_live-queued cancel_intent s q o h = ground (arith, o, h)
ask_live-queued (send_intent text) s q o h = ground (arith, o, h)
ask_live-queued extend_intent s q o h = ground (arith, o, h)
ask_live-queued (answer_intent id b) s q o h = cc
ask_live-queued start_jojo_intent s q o h = cc
ask_live-queued typing_intent s q o h = cc
ask_live-queued leave_intent s q o h = cc
ask_live-queued (report_intent reason note) s q o h = cc

socket_opened-sent :
    (now id : ℕ) (s : LiveTransport)
    → lookup id s.sockets ≡ some new_socket
    → (socket_opened now id s).sent ≡ s.sent ++ map (on_socket id) s.outbox
unfolding socket_opened on_open emit set_ready put_ready is_connecting is_handled
socket_opened-sent now id s e = rw e (ground arith)

socket_opened-outbox :
    (now id : ℕ) (s : LiveTransport)
    → lookup id s.sockets ≡ some new_socket
    → (socket_opened now id s).outbox ≡ []
unfolding socket_opened on_open emit set_ready put_ready is_connecting is_handled
socket_opened-outbox now id s e = rw e (ground arith)

map_pairs :
    (id : ℕ) (is : List Intent)
    → map (on_socket id) (map asked_frame is) ≡ map (λ i. on_socket id (asked_frame i)) is
map_pairs id [] = refl
map_pairs id (i ∷ is) = ap (λ l. on_socket id (asked_frame i) ∷ l) (map_pairs id is)

-- What goes out on a socket that is connecting, once it opens: all that waits.
pub opened-sends :
    (is : List Intent) (now id : ℕ) (s t : LiveTransport)
    → lookup id t.sockets ≡ some new_socket
    → t.sent ≡ s.sent
    → t.outbox ≡ map asked_frame is
    → ((socket_opened now id t).sent ≡ s.sent ++ map (λ i. on_socket id (asked_frame i)) is)
      × ((socket_opened now id t).outbox ≡ [])
opened-sends is now id s t e same waits = (
  socket_opened-sent now id t e
      ∙ ap (λ l. l ++ map (on_socket id) t.outbox) same
      ∙ ap (λ fs. s.sent ++ map (on_socket id) fs) waits
      ∙ ap (λ l. s.sent ++ l) (map_pairs id is),
  socket_opened-outbox now id t e,
)
