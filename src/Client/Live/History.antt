-- ===== src/Client/Live/History.antt =====
-- liveTransport.ts: what the browser, the clock and the store do to the connection, in any order.
use focustown_public.Prelude.{ℕ, Bool, Option, List, [], ◌∷◌, Text, Json}
use focustown_public.Client.State.{Intent}
use focustown_public.Client.Live.{
  socket_opened, beat, on_message, socket_closed, wake, on_offline, on_online, offline_due,
  reconnect_due, start_live, stop_live, ask_live,
}
use focustown_public.Client.Connection.{LiveTransport, keep_token, token_failed, token_ready}

pub data Happening : Type 0 where
  started : Bool → Happening
  stopped token_came token_lost woke went_offline went_online : Happening
  token_kept : Text → Option ℕ → Happening
  opened : ℕ → Happening
  closed_with : ℕ → ℕ → Happening
  frame_came : ℕ → Json → Happening
  heartbeat_ticked offline_timed reconnect_timed : Happening
  called : Intent → Happening

module _ (parse_date : Text → Option ℕ) where
  unfoldable pub happen : ℕ → Happening → LiveTransport → LiveTransport
  happen now (started is_offline) s = start_live is_offline s
  happen now stopped s = stop_live s
  happen now token_came s = token_ready s
  happen now token_lost s = token_failed now s
  happen now (token_kept token t) s = keep_token now token t s
  happen now woke s = wake s
  happen now went_offline s = on_offline s
  happen now went_online s = on_online s
  happen now (opened id) s = socket_opened now id s
  happen now (closed_with id code) s = socket_closed now id code s
  happen now (frame_came id frame) s = on_message parse_date now id frame s
  happen now heartbeat_ticked s = beat now s
  happen now offline_timed s = offline_due now s
  happen now reconnect_timed s = reconnect_due now s
  happen now (called intent) s = ask_live intent s

  unfoldable pub happen_all : List (ℕ × Happening) → LiveTransport → LiveTransport
  unfolding happen
  happen_all [] s = s
  happen_all ((now, h) ∷ hs) s = happen_all hs (happen now h s)
