-- ===== src/Server/Dispatch.antt =====
-- edge/src/townObject.ts: the frames that a client sends, and which method answers each.
use focustown_public.Prelude.{
  ℕ, Bool, true, false, not, Option, none, some, if◌then◌else◌, ◌==◌, Json, bool, erase, insert,
}
use focustown_public.Guest.{GuestId, companion_id, GuestId_eq}
use focustown_public.Rules.Profile.{
  Code, Result, ok, err, unauthorized, invalid_answer, slow_down, not_a_participant,
  report_storage_not_wired, hook_failed, guest_suspended,
}
use focustown_public.Store.State.{msg, frame_of, report_by}
use focustown_public.Store.Presence.{set_maintenance}
use focustown_public.Store.Limits.{hit}
use focustown_public.Town.World.{World, Deps, ReportReason, error}
use focustown_public.Town.Exec.{
  Exec, Done, on_option, pure, throw, stored, done, modify, store_to, reject, ◌>>=◌, ◌>>◌,
}
use focustown_public.Town.Session.{send, restrict}
use focustown_public.Town.Lobby.{join, cancel, heartbeat, disconnect, pair_waiting}
use focustown_public.Town.Companion.{invite_companion, answer_companion}
use focustown_public.Town.Jojo.{start_jojo}
use focustown_public.Town.Chat.{send_message, type_to_partner, extend, leave, report}

-- A frame by its `type`, with the fields that its method reads. `text_frame` has the type
-- "message"; an id that is no string is `none`, and `other_frame` has any other type.
pub data ClientFrame : Type 0 where
  companion_invite_frame : Option GuestId → Json → ClientFrame
  companion_answer_frame : Option ℕ → Json → ClientFrame
  jojo_start_frame : Json → ClientFrame
  join_frame : Json → Json → ClientFrame
  text_frame : Json → ClientFrame
  heartbeat_frame cancel_frame typing_frame extend_frame leave_frame other_frame : ClientFrame

-- `frame.adult === true`
unfoldable pub is_adult : Json → Bool
is_adult (bool b) = b
is_adult _ = false

-- `err instanceof InputError`: the other errors are bugs or failed hooks, and are thrown on.
unfoldable pub is_input_error : Code → Bool
is_input_error not_a_participant = false
is_input_error report_storage_not_wired = false
is_input_error hook_failed = false
is_input_error _ = true

-- What the answer to a report says: the report's id, 429, or 422 with a code.
pub data ReportResult : Type 0 where
  report_saved : ℕ → ReportResult
  too_many_reports : ReportResult
  report_refused : Code → ReportResult

module _ (d : Deps) (now : ℕ) where
  unfoldable pub dispatch : GuestId → ClientFrame → Exec Done
  unfolding is_adult
  dispatch guest_id (companion_invite_frame target identity) = do
    reject (not (guest_id == companion_id)) unauthorized
    invite_companion d now target identity
  dispatch guest_id (companion_answer_frame id (bool accept)) =
      answer_companion d now guest_id id accept
  dispatch guest_id (companion_answer_frame id _) = throw invalid_answer
  dispatch guest_id (jojo_start_frame consent) = start_jojo d now guest_id consent
  dispatch guest_id heartbeat_frame = heartbeat d now guest_id
  dispatch guest_id (join_frame profile adult) = join d now guest_id profile (is_adult adult)
  dispatch guest_id cancel_frame = cancel d now guest_id
  dispatch guest_id (text_frame text) = do
    within ← stored (hit (msg guest_id) 30 60000 now)
    reject (not within) slow_down
    send_message d now guest_id text
  dispatch guest_id typing_frame = type_to_partner d now guest_id
  dispatch guest_id extend_frame = extend d now guest_id
  dispatch guest_id leave_frame = leave d now guest_id
  dispatch guest_id other_frame = done

  -- The `catch` of webSocketMessage.
  unfoldable pub answer_error : GuestId → Result Done × World → Result Done × World
  unfolding is_input_error
  answer_error guest_id (ok u, w) = (ok u, w)
  answer_error guest_id (err c, w) =
      if is_input_error c then send guest_id (error c) w else (err c, w)

  unfoldable pub answered : GuestId → Exec Done → Exec Done
  unfolding answer_error
  answered guest_id m w = answer_error guest_id (m w)

  -- webSocketMessage, for a frame of an admissible size: past the limit the socket is closed, and
  -- what is no JSON object is ignored.
  unfoldable pub web_socket_message : GuestId → Option ClientFrame → Exec Done
  unfolding dispatch answered
  web_socket_message guest_id frame = do
    within ← stored (hit (frame_of guest_id) 120 60000 now)
    if within then on_option frame done (λ f. answered guest_id (dispatch guest_id f)) else done

  -- onSocketGone: the guest is away once no other socket of theirs is open.
  unfoldable pub on_socket_gone : GuestId → Bool → Exec Done
  on_socket_gone guest_id still_open = if still_open then done else disconnect d now guest_id

  unfoldable pub refuse_report : Result ℕ × World → Result ReportResult × World
  unfolding is_input_error
  refuse_report (ok id, w) = (ok (report_saved id), w)
  refuse_report (err c, w) = if is_input_error c then (ok (report_refused c), w) else (err c, w)

  -- report, the call from the Worker
  unfoldable pub report_limited : GuestId → Option ReportReason → Json → Exec ReportResult
  unfolding refuse_report
  report_limited guest_id reason note = do
    within ← stored (hit (report_by guest_id) 5 3600000 now)
    if within
        then (λ w. refuse_report (report d now guest_id reason note w))
        else pure too_many_reports

  -- setMaintenance
  unfoldable pub switch_maintenance : Bool → Exec Done
  switch_maintenance on = do
    store_to (set_maintenance on)
    if on then done else (do pair_waiting d now; done)

  -- moderate, once the review is stored: until when the guest is suspended, or none where the
  -- suspension is lifted.
  unfoldable pub moderated : GuestId → Option ℕ → Exec Done
  moderated guest_id none = modify λ w. record w { suspensions = erase guest_id w.suspensions }
  moderated guest_id (some until) = do
    modify (λ w. record w { suspensions = insert guest_id until w.suspensions })
    restrict guest_id
    send guest_id (error guest_suspended)
