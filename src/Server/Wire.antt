-- ===== src/Server/Wire.antt =====
-- edge/src/town.ts: the frames of Town as the objects that townObject.ts sends as JSON. `iso` is
-- `Date.prototype.toISOString`, `id_text` an id's text.
use focustown_public.Prelude.{
  ℕ, zero, suc, Option, none, some, List, [], ◌∷◌, Text, codes, Json, str, num, obj, Fields,
  no_fields, field, suc,
}
use focustown_public.Rules.Profile.{
  Profile, Preference, casual, listen, story, Role, admin, ai, companion, Code, nickname_required,
  invalid_energy, invalid_preference, admin_cannot_queue, age_required, closed,
  already_in_conversation, guest_suspended, jojo_unavailable, jojo_consent_required, not_waiting,
  jojo_busy, jojo_too_early, slow_down, invalid_companion_identity, companion_busy, pair_blocked,
  invite_unavailable, empty_message, no_conversation, time_up, too_late, invalid_reason,
  unauthorized, invalid_answer, invalid_moderation_action, invalid_moderation_reason,
  invalid_moderation_duration, report_not_found, no_active_suspension, report_expires_too_soon,
  not_a_participant, report_storage_not_wired, hook_failed,
}
use focustown_public.Town.World.{
  Frame, error, matched, message, extend_requested, waiting, companion_invite, companion_pending,
  companion_cleared, idle, typing, extended, ended, Party, me, partner, Side, Timing, ClearReason,
  expired, declined, cancelled, accepted, matched_other, disconnected, EndReason, left,
  partner_left, reported, timeout, partner_disconnected, suspended_end,
}

-- The code of an InputError, or the message of an Error.
unfoldable pub code_text : Code → Text
code_text nickname_required = codes "nickname_required"
code_text invalid_energy = codes "invalid_energy"
code_text invalid_preference = codes "invalid_preference"
code_text admin_cannot_queue = codes "admin_cannot_queue"
code_text age_required = codes "age_required"
code_text closed = codes "closed"
code_text already_in_conversation = codes "already_in_conversation"
code_text guest_suspended = codes "guest_suspended"
code_text jojo_unavailable = codes "jojo_unavailable"
code_text jojo_consent_required = codes "jojo_consent_required"
code_text not_waiting = codes "not_waiting"
code_text jojo_busy = codes "jojo_busy"
code_text jojo_too_early = codes "jojo_too_early"
code_text slow_down = codes "slow_down"
code_text invalid_companion_identity = codes "invalid_companion_identity"
code_text companion_busy = codes "companion_busy"
code_text pair_blocked = codes "pair_blocked"
code_text invite_unavailable = codes "invite_unavailable"
code_text empty_message = codes "empty_message"
code_text no_conversation = codes "no_conversation"
code_text time_up = codes "time_up"
code_text too_late = codes "too_late"
code_text invalid_reason = codes "invalid_reason"
code_text unauthorized = codes "unauthorized"
code_text invalid_answer = codes "invalid_answer"
code_text invalid_moderation_action = codes "invalid_moderation_action"
code_text invalid_moderation_reason = codes "invalid_moderation_reason"
code_text invalid_moderation_duration = codes "invalid_moderation_duration"
code_text report_not_found = codes "report_not_found"
code_text no_active_suspension = codes "no_active_suspension"
code_text report_expires_too_soon = codes "report_expires_too_soon"
code_text not_a_participant = codes "guest is not part of this conversation"
code_text report_storage_not_wired = codes "report storage not wired"
code_text hook_failed = codes "hook failed"

unfoldable pub preference_text : Preference → Text
preference_text casual = codes "casual"
preference_text listen = codes "listen"
preference_text story = codes "story"

unfoldable pub role_text : Role → Text
role_text admin = codes "admin"
role_text ai = codes "ai"
role_text companion = codes "companion"

unfoldable pub party_text : Party → Text
party_text me = codes "me"
party_text partner = codes "partner"

unfoldable pub clear_text : ClearReason → Text
clear_text expired = codes "expired"
clear_text declined = codes "declined"
clear_text cancelled = codes "cancelled"
clear_text accepted = codes "accepted"
clear_text matched_other = codes "matched"
clear_text disconnected = codes "disconnected"

unfoldable pub end_text : EndReason → Text
end_text left = codes "left"
end_text partner_left = codes "partner_left"
end_text reported = codes "reported"
end_text timeout = codes "timeout"
end_text partner_disconnected = codes "partner_disconnected"
end_text suspended_end = codes "suspended"

-- AVATAR_IDS
abbrev pub avatar_ids : List Text
avatar_ids =
    codes "headphones"
    ∷ codes "blanket"
    ∷ codes "coffee"
    ∷ codes "beanie"
    ∷ codes "glasses"
    ∷ codes "scarf"
    ∷ codes "umbrella"
    ∷ codes "cathood"
    ∷ codes "flower"
    ∷ codes "plug"
    ∷ []

-- `AVATAR_IDS[n]`
unfoldable pub avatar_json : ℕ → List Text → Fields → Fields
avatar_json n [] fs = fs
avatar_json zero (x ∷ xs) fs = field (codes "avatar") (str x) fs
avatar_json (suc n) (x ∷ xs) fs = avatar_json n xs fs

unfoldable pub role_json : Option Role → Fields → Fields
unfolding role_text
role_json none fs = fs
role_json (some r) fs = field (codes "role") (str (role_text r)) fs

unfoldable pub profile_fields : Profile → Fields → Fields
unfolding preference_text role_json
profile_fields p fs = field (codes "nickname") (str p.nickname) (
    field (codes "energy") (num p.energy)
      (field (codes "preference") (str (preference_text p.preference)) (role_json p.role fs)))

-- `{ ...publicProfile(…), avatar }`
unfoldable pub side_json : Side → Json
unfolding profile_fields avatar_json
side_json s = obj (profile_fields s.profile (avatar_json s.avatar avatar_ids no_fields))

module _ (iso id_text : ℕ → Text) where
  unfoldable pub timing_fields : Timing → Fields
  timing_fields t = field (codes "ends_at") (str (iso t.ends_at)) (
      field (codes "grace_seconds") (num t.grace_seconds)
        (field (codes "server_now") (str (iso t.server_now)) no_fields))

  unfoldable pub jojo_fields : Option (ℕ × ℕ) → Fields
  jojo_fields none = no_fields
  jojo_fields (some (available_at, server_now)) =
      field (codes "jojo_available_at") (str (iso available_at))
        (field (codes "server_now") (str (iso server_now)) no_fields)

  unfoldable pub typed_frame : Text → Fields → Json
  typed_frame type fs = obj (field (codes "type") (str type) fs)

  unfoldable pub error_json : Code → Json
  unfolding code_text typed_frame
  error_json c =
      typed_frame (codes "lbt.error") (field (codes "code") (str (code_text c)) no_fields)

  unfoldable pub matched_json : ℕ → Side → Side → Timing → Json
  unfolding side_json timing_fields typed_frame
  matched_json id mine other t = typed_frame (codes "lbt.matched") (
      field (codes "conversation_id") (str (id_text id)) (
        field (codes "me") (side_json mine)
          (field (codes "partner") (side_json other) (timing_fields t))))

  unfoldable pub message_json : ℕ → Party → Text → ℕ → Json
  unfolding party_text typed_frame
  message_json id from text at = typed_frame (codes "lbt.message") (
      field (codes "id") (str (id_text id)) (
        field (codes "from") (str (party_text from))
          (field (codes "text") (str text) (field (codes "at") (str (iso at)) no_fields))))

  unfoldable pub request_json : Party → Json
  unfolding party_text typed_frame
  request_json by =
      typed_frame (codes "lbt.extend_requested")
        (field (codes "by") (str (party_text by)) no_fields)

  unfoldable pub waiting_json : ℕ → Option (ℕ × ℕ) → Json
  unfolding jojo_fields typed_frame
  waiting_json since jojo =
      typed_frame (codes "lbt.waiting") (field (codes "since") (str (iso since)) (jojo_fields jojo))

  unfoldable pub invite_json : ℕ → Text → ℕ → ℕ → Json
  unfolding typed_frame
  invite_json id nickname expires_at server_now = typed_frame (codes "lbt.companion_invite") (
      field (codes "id") (str (id_text id)) (
        field (codes "nickname") (str nickname) (
          field (codes "expires_at") (str (iso expires_at))
            (field (codes "server_now") (str (iso server_now)) no_fields))))

  unfoldable pub pending_json : ℕ → Profile → Text → Json
  unfolding profile_fields typed_frame
  pending_json id profile nickname = typed_frame (codes "lbt.companion_pending") (
      field (codes "id") (str (id_text id)) (
        field (codes "profile") (obj (profile_fields profile no_fields))
          (field (codes "nickname") (str nickname) no_fields)))

  unfoldable pub cleared_json : ℕ → ClearReason → Json
  unfolding clear_text typed_frame
  cleared_json id reason = typed_frame (codes "lbt.companion_cleared") (
      field (codes "id") (str (id_text id))
        (field (codes "reason") (str (clear_text reason)) no_fields))

  unfoldable pub extended_json : Timing → Json
  unfolding timing_fields typed_frame
  extended_json t = typed_frame (codes "lbt.extended") (timing_fields t)

  unfoldable pub ended_json : EndReason → Json
  unfolding end_text typed_frame
  ended_json reason =
      typed_frame (codes "lbt.ended") (field (codes "reason") (str (end_text reason)) no_fields)

  -- What townObject.ts stringifies.
  unfoldable pub frame_json : Frame → Json
  unfolding error_json matched_json message_json request_json waiting_json invite_json pending_json
      cleared_json extended_json ended_json typed_frame
  frame_json (error c) = error_json c
  frame_json (matched id mine other t) = matched_json id mine other t
  frame_json (message id from text at) = message_json id from text at
  frame_json (extend_requested by) = request_json by
  frame_json (waiting since jojo) = waiting_json since jojo
  frame_json (companion_invite id nickname expires_at server_now) =
      invite_json id nickname expires_at server_now
  frame_json (companion_pending id profile nickname) = pending_json id profile nickname
  frame_json (companion_cleared id reason) = cleared_json id reason
  frame_json idle = typed_frame (codes "lbt.idle") no_fields
  frame_json typing = typed_frame (codes "lbt.typing") no_fields
  frame_json (extended t) = extended_json t
  frame_json (ended reason) = ended_json reason
