-- ===== src/Server/Moderation.antt =====
-- edge/src/moderation.ts: the review of a report, on the tables that its statements read and
-- write. Times are milliseconds; two ISO texts compare as their times do.
pub mod Laws
use focustown_public.Prelude.{
  ℕ, ◌+◌, ◌*◌, ◌≤◌, ◌<◌, ◌≡◌, refl, sym, ◌∙◌, ap, subst, ◌⊎◌, inl, inr, Bool, true, false, not,
  ◌&&◌, ◌||◌, Option, none, some, List, [], ◌∷◌, ◌++◌, arith, ltb, leb, eqb, max, if◌then◌else◌,
  ◌==◌, length, lookup, insert, erase, keep_entries, lookup-insert, lookup-erase, Assoc, Text,
  codes, text_beq, Json, num, str, property, ℕ_eq, beq_refl, select, Option-cases, Bool-cases,
}
use focustown_public.Guest.{GuestId, GuestId_eq, guest_beq_iff}
use focustown_public.Rules.Cleaning.{clean, trim}
use focustown_public.Rules.Profile.{
  Result, ok, err, Code, invalid_moderation_action, invalid_moderation_reason,
  invalid_moderation_duration, report_not_found, no_active_suspension, report_expires_too_soon,
}

pub data Action : Type 0 where
  suspend revoke : Action

pub record Suspension : Type 0 where
  pub report_id : ℕ
  pub reason : Text
  pub expires_at : ℕ
  pub created_at : ℕ

pub record StoredReport : Type 0 where
  pub reported_guest_id : GuestId
  pub created_at : ℕ
  pub is_actioned : Bool

-- A row of lbt_moderation_actions.
pub record ActionRow : Type 0 where
  pub report_id : ℕ
  pub action : Action
  pub reason : Text
  pub expires_at : Option ℕ
  pub created_at : ℕ

pub record Tables : Type 0 where
  pub reports : Assoc ℕ StoredReport
  pub suspensions : Assoc GuestId Suspension
  pub actions : List ActionRow

-- What a valid body asks for; `days` is 0 for a revocation.
pub record Review : Type 0 where
  pub action : Action
  pub reason : Text
  pub days : ℕ

abbrev pub day_ms : ℕ
day_ms = 86400000

unfoldable pub action_of : Json → Option Action
action_of (str t) =
    if text_beq t (codes "suspend")
    then some suspend
    else if text_beq t (codes "revoke")
    then some revoke
    else none
action_of _ = none

unfoldable pub review_days : Action → Text → Json → Result Review
review_days revoke reason days = ok (record { action = revoke; reason = reason; days = 0 })
review_days suspend reason (num n) =
    if eqb n 1 || eqb n 7
    then ok (record { action = suspend; reason = reason; days = n })
    else err invalid_moderation_duration
review_days suspend reason _ = err invalid_moderation_duration

unfoldable pub review_reason : Action → Text → Json → Result Review
unfolding review_days
review_reason action [] days = err invalid_moderation_reason
review_reason action (c ∷ s) days = review_days action (c ∷ s) days

unfoldable pub review_text : Action → Json → Json → Result Review
unfolding review_reason
review_text action (str t) days =
    if leb (length (trim t)) 500
    then review_reason action (clean t 500) days
    else err invalid_moderation_reason
review_text action _ days = err invalid_moderation_reason

unfoldable pub parse_review : Json → Result Review
unfolding action_of review_text
parse_review body = elim (action_of (property (codes "action") body)) [
  | none ↦ err invalid_moderation_action
  | some a ↦ review_text a (property (codes "reason") body) (property (codes "days") body)
]

-- `current && current.expires_at > at`
unfoldable pub is_active : ℕ → Option Suspension → Bool
is_active now none = false
is_active now (some s) = ltb now s.expires_at

-- when the active suspension ends, and 0 where there is none
unfoldable pub active_until : ℕ → Option Suspension → ℕ
active_until now none = 0
active_until now (some s) = if ltb now s.expires_at then s.expires_at else 0

unfoldable pub is_own : ℕ → Option Suspension → Bool
is_own report_id none = false
is_own report_id (some s) = eqb s.report_id report_id

-- Until when the guest is suspended, or none for a revocation.
unfoldable pub decide : ℕ → ℕ → ℕ → Review → StoredReport → Option Suspension → Result (Option ℕ)
unfolding is_active active_until is_own
decide report_id now retention_days review report current = elim review.action [
  | revoke ↦
      if not (is_active now current) || not (is_own report_id current)
      then err no_active_suspension
      else ok none
  | suspend ↦
      let expires = max (now + review.days * day_ms) (active_until now current) in
      if ltb (report.created_at + retention_days * day_ms) expires
      then err report_expires_too_soon
      else ok (some expires)
]

-- The batch of statements.
unfoldable pub apply : ℕ → ℕ → Review → StoredReport → Option ℕ → Tables → Tables
unfolding is_own
apply report_id now review report expires t = record t {
  suspensions = elim expires [
    | some until ↦
        insert report.reported_guest_id
          (record {
            report_id = report_id;
            reason = review.reason;
            expires_at = until;
            created_at = now;
          })
          t.suspensions
    | none ↦
        keep_entries (λ g s. not (g == report.reported_guest_id && eqb s.report_id report_id))
          t.suspensions
  ];
  actions =
      t.actions
      ++ record {
        report_id = report_id;
        action = review.action;
        reason = review.reason;
        expires_at = expires;
        created_at = now;
      }
        ∷ [];
  reports = insert report_id (record report { is_actioned = true }) t.reports;
}

unfoldable pub settle :
    ℕ
    → ℕ
    → Review
    → StoredReport
    → Tables
    → Result (Option ℕ)
    → Result (GuestId × Option ℕ × Tables)
unfolding apply
settle report_id now review report t (err c) = err c
settle report_id now review report t (ok expires) =
    ok (report.reported_guest_id, expires, apply report_id now review report expires t)

unfoldable pub moderate_review :
    ℕ → ℕ → ℕ → Tables → Review → Option StoredReport → Result (GuestId × Option ℕ × Tables)
unfolding settle decide
moderate_review report_id now retention_days t review none = err report_not_found
moderate_review report_id now retention_days t review (some report) =
    settle report_id now review report t (
      decide report_id now retention_days review report
        (lookup report.reported_guest_id t.suspensions))

unfoldable pub moderate_parsed :
    ℕ → ℕ → ℕ → Tables → Result Review → Result (GuestId × Option ℕ × Tables)
unfolding moderate_review
moderate_parsed report_id now retention_days t (err c) = err c
moderate_parsed report_id now retention_days t (ok review) =
    moderate_review report_id now retention_days t review (lookup report_id t.reports)

-- The guest, until when they are suspended, and the tables after the review.
unfoldable pub moderate_report : ℕ → Json → ℕ → ℕ → Tables → Result (GuestId × Option ℕ × Tables)
unfolding moderate_parsed parse_review
moderate_report report_id body now retention_days t =
    moderate_parsed report_id now retention_days t (parse_review body)

unfoldable pub active_suspensions : ℕ → Tables → Assoc GuestId Suspension
active_suspensions now t = keep_entries (λ g s. ltb now s.expires_at) t.suspensions

unfoldable pub purge_expired_suspensions : ℕ → Tables → Tables
purge_expired_suspensions now t = record t {
  suspensions = keep_entries (λ g s. ltb now s.expires_at) t.suspensions;
}
