-- ===== src/Server/Moderation/Laws.antt =====
-- moderation.ts: what a review that is accepted does to the guest.
use focustown_public.Prelude.{
  ℕ, ◌+◌, ◌*◌, ◌≤◌, ◌<◌, ◌≡◌, refl, sym, subst, Bool, true, not, ◌&&◌, Option, none, some, arith,
  eqb, eqb_iff, Assoc, ◌≢◌, [], ◌∷◌, ◌==◌, lookup, keep_entries, lookup-insert, Json, ℕ_eq,
  beq_refl,
}
use focustown_public.Guest.{GuestId, GuestId_eq, guest_beq_iff}
use focustown_public.Rules.Profile.{Result, ok, err}
use focustown_public.Server.Moderation.{
  Suspension, StoredReport, Tables, Review, day_ms, parse_review, is_active, active_until, is_own,
  decide, apply, settle, moderate_review, moderate_parsed, moderate_report,
}

-- The guest is suspended until `until` by the report: no longer than the report is kept, and no
-- shorter than the suspension that was running.
pub record Suspends (report_id now days : ℕ) (t : Tables) (g : GuestId) (until : ℕ) (t' : Tables)
    : Type 0 where
  pub report : StoredReport
  pub found : lookup report_id t.reports ≡ some report
  pub about : report.reported_guest_id ≡ g
  pub kept : until ≤ report.created_at + days * day_ms
  pub longer : active_until now (lookup g t.suspensions) ≤ until
  pub later : now ≤ until
  pub suspension : Suspension
  pub stored : lookup g t'.suspensions ≡ some suspension
  pub ends : suspension.expires_at ≡ until

-- The guest's running suspension was of this report, and none of this report is left.
pub record Lifts (report_id now : ℕ) (t : Tables) (g : GuestId) (t' : Tables) : Type 0 where
  pub suspension : Suspension
  pub found : lookup g t.suspensions ≡ some suspension
  pub own : suspension.report_id ≡ report_id
  pub running : now < suspension.expires_at
  pub gone : (s : Suspension) → lookup g t'.suspensions ≡ some s → s.report_id ≢ report_id

abbrev pub Reviewed : ℕ → ℕ → ℕ → Tables → Result (GuestId × Option ℕ × Tables) → Type 0
Reviewed report_id now days t (err c) = Unit {0}
Reviewed report_id now days t (ok (g, none, t')) = Lifts report_id now t g t'
Reviewed report_id now days t (ok (g, some until, t')) = Suspends report_id now days t g until t'

kept_entry :
    (p : GuestId → Suspension → Bool) (g : GuestId) (s : Suspension) (m : Assoc GuestId Suspension)
    → lookup g (keep_entries p m) ≡ some s
    → p g s ≡ true
unfolding lookup keep_entries
kept_entry p g s [] h = cc
kept_entry p g s ((j, v) ∷ m) h = ground (arith, guest_beq_iff j g, kept_entry p g s m)

module _ (report_id now days : ℕ) (t : Tables) where
  lifts :
      (review : Review) (report : StoredReport) (s : Suspension)
      → decide report_id now days review report (some s) ≡ ok none
      → lookup report.reported_guest_id t.suspensions ≡ some s
      → Lifts report_id now t report.reported_guest_id (apply report_id now review report none t)
  unfolding decide apply is_active is_own
  lifts review report s e l = record {
    suspension = s;
    found = l;
    own = ground (arith, eqb_iff s.report_id report_id);
    running = ground arith;
    gone = λ v h. ground (
      arith,
      kept_entry (λ g s. not (g == report.reported_guest_id && eqb s.report_id report_id))
          report.reported_guest_id v t.suspensions h,
      beq_refl report.reported_guest_id,
      eqb_iff v.report_id report_id,
    );
  }

  suspends :
      (review : Review) (report : StoredReport) (until : ℕ)
      → lookup report_id t.reports ≡ some report
      → decide report_id now days review report (lookup report.reported_guest_id t.suspensions)
        ≡ ok (some until)
      → Suspends report_id now days t report.reported_guest_id until
          (apply report_id now review report (some until) t)
  unfolding decide apply
  suspends review report until at e = record {
    report = report;
    found = at;
    about = refl;
    kept = ground arith;
    longer = ground arith;
    later = ground arith;
    suspension = record {
      report_id = report_id;
      reason = review.reason;
      expires_at = until;
      created_at = now;
    };
    stored = ground (
      arith,
      lookup-insert report.reported_guest_id report.reported_guest_id
          (record {
            report_id = report_id;
            reason = review.reason;
            expires_at = until;
            created_at = now;
          })
          t.suspensions,
      beq_refl report.reported_guest_id,
    );
    ends = refl;
  }

  settle_lem :
      (review : Review) (report : StoredReport) (r : Result (Option ℕ)) (o : Option Suspension)
      → lookup report_id t.reports ≡ some report
      → decide report_id now days review report o ≡ r
      → lookup report.reported_guest_id t.suspensions ≡ o
      → Reviewed report_id now days t (settle report_id now review report t r)
  unfolding settle
  settle_lem review report (err c) o at e l = tt
  settle_lem review report (ok none) none at e l = unfold decide is_active in ground arith
  settle_lem review report (ok none) (some s) at e l = lifts review report s e l
  settle_lem review report (ok (some until)) o at e l =
      suspends review report until at
        (subst (λ o. decide report_id now days review report o ≡ ok (some until)) (sym l) e)

  review_lem :
      (review : Review) (o : Option StoredReport)
      → lookup report_id t.reports ≡ o
      → Reviewed report_id now days t (moderate_review report_id now days t review o)
  unfolding moderate_review
  review_lem review none at = tt
  review_lem review (some report) at =
      settle_lem review report _ (lookup report.reported_guest_id t.suspensions) at refl refl

  parsed_lem :
      (r : Result Review) → Reviewed report_id now days t (moderate_parsed report_id now days t r)
  unfolding moderate_parsed
  parsed_lem (err c) = tt
  parsed_lem (ok review) = review_lem review (lookup report_id t.reports) refl

-- Whatever the body, a review that is accepted either suspends the guest whom the report is about,
-- until no later than the report is kept and no earlier than a suspension that was running ends, or
-- lifts a running suspension of this very report.
pub moderate_report-Reviewed :
    (report_id now days : ℕ) (t : Tables) (body : Json)
    → Reviewed report_id now days t (moderate_report report_id body now days t)
unfolding moderate_report
moderate_report-Reviewed report_id now days t body =
    parsed_lem report_id now days t (parse_review body)
