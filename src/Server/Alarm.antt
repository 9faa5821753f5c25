-- ===== src/Server/Alarm.antt =====
-- edge/src/townObject.ts, ensureAlarm, and the intervals of config.ts: when the next sweep is due.
use focustown_public.Prelude.{
  ℕ, ◌+◌, ◌≤◌, ◌≡◌, true, not, ◌&&◌, Option, none, some, arith, ltb, if◌then◌else◌,
}
use focustown_public.Store.State.{State}
use focustown_public.Store.Chats.{has_pending_work}

abbrev pub sweep_ms : ℕ
sweep_ms = 3000

abbrev pub idle_sweep_ms : ℕ
idle_sweep_ms = 900000

-- `current === null || current > want`
unfoldable pub earlier_alarm : ℕ → Option ℕ → Option ℕ
earlier_alarm want none = some want
earlier_alarm want (some t) = if ltb want t then some want else some t

unfoldable pub ensure_alarm : ℕ → State → Option ℕ → Option ℕ
unfolding earlier_alarm
ensure_alarm now s current =
    let (live, expiring) = has_pending_work s in
    if not live && not expiring
    then current
    else earlier_alarm (now + (if live then sweep_ms else idle_sweep_ms)) current

-- An alarm set for no later than t.
abbrev pub IsDueBy : ℕ → Option ℕ → Type 0
IsDueBy t none = ⊥
IsDueBy t (some u) = u ≤ t

earlier_alarm-IsDueBy : (want : ℕ) (o : Option ℕ) → IsDueBy want (earlier_alarm want o)
unfolding earlier_alarm
earlier_alarm-IsDueBy want none = omega arith
earlier_alarm-IsDueBy want (some t) = ground arith

-- While anybody waits or talks, a sweep is due within three seconds once ensureAlarm has run,
-- whatever the alarm was.
pub ensure_alarm-IsDueBy :
    (now : ℕ) (s : State) (current : Option ℕ)
    → (has_pending_work s).0 ≡ true
    → IsDueBy (now + sweep_ms) (ensure_alarm now s current)
unfolding ensure_alarm
ensure_alarm-IsDueBy now s current h = rw h (earlier_alarm-IsDueBy (now + sweep_ms) current)

-- An alarm that is set is never put off.
pub ensure_alarm-IsDueBy_current : (now t : ℕ) (s : State) → IsDueBy t (ensure_alarm now s (some t))
unfolding ensure_alarm earlier_alarm
ensure_alarm-IsDueBy_current now t s = ground arith
