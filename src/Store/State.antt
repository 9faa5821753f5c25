-- ===== src/Store/State.antt =====
-- edge/src/store.ts: the stored values, and companion.ts, CompanionInvite.
use focustown_public.Prelude.{
  ℕ, Bool, true, false, Option, none, List, [], Text, Json, Assoc, Eq, ◌≡◌, ap, ◌↔◌, arith, eqb,
  eqb_iff,
}
use focustown_public.Guest.{GuestId, guest_beq, guest_beq_iff}
use focustown_public.Rules.Profile.{Profile}
use focustown_public.Rules.Pairing.{Waiting}

pub record CompanionInvite : Type 0 where
  pub id : ℕ
  pub guest_id : GuestId
  pub expires_at : ℕ
  pub profile : Option Profile

pub record Conversation : Type 0 where
  pub id : ℕ
  pub guest_a : GuestId
  pub guest_b : GuestId
  pub profile_a : Profile
  pub profile_b : Profile
  pub started_at : ℕ
  pub ends_at : ℕ
  pub extensions : ℕ

pub record Line : Type 0 where
  pub id : ℕ
  pub from : GuestId
  pub text : Text
  pub at : ℕ

pub record Block : Type 0 where
  pub one : GuestId
  pub other : GuestId
  pub until : ℕ

pub record Counter : Type 0 where
  pub count : ℕ
  pub reset_at : ℕ

-- The keys of the rate limits, a constructor for each prefix. IP addresses and days are numbers.
pub data LimitKey : Type 0 where
  jojo_start jojo_minute jojo_hour companion_offer msg frame_of report_by : GuestId → LimitKey
  jojo_day guest_ip unlock_ip feedback_ip admin_ip ws_ip : ℕ → LimitKey

-- The values under the fixed keys and under the per-conversation keys. A missing record, list or
-- flag is empty; `last` is a key that upgrades remove.
pub record State : Type 0 where
  pub companion_invite : Option CompanionInvite
  pub maintenance : Bool
  pub admin_revoked : Assoc ℕ ℕ
  pub alerted_waiters : Assoc GuestId ℕ
  pub last_owner_alert : Option ℕ
  pub online : Assoc GuestId ℕ
  pub queue : List Waiting
  pub active : List ℕ
  pub closed : Assoc ℕ ℕ
  pub current : Assoc GuestId ℕ
  pub last : Option Json
  pub blocks : List Block
  pub limits : Assoc LimitKey Counter
  pub convs : Assoc ℕ Conversation
  pub lines : Assoc ℕ (List Line)
  pub votes : Assoc ℕ (List GuestId)

-- Storage that nothing was written to.
abbrev pub empty : State
empty = record {
  companion_invite = none;
  maintenance = false;
  admin_revoked = [];
  alerted_waiters = [];
  last_owner_alert = none;
  online = [];
  queue = [];
  active = [];
  closed = [];
  current = [];
  last = none;
  blocks = [];
  limits = [];
  convs = [];
  lines = [];
  votes = [];
}

unfoldable pub limit_key_beq : LimitKey → LimitKey → Bool
limit_key_beq (jojo_start a) (jojo_start b) = guest_beq a b
limit_key_beq (jojo_minute a) (jojo_minute b) = guest_beq a b
limit_key_beq (jojo_hour a) (jojo_hour b) = guest_beq a b
limit_key_beq (companion_offer a) (companion_offer b) = guest_beq a b
limit_key_beq (msg a) (msg b) = guest_beq a b
limit_key_beq (frame_of a) (frame_of b) = guest_beq a b
limit_key_beq (report_by a) (report_by b) = guest_beq a b
limit_key_beq (jojo_day a) (jojo_day b) = eqb a b
limit_key_beq (guest_ip a) (guest_ip b) = eqb a b
limit_key_beq (unlock_ip a) (unlock_ip b) = eqb a b
limit_key_beq (feedback_ip a) (feedback_ip b) = eqb a b
limit_key_beq (admin_ip a) (admin_ip b) = eqb a b
limit_key_beq (ws_ip a) (ws_ip b) = eqb a b
limit_key_beq _ _ = false

pub limit_key_beq_iff : (a b : LimitKey) → (limit_key_beq a b ≡ true) ↔ (a ≡ b)
unfolding limit_key_beq
limit_key_beq_iff (jojo_start a) (jojo_start b) =
    (λ h. ap jojo_start ((guest_beq_iff a b).0 h), λ h. ground (arith, guest_beq_iff a b))
limit_key_beq_iff (jojo_minute a) (jojo_minute b) =
    (λ h. ap jojo_minute ((guest_beq_iff a b).0 h), λ h. ground (arith, guest_beq_iff a b))
limit_key_beq_iff (jojo_hour a) (jojo_hour b) =
    (λ h. ap jojo_hour ((guest_beq_iff a b).0 h), λ h. ground (arith, guest_beq_iff a b))
limit_key_beq_iff (companion_offer a) (companion_offer b) =
    (λ h. ap companion_offer ((guest_beq_iff a b).0 h), λ h. ground (arith, guest_beq_iff a b))
limit_key_beq_iff (msg a) (msg b) =
    (λ h. ap msg ((guest_beq_iff a b).0 h), λ h. ground (arith, guest_beq_iff a b))
limit_key_beq_iff (frame_of a) (frame_of b) =
    (λ h. ap frame_of ((guest_beq_iff a b).0 h), λ h. ground (arith, guest_beq_iff a b))
limit_key_beq_iff (report_by a) (report_by b) =
    (λ h. ap report_by ((guest_beq_iff a b).0 h), λ h. ground (arith, guest_beq_iff a b))
limit_key_beq_iff (jojo_day a) (jojo_day b) =
    (λ h. ap jojo_day ((eqb_iff a b).0 h), λ h. ground (arith, eqb_iff a b))
limit_key_beq_iff (guest_ip a) (guest_ip b) =
    (λ h. ap guest_ip ((eqb_iff a b).0 h), λ h. ground (arith, eqb_iff a b))
limit_key_beq_iff (unlock_ip a) (unlock_ip b) =
    (λ h. ap unlock_ip ((eqb_iff a b).0 h), λ h. ground (arith, eqb_iff a b))
limit_key_beq_iff (feedback_ip a) (feedback_ip b) =
    (λ h. ap feedback_ip ((eqb_iff a b).0 h), λ h. ground (arith, eqb_iff a b))
limit_key_beq_iff (admin_ip a) (admin_ip b) =
    (λ h. ap admin_ip ((eqb_iff a b).0 h), λ h. ground (arith, eqb_iff a b))
limit_key_beq_iff (ws_ip a) (ws_ip b) =
    (λ h. ap ws_ip ((eqb_iff a b).0 h), λ h. ground (arith, eqb_iff a b))
limit_key_beq_iff a b = (λ h. cc, λ h. cc)

instance abbrev pub LimitKey_eq : Eq LimitKey
LimitKey_eq = record { beq = limit_key_beq; beq_iff = limit_key_beq_iff }
