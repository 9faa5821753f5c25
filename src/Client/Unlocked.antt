-- ===== src/Client/Unlocked.antt =====
-- frontend/lib/lbt/unlocks.ts: what this device has unlocked. There is one item, so the items are
-- whether it is among them. What the API answers is an argument of the part after the wait; an end
-- is a time as `expiry` reads it.
use focustown_public.Prelude.{
  ℕ, ◌-◌, ◌<◌, ◌≡◌, ◌≢◌, refl, arith, Bool, true, false, not, ◌&&◌, ◌||◌, Option, none, some, leb,
  eqb, if◌then◌else◌, Text, codes, text_beq, Bool-cases, ◌*◌, inl, inr,
}

pub record Saved : Type 0 where
  pub token : Text
  pub has_item : Bool
  pub checked_at : ℕ
  pub expires_at : Option ℕ

-- The storage, and the store's state.
pub record Unlocked : Type 0 where
  pub saved : Option Saved
  pub has_item : Bool
  pub loaded : Bool
  pub expires_at : Option ℕ

abbrev pub check_every_ms : ℕ
check_every_ms = 24 * 3600000

-- A time that is there and is not after now.
unfoldable pub is_past : ℕ → Option ℕ → Bool
is_past now none = false
is_past now (some t) = leb t now

unfoldable pub expire : ℕ → Unlocked → Unlocked
unfolding is_past
expire now s =
    if is_past now s.expires_at
    then record s { saved = none; has_item = false; expires_at = none }
    else s

unfoldable pub load_saved : ℕ → Option Saved → Unlocked → Unlocked
unfolding is_past
load_saved now none s = record s { loaded = true; has_item = false; expires_at = none }
load_saved now (some saved) s =
    if is_past now saved.expires_at
    then record s { saved = none; loaded = true; has_item = false; expires_at = none }
    else record s { loaded = true; has_item = saved.has_item; expires_at = saved.expires_at }

-- load, up to where the API is asked
unfoldable pub load : ℕ → Unlocked → Unlocked
unfolding expire load_saved
load now s = let t = expire now s in if t.loaded then t else load_saved now t.saved t

-- Whether load goes on to ask.
unfoldable pub asks : ℕ → Unlocked → Bool
unfolding expire is_past
asks now s =
    let t = expire now s in
    if t.loaded then false else elim t.saved [
      | none ↦ false
      | some saved ↦
          not (is_past now saved.expires_at) && leb check_every_ms (now - saved.checked_at)
    ]

-- What the API answers of the saved token: the items and their end, for the token that was read.
unfoldable pub check_answer : ℕ → Saved → Bool → Option ℕ → Unlocked → Unlocked
unfolding is_past
check_answer now saved has_item expires_at s =
    let still = if is_past now expires_at then false else has_item in
    record s {
      saved =
          if still
          then some (record {
            token = saved.token;
            has_item = still;
            checked_at = now;
            expires_at = expires_at;
          })
          else none;
      has_item = still;
      expires_at = if still then expires_at else none;
    }

pub data RedeemOutcome : Type 0 where
  redeemed_ok invalid_code_out code_used_up_out code_expired_out too_many offline_out :
      RedeemOutcome

-- The API's answer: its status, whether it is ok, and what its body has.
pub record RedeemAnswer : Type 0 where
  pub status_code : ℕ
  pub is_ok : Bool
  pub token : Option Text
  pub has_item : Bool
  pub expires_at : Option ℕ
  pub error_code : Option Text

unfoldable pub refusal : Option Text → RedeemOutcome
refusal none = invalid_code_out
refusal (some code) =
    if text_beq code (codes "code_used_up")
    then code_used_up_out
    else if text_beq code (codes "code_expired")
    then code_expired_out
    else invalid_code_out

unfoldable pub accept_token : ℕ → Text → Bool → Option ℕ → Unlocked → RedeemOutcome × Unlocked
unfolding is_past
accept_token now token has_item expires_at s =
    let unlocked = s.has_item || has_item in
    if is_past now expires_at then (code_expired_out, s) else (
      redeemed_ok,
      record s {
        saved = some (record {
          token = token;
          has_item = unlocked;
          checked_at = now;
          expires_at = expires_at;
        });
        has_item = unlocked;
        loaded = true;
        expires_at = expires_at;
      },
    )

-- `typeof body.token !== "string"`
unfoldable pub take_token : ℕ → Option Text → RedeemAnswer → Unlocked → RedeemOutcome × Unlocked
unfolding refusal accept_token
take_token now none a s = (refusal a.error_code, s)
take_token now (some token) a s = accept_token now token a.has_item a.expires_at s

-- redeem, once the answer is there; without one it is offline
unfoldable pub redeem : ℕ → Option RedeemAnswer → Unlocked → RedeemOutcome × Unlocked
unfolding refusal take_token
redeem now none s = (offline_out, s)
redeem now (some a) s =
    if eqb a.status_code 429
    then (too_many, s)
    else if not a.is_ok
    then (refusal a.error_code, s)
    else take_token now a.token a s

-- What is shown as unlocked has not come to its end.
abbrev pub IsCurrent : ℕ → Unlocked → Type 0
IsCurrent now s = (end : ℕ) → s.has_item ≡ true → s.expires_at ≡ some end → now < end

expire-IsCurrent : (now : ℕ) (s : Unlocked) → IsCurrent now (expire now s)
unfolding expire is_past
expire-IsCurrent now s end h e = ground (arith, h, e)

load_saved-IsCurrent :
    (now : ℕ) (o : Option Saved) (s : Unlocked) → IsCurrent now (load_saved now o s)
unfolding load_saved is_past
load_saved-IsCurrent now none s end h e = ground (arith, h, e)
load_saved-IsCurrent now (some saved) s end h e = ground (arith, h, e)

load-IsCurrent : (now : ℕ) (s : Unlocked) → IsCurrent now (load now s)
unfolding load
load-IsCurrent now s = elim (Bool-cases (expire now s).loaded) [
  | inl t ↦ rw t (expire-IsCurrent now s)
  | inr f ↦ rw f (load_saved-IsCurrent now (expire now s).saved (expire now s))
]

-- What a code that is redeemed leaves: the token and the end that the API answers with, and the
-- items of before and of the answer, before their end.
abbrev pub Redeemed : ℕ → Unlocked → RedeemAnswer → Text → Unlocked → Type 0
Redeemed now s a token t =
    (t.saved
      ≡ some (record {
        token = token;
        has_item = s.has_item || a.has_item;
        checked_at = now;
        expires_at = a.expires_at;
      }))
    × (t.has_item ≡ (s.has_item || a.has_item))
    × (t.loaded ≡ true)
    × (t.expires_at ≡ a.expires_at)
    × IsCurrent now t

-- The state after an outcome: of a code that is redeemed, by an answer that is ok, not 429 and has a
-- token; otherwise the state of before.
abbrev pub IsOutcome : ℕ → Unlocked → Option RedeemAnswer → RedeemOutcome × Unlocked → Type 0
IsOutcome now s answer (redeemed_ok, t) =
    (a : RedeemAnswer) × (token : Text) × (answer ≡ some a)
    × (a.is_ok ≡ true)
    × (a.status_code ≢ 429)
    × (a.token ≡ some token)
    × Redeemed now s a token t
IsOutcome now s answer (_, t) = t ≡ s

refusal-IsOutcome :
    (now : ℕ) (s : Unlocked) (answer : Option RedeemAnswer) (code : Option Text)
    → IsOutcome now s answer (refusal code, s)
unfolding refusal
refusal-IsOutcome now s answer none = refl
refusal-IsOutcome now s answer (some code) =
    elim (Bool-cases (text_beq code (codes "code_used_up"))) [
      | inl t ↦ rw t refl
      | inr f ↦ rw f (elim (Bool-cases (text_beq code (codes "code_expired"))) [
        | inl t ↦ rw t refl
        | inr f ↦ rw f refl
      ])
    ]

module _ (now : ℕ) (s : Unlocked) (a : RedeemAnswer) (is_ok : a.is_ok ≡ true)
    (served : a.status_code ≢ 429) where
  accept_token-IsOutcome :
      (token : Text)
      → a.token ≡ some token
      → IsOutcome now s (some a) (accept_token now token a.has_item a.expires_at s)
  unfolding accept_token
  accept_token-IsOutcome token given = elim (Bool-cases (is_past now a.expires_at)) [
    | inl t ↦ rw t refl
    | inr f ↦ rw f (
      a,
      token,
      refl,
      is_ok,
      served,
      given,
      (refl, refl, refl, refl, λ end h e. unfold is_past in ground (arith, f, e)),
    )
  ]

  take_token-IsOutcome :
      (o : Option Text) → a.token ≡ o → IsOutcome now s (some a) (take_token now o a s)
  unfolding take_token
  take_token-IsOutcome none given = refusal-IsOutcome now s (some a) a.error_code
  take_token-IsOutcome (some token) given = accept_token-IsOutcome token given

unless_ok :
    {A : Type 0} (P : A → Type 0) (b : Bool) (x y : A)
    → (b ≡ false → P x)
    → (b ≡ true → P y)
    → P (if not b then x else y)
unless_ok P true x y p q = q refl
unless_ok P false x y p q = p refl

redeem-IsOutcome :
    (now : ℕ) (s : Unlocked) (answer : Option RedeemAnswer)
    → IsOutcome now s answer (redeem now answer s)
unfolding redeem
redeem-IsOutcome now s none = refl
redeem-IsOutcome now s (some a) = elim (Bool-cases (eqb a.status_code 429)) [
  | inl t ↦ rw t refl
  | inr f ↦ rw f (
      unless_ok (IsOutcome now s (some a)) a.is_ok (refusal a.error_code, s)
        (take_token now a.token a s) (λ g. refusal-IsOutcome now s (some a) a.error_code)
        (λ t. take_token-IsOutcome now s a t (λ e. ground (arith, e, f)) a.token refl))
]

-- Whatever the device has saved and the API answers: after an expiry, a load and a check, at their
-- time, nothing is unlocked whose end is over. A code is redeemed only by an answer that is ok, is
-- not 429 and has a token: then the token, the items of before and of the answer, and the answer's
-- end are what is saved and shown, and the end is not over. After any other outcome the state is
-- that of before.
pub unlocked-IsCurrent :
    (now : ℕ) (s : Unlocked) (saved : Saved) (has_item : Bool) (expires_at : Option ℕ)
    (answer : Option RedeemAnswer)
    → IsCurrent now (expire now s)
      × IsCurrent now (load now s)
      × IsCurrent now (check_answer now saved has_item expires_at s)
      × IsOutcome now s answer (redeem now answer s)
unlocked-IsCurrent now s saved has_item expires_at answer = (
  expire-IsCurrent now s,
  load-IsCurrent now s,
  (λ end h e. unfold check_answer is_past in ground (arith, h, e)),
  redeem-IsOutcome now s answer,
)
