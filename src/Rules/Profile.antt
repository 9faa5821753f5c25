-- ===== src/Rules/Profile.antt =====
-- edge/src/rules.ts, parseProfile and the types around it; edge/src/companion.ts, the profiles
-- that the server makes up, and jojo.ts, JOJO_PROFILE.
pub mod Laws
use focustown_public.Prelude.{
  ℕ, ◌≡◌, refl, ◌↔◌, Bool, true, false, Option, none, some, List, [], ◌∷◌, ◌++◌, map, arith, eqb,
  if◌then◌else◌, Text, codes, text_beq, Json, undefined, num, str, property, contains, ℕ_eq,
}
use focustown_public.Rules.Cleaning.{clean_text, nickname_max}

pub data Preference : Type 0 where
  casual listen story : Preference

pub data Role : Type 0 where
  admin ai companion : Role

pub record Profile : Type 0 where
  pub nickname : Text
  pub energy : ℕ
  pub preference : Preference
  -- set by the server only
  pub role : Option Role

-- The codes of InputError, and of the other errors that the town throws.
pub data Code : Type 0 where
  nickname_required invalid_energy invalid_preference : Code
  admin_cannot_queue age_required closed already_in_conversation guest_suspended : Code
  jojo_unavailable jojo_consent_required not_waiting jojo_busy jojo_too_early slow_down : Code
  invalid_companion_identity companion_busy pair_blocked invite_unavailable : Code
  empty_message no_conversation time_up too_late invalid_reason : Code
  unauthorized invalid_answer report_storage_not_wired hook_failed : Code
  invalid_moderation_action invalid_moderation_reason invalid_moderation_duration : Code
  not_a_participant report_not_found no_active_suspension report_expires_too_soon : Code

-- What a pure function returns, or the error that it throws.
pub data Result (A : Type 0) : Type 0 where
  ok : A → Result A
  err : Code → Result A

abbrev pub energies : List ℕ
energies = 1 ∷ 2 ∷ 3 ∷ []

-- PREFERENCES.includes, and the cast behind it.
unfoldable pub preference_of : Text → Option Preference
unfolding text_beq
preference_of t =
    if text_beq t (codes "casual")
    then some casual
    else if text_beq t (codes "listen")
    then some listen
    else if text_beq t (codes "story")
    then some story
    else none

-- `replace(/\n/g, " ")`
unfoldable pub flatten_lines : Text → Text
flatten_lines s = map (λ c. if eqb c 10 then 32 else c) s

energy_of : Json → Option ℕ
energy_of (num n) = if contains energies n then some n else none
energy_of _ = none

preference_of_json : Json → Option Preference
preference_of_json (str t) = preference_of t
preference_of_json _ = none

checked : Text → Option ℕ → Option Preference → Result Profile
checked [] e p = err nickname_required
checked (c ∷ s) none p = err invalid_energy
checked (c ∷ s) (some e) none = err invalid_preference
checked (c ∷ s) (some e) (some p) =
    ok (record { nickname = c ∷ s; energy = e; preference = p; role = none })

unfoldable pub parse_profile : Json → Result Profile
unfolding clean_text flatten_lines energy_of preference_of preference_of_json checked property
parse_profile raw =
    checked (flatten_lines (clean_text (property (codes "nickname") raw) nickname_max))
      (energy_of (property (codes "energy") raw))
      (preference_of_json (property (codes "preference") raw))

-- companion.ts
abbrev pub companion_profile_default : Profile
companion_profile_default = record {
  nickname = codes "小辟穀";
  energy = 2;
  preference = story;
  role = some admin;
}

-- `companionProfile(identity = "male")`
unfoldable pub companion_profile : Json → Option Profile
companion_profile undefined = some companion_profile_default
companion_profile (str t) =
    if text_beq t (codes "male")
    then some companion_profile_default
    else if text_beq t (codes "female")
    then some (record companion_profile_default { nickname = codes "打辟穀" })
    else none
companion_profile _ = none

public_role : Option Role → Profile → Profile
public_role (some ai) p = record p { nickname = p.nickname ++ codes "（AI）" }
public_role (some admin) p = record p {
  nickname = if text_beq p.nickname (codes "小鎮管理員") then codes "小辟穀" else p.nickname;
  role = some companion;
}
public_role _ p = p

unfoldable pub public_profile : Profile → Profile
unfolding public_role
public_profile p = public_role p.role p

-- jojo.ts
abbrev pub jojo_profile : Profile
jojo_profile = record {
  nickname = codes "你家貓咪會後空翻嗎";
  energy = 3;
  preference = casual;
  role = some ai;
}
