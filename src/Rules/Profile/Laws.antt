-- ===== src/Rules/Profile/Laws.antt =====
-- What parseProfile accepts, and what a visitor sees of a profile.
use focustown_public.Prelude.{
  ℕ, ◌≤◌, ◌≡◌, ◌≢◌, refl, Option, none, some, [], ◌∷◌, arith, length, Text, codes, Json, property,
  str, num,
}
use focustown_public.Rules.Cleaning.{clean_text, nickname_max}
use focustown_public.Rules.Cleaning.Laws.{clean_bounds}
use focustown_public.Rules.Profile.{
  Profile, Preference, ok, energy_of, preference_of_json, flatten_lines, checked, parse_profile,
}

pub record IsAccepted (p : Profile) : Type 0 where
  pub named : p.nickname ≢ []
  pub short : length p.nickname ≤ nickname_max
  pub charged : (1 ≤ p.energy) × (p.energy ≤ 3)
  pub no_role : p.role ≡ none

clean_text-length : (raw : Json) (n : ℕ) → length (clean_text raw n) ≤ n
unfolding clean_text
clean_text-length (str s) n = (clean_bounds s n).0
clean_text-length _ n = omega arith

flatten_lines-length : (s : Text) → length (flatten_lines s) ≡ length s
unfolding flatten_lines
flatten_lines-length [] = refl
flatten_lines-length (c ∷ s) = omega (arith, flatten_lines-length s)

energy_of-range : (raw : Json) (e : ℕ) → energy_of raw ≡ some e → (1 ≤ e) × (e ≤ 3)
unfolding energy_of
energy_of-range (num n) e h = ground arith
energy_of-range _ e h = cc

checked-IsAccepted :
    (s : Text) (e : Option ℕ) (q : Option Preference) {p : Profile}
    → length s ≤ nickname_max
    → ((n : ℕ) → e ≡ some n → (1 ≤ n) × (n ≤ 3))
    → checked s e q ≡ ok p
    → IsAccepted p
unfolding checked
checked-IsAccepted [] e q l r h = cc
checked-IsAccepted (c ∷ s) none q l r h = cc
checked-IsAccepted (c ∷ s) (some e) none l r h = cc
checked-IsAccepted (c ∷ s) (some e) (some q) l r h = ground (arith, r e)

-- Whatever the client sent: a profile that is accepted has a nickname of 1 to 12 code points, a
-- battery of 1 to 3, and no role.
pub parse_profile-IsAccepted : (raw : Json) (p : Profile) → parse_profile raw ≡ ok p → IsAccepted p
unfolding parse_profile
parse_profile-IsAccepted raw p h =
    let name = clean_text (property (codes "nickname") raw) nickname_max in
    checked-IsAccepted (flatten_lines name) (energy_of (property (codes "energy") raw))
      (preference_of_json (property (codes "preference") raw))
      (omega (
        arith,
        flatten_lines-length name,
        clean_text-length (property (codes "nickname") raw) nickname_max,
      ))
      (energy_of-range (property (codes "energy") raw)) h
