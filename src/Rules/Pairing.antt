-- ===== src/Rules/Pairing.antt =====
-- edge/src/rules.ts, pairing: compatibility and pickPartner. Times are milliseconds; a comparison
-- of a difference with a bound is written as a sum, as a difference may be negative in the source.
pub mod Laws
use focustown_public.Prelude.{
  ℕ, ◌+◌, ◌-◌, ◌≤◌, Bool, true, false, not, ◌&&◌, ◌||◌, Option, none, some, List, [], ◌∷◌, ltb, leb,
  eqb, if◌then◌else◌, contains, ◌==◌,
}
use focustown_public.Guest.{GuestId, GuestId_eq}
use focustown_public.Rules.Profile.{Profile, Preference, casual, listen, story}

pub record Waiting : Type 0 where
  pub guest_id : GuestId
  pub profile : Profile
  pub joined_at : ℕ

abbrev pub preference_beq : Preference → Preference → Bool
preference_beq casual casual = true
preference_beq listen listen = true
preference_beq story story = true
preference_beq _ _ = false

-- `new Set([p, q]).has(x)`
abbrev pair_has : Preference → Preference → Preference → Bool
pair_has p q x = preference_beq p x || preference_beq q x

-- the first part of `compatibility`
unfoldable pub preference_score : Preference → Preference → ℕ
preference_score p q =
    if pair_has p q listen && pair_has p q story
    then 3
    else if pair_has p q casual
    then 1
    else if preference_beq p q && pair_has p q story
    then 1
    else 0

unfoldable pub compatibility : Profile → Profile → ℕ
unfolding preference_score
compatibility me other =
    preference_score me.preference other.preference
    + (if leb me.energy (other.energy + 1) && leb other.energy (me.energy + 1) then 1 else 0)

module _ (me : Waiting) (now relax_after : ℕ) (blocked : List GuestId) where
  -- a candidate that the loop does not `continue` past
  unfoldable pub eligible : Waiting → Bool
  eligible other =
      let relaxed =
        leb (me.joined_at + relax_after) now || leb (other.joined_at + relax_after) now in
      not (other.guest_id == me.guest_id || contains blocked other.guest_id)
      && not (ltb (compatibility me.profile other.profile) 1 && not relaxed)

  -- `score > bestScore || (score === bestScore && best && other.joinedAt < best.joinedAt)`;
  -- with no best yet, bestScore is -1 and every score is above it.
  unfoldable pub better : Option Waiting → Waiting → Bool
  better none other = true
  better (some best) other =
      let score = compatibility me.profile other.profile in
      let best_score = compatibility me.profile best.profile in
      ltb best_score score || (eqb score best_score && ltb other.joined_at best.joined_at)

  -- one round of the loop
  unfoldable pub consider : Option Waiting → Waiting → Option Waiting
  unfolding eligible better
  consider best other = if eligible other && better best other then some other else best

  unfoldable pub pick_from : Option Waiting → List Waiting → Option Waiting
  unfolding consider
  pick_from best [] = best
  pick_from best (other ∷ rest) = pick_from (consider best other) rest

  unfoldable pub pick_partner : List Waiting → Option Waiting
  unfolding pick_from
  pick_partner candidates = pick_from none candidates
