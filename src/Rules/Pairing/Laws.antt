-- ===== src/Rules/Pairing/Laws.antt =====
-- edge/src/rules.ts, pickPartner and compatibility: lemmas.
use focustown_public.Prelude.{
  ℕ, ◌≤◌, ◌<◌, ◌≡◌, ◌≢◌, refl, ◌⊎◌, inl, inr, true, false, Option, none, some, List, [], ◌∷◌, arith,
  Among, Bool-cases, if◌then◌else◌, sym, subst, ◌∙◌, ◌↔◌, contains,
}
use mathlib.Core.Bool.{false≢true}
use focustown_public.Guest.{GuestId, GuestId_eq, guest_beq_iff}
use focustown_public.Rules.Profile.{Profile, Preference}
use focustown_public.Rules.Pairing.{
  Waiting, preference_score, compatibility, eligible, better, consider, pick_from, pick_partner,
}

preference_score_comm : (p q : Preference) → preference_score p q ≡ preference_score q p
unfolding preference_score
preference_score_comm p q = ground arith

-- How well two visitors go together does not depend on which of them is asked.
pub compatibility_comm : (a b : Profile) → compatibility a b ≡ compatibility b a
unfolding compatibility
compatibility_comm a b = ground (arith, preference_score_comm a.preference b.preference)

module _ (me : Waiting) (now relax_after : ℕ) (blocked : List GuestId) where
  -- `q` is no better a partner than `p`: a lower score, or the same and no longer a wait.
  pub NoBetter : Waiting → Waiting → Type 0
  NoBetter q p =
      (compatibility me.profile q.profile < compatibility me.profile p.profile)
      ⊎ ((compatibility me.profile q.profile ≡ compatibility me.profile p.profile)
          × (p.joined_at ≤ q.joined_at))

  NoBetter-refl : (p : Waiting) → NoBetter p p
  unfolding NoBetter
  NoBetter-refl p = inr (refl, omega arith)

  NoBetter-trans : (p q r : Waiting) → NoBetter p q → NoBetter q r → NoBetter p r
  unfolding NoBetter
  NoBetter-trans p q r h k = ground arith

  better-NoBetter :
      (p q : Waiting) → better me now relax_after blocked (some p) q ≡ true → NoBetter p q
  unfolding NoBetter better
  better-NoBetter p q h = ground arith

  not_better-NoBetter :
      (p q : Waiting) → better me now relax_after blocked (some p) q ≡ false → NoBetter q p
  unfolding NoBetter better
  not_better-NoBetter p q h = ground arith

  -- What the loop has found so far is an eligible candidate, and the best of those it has seen.
  pub IsEligible : Waiting → Type 0
  IsEligible q = eligible me now relax_after blocked q ≡ true

  -- Of the candidates in `S`, the one found is eligible and no eligible one is better; if none is
  -- found, none is eligible.
  abbrev pub Best : (Waiting → Type 0) → Option Waiting → Type 0
  Best S none = (q : Waiting) → S q → eligible me now relax_after blocked q ≡ false
  Best S (some p) = S p × IsEligible p × ((q : Waiting) → S q → IsEligible q → NoBetter q p)

  Best-iff :
      {S T : Waiting → Type 0} (o : Option Waiting)
      → ((q : Waiting) → S q ↔ T q)
      → Best S o
      → Best T o
  Best-iff none h b = λ q t. b q ((h q).1 t)
  Best-iff (some p) h b = ((h p).0 b.0, b.1, λ q t e. b.2 q ((h q).1 t) e)

  abbrev With : (Waiting → Type 0) → Waiting → Waiting → Type 0
  With S q x = S x ⊎ (x ≡ q)

  first-Best :
      {S : Waiting → Type 0} (q : Waiting) → Best S none → IsEligible q → Best (With S q) (some q)
  unfolding IsEligible
  first-Best q b e = (
    inr refl,
    e,
    λ x m ex. elim m [
      | inl s ↦ absurd (false≢true (sym (b x s) ∙ ex))
      | inr i ↦ rw i (NoBetter-refl q)
    ],
  )

  skip-Best :
      (S : Waiting → Type 0) (o : Option Waiting) (q : Waiting)
      → Best S o
      → eligible me now relax_after blocked q ≡ false
      → Best (With S q) o
  unfolding IsEligible
  skip-Best S none q b e = λ x m. elim m [ inl s ↦ b x s | inr i ↦ rw i e ]
  skip-Best S (some p) q b e = (
    inl b.0,
    b.1,
    λ x m ex. elim m [
      | inl s ↦ b.2 x s ex
      | inr i ↦ absurd (false≢true (sym e ∙ subst IsEligible i ex))
    ],
  )

  replace-Best :
      {S : Waiting → Type 0} (p q : Waiting)
      → Best S (some p)
      → IsEligible q
      → NoBetter p q
      → Best (With S q) (some q)
  replace-Best p q b e h = (
    inr refl,
    e,
    λ x m ex. elim m [
      | inl s ↦ NoBetter-trans x p q (b.2 x s ex) h
      | inr i ↦ rw i (NoBetter-refl q)
    ],
  )

  retain-Best :
      {S : Waiting → Type 0} (p q : Waiting)
      → Best S (some p)
      → NoBetter q p
      → Best (With S q) (some p)
  retain-Best p q b h = (inl b.0, b.1, λ x m ex. elim m [ inl s ↦ b.2 x s ex | inr i ↦ rw i h ])

  eligible-Best :
      (S : Waiting → Type 0) (o : Option Waiting) (q : Waiting)
      → Best S o
      → IsEligible q
      → Best (With S q) (if better me now relax_after blocked o q then some q else o)
  eligible-Best S none q b e = unfold better in first-Best q b e
  eligible-Best S (some p) q b e =
      elim (Bool-cases (better me now relax_after blocked (some p) q)) [
        | inl up ↦ rw up (replace-Best p q b e (better-NoBetter p q up))
        | inr down ↦ rw down (retain-Best p q b (not_better-NoBetter p q down))
      ]

  consider-Best :
      (S : Waiting → Type 0) (o : Option Waiting) (q : Waiting)
      → Best S o
      → Best (With S q) (consider me now relax_after blocked o q)
  unfolding consider IsEligible
  consider-Best S o q b = elim (Bool-cases (eligible me now relax_after blocked q)) [
    | inr out ↦ rw out (skip-Best S o q b out)
    | inl in_reach ↦ rw in_reach (eligible-Best S o q b in_reach)
  ]

  pick_from-Best :
      (S : Waiting → Type 0) (o : Option Waiting) (xs : List Waiting)
      → Best S o
      → Best (λ x. S x ⊎ Among x xs) (pick_from me now relax_after blocked o xs)
  unfolding pick_from
  pick_from-Best S o [] b = Best-iff o (λ q. (inl, λ m. elim m [ inl s ↦ s | inr n ↦ absurd n ])) b
  pick_from-Best S o (y ∷ ys) b =
      let o' = consider me now relax_after blocked o y in
      Best-iff (pick_from me now relax_after blocked o' ys)
        (λ q. (
          λ m. elim m [ inl (inl s) ↦ inl s | inl (inr i) ↦ inr (inl i) | inr r ↦ inr (inr r) ],
          λ m. elim m [ inl s ↦ inl (inl s) | inr (inl i) ↦ inl (inr i) | inr (inr r) ↦ inr r ],
        ))
        (pick_from-Best (With S y) o' ys (consider-Best S o y b))

  -- The partner picked is one of the candidates, is eligible, and no eligible candidate scores
  -- higher or scores the same and has waited longer; nobody is picked only if nobody is eligible.
  pub pick_partner-Best :
      (candidates : List Waiting)
      → Best (λ q. Among q candidates) (pick_partner me now relax_after blocked candidates)
  unfolding pick_partner
  pick_partner-Best candidates =
      Best-iff (pick_from me now relax_after blocked none candidates)
        (λ q. (λ m. elim m [ inl n ↦ absurd n | inr r ↦ r ], inr))
        (pick_from-Best (λ q. ⊥) none candidates (λ q n. absurd n))

  -- An eligible candidate is somebody else, and no block stands between the two.
  pub IsEligible-safe :
      (q : Waiting)
      → IsEligible q
      → (q.guest_id ≢ me.guest_id) × (contains blocked q.guest_id ≡ false)
  unfolding IsEligible eligible
  IsEligible-safe q h = ground (arith, guest_beq_iff q.guest_id me.guest_id)
