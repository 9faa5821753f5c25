-- ===== src/Town/Sound/Rules.antt =====
-- What a method keeps and ensures, on top of the invariant: `P` of the core before, `Q` of the
-- result and the core after, if it returns. Where it throws, the invariant holds all the same.
use focustown_public.Prelude.{
  ℕ, ◌≤◌, ◌≡◌, refl, sym, subst, Bool, true, false, Option, none, some, List, [], ◌∷◌, arith,
  if◌then◌else◌,
}
use focustown_public.Rules.Profile.{Code, Result, ok, err}
use focustown_public.Store.State.{State}
use focustown_public.Town.World.{World}
use focustown_public.Town.Exec.{
  Exec, Done, pure, throw, lift, gets, stored, done, store_to, reject, continue, finally, on_option,
  ◌>>=◌, for_each,
}
use focustown_public.Town.Hoare.{Core, core, Quiet}
use focustown_public.Town.Sound.{Sound}

abbrev pub Anything : Core → Type 0
Anything k = Unit {0}

abbrev pub Whatever : {A : Type 0} → A → Core → Type 0
Whatever a k = Unit {0}

pub Sound-mono : (new_id : ℕ → ℕ) (m n : ℕ) (k : Core) → m ≤ n → Sound new_id m k → Sound new_id n k
Sound-mono new_id m n k h v = record {
  current_valid = v.current_valid;
  conv_valid = v.conv_valid;
  active_live = v.active_live;
  lines_live = v.lines_live;
  votes_live = v.votes_live;
  waiting_free = v.waiting_free;
  queue_once = v.queue_once;
  closed_empty = v.closed_empty;
  drawn_before = λ id c e. let (j, below, at) = v.drawn_before id c e in (j, omega arith, at);
}

module _ (new_id : ℕ → ℕ) where
  abbrev pub IsSound : World → Type 0
  IsSound w = Sound new_id w.drawn (core w.store)

  abbrev pub Outcome : {A : Type 0} → (A → Core → Type 0) → Result A × World → Type 0
  Outcome Q (ok a, w) = IsSound w × Q a (core w.store)
  Outcome Q (err c, w) = IsSound w × Unit {0}

  pub record Runs {A : Type 0} (P : Core → Type 0) (m : Exec A) (Q : A → Core → Type 0)
      : Type 0 where
    pub at : (w : World) → IsSound w → P (core w.store) → Outcome Q (m w)

  module _ {A : Type 0} {P : Core → Type 0} {Q : A → Core → Type 0} where
    pub Runs-throw : (c : Code) → Runs P (throw {A = A} c) Q
    unfolding throw
    Runs-throw c = record { at = λ w s p. (s, tt) }

    pub Runs-pure : (a : A) → ((k : Core) → P k → Q a k) → Runs P (pure a) Q
    unfolding pure
    Runs-pure a h = record { at = λ w s p. (s, h (core w.store) p) }

    pub Runs-gets :
        (f : World → A)
        → ((w : World) → IsSound w → P (core w.store) → Q (f w) (core w.store))
        → Runs P (gets f) Q
    unfolding gets
    Runs-gets f h = record { at = λ w s p. (s, h w s p) }

    pub Runs-lift :
        (r : Result A) → ((a : A) → r ≡ ok a → (k : Core) → P k → Q a k) → Runs P (lift r) Q
    unfolding lift
    Runs-lift (ok a) h = record { at = λ w s p. (s, h a refl (core w.store) p) }
    Runs-lift (err c) h = record { at = λ w s p. (s, tt) }

    pub Runs-if :
        (b : Bool) (m n : Exec A)
        → (b ≡ true → Runs P m Q)
        → (b ≡ false → Runs P n Q)
        → Runs P (if b then m else n) Q
    Runs-if true m n p q = p refl
    Runs-if false m n p q = q refl

    pub Runs-option :
        {B : Type 0} (o : Option B) (m : Exec A) (n : B → Exec A)
        → (o ≡ none → Runs P m Q)
        → ((b : B) → o ≡ some b → Runs P (n b) Q)
        → Runs P (on_option o m n) Q
    unfolding on_option
    Runs-option none m n p q = p refl
    Runs-option (some b) m n p q = q b refl

    pub Runs-stored :
        (f : State → A × State)
        → ((s : State) (n : ℕ)
            → Sound new_id n (core s)
            → P (core s)
            → Sound new_id n (core (f s).1) × Q (f s).0 (core (f s).1))
        → Runs P (stored f) Q
    unfolding stored
    Runs-stored f h = record { at = λ w s p. h w.store w.drawn s p }

  pub Runs-store_to :
      {P : Core → Type 0} {Q : Done → Core → Type 0} (f : State → State)
      → ((s : State) (n : ℕ)
          → Sound new_id n (core s)
          → P (core s)
          → Sound new_id n (core (f s)) × Q tt (core (f s)))
      → Runs P (store_to f) Q
  unfolding store_to
  Runs-store_to f h = record { at = λ w s p. h w.store w.drawn s p }

  Outcome-pre :
      {A : Type 0} {Q R : A → Core → Type 0} (r : Result A × World)
      → ((a : A) (k : Core) → Q a k → R a k)
      → Outcome Q r
      → Outcome R r
  Outcome-pre (ok a, w) h o = (o.0, h a (core w.store) o.1)
  Outcome-pre (err c, w) h o = o

  pub Runs-weaken :
      {A : Type 0} {P P' : Core → Type 0} {m : Exec A} {Q Q' : A → Core → Type 0}
      → ((k : Core) → P' k → P k)
      → ((a : A) (k : Core) → Q a k → Q' a k)
      → Runs P m Q
      → Runs P' m Q'
  Runs-weaken {m} pre post r = record {
    at = λ w s p. Outcome-pre (m w) post (r.at w s (pre (core w.store) p));
  }

  Outcome-continue :
      {A B : Type 0} {M : A → Core → Type 0} {Q : B → Core → Type 0} (f : A → Exec B)
      → ((a : A) → Runs (M a) (f a) Q)
      → (r : Result A × World) → Outcome M r
      → Outcome Q (continue r.0 f r.1)
  unfolding continue
  Outcome-continue f h (ok a, w) o = (h a).at w o.0 o.1
  Outcome-continue f h (err c, w) o = o

  pub Runs-bind :
      {A B : Type 0} {P : Core → Type 0} {Q : B → Core → Type 0} (M : A → Core → Type 0)
      (m : Exec A) (f : A → Exec B)
      → Runs P m M
      → ((a : A) → Runs (M a) (f a) Q)
      → Runs P (m >>= f) Q
  unfolding ◌>>=◌
  Runs-bind M m f r h = record { at = λ w s p. Outcome-continue f h (m w) (r.at w s p) }

  Outcome-quiet :
      {A : Type 0} (P : Core → Type 0) (r : Result A × World)
      → IsSound r.1
      → P (core r.1.store)
      → Outcome (λ (a : A) k. P k) r
  Outcome-quiet P (ok a, w) s p = (s, p)
  Outcome-quiet P (err c, w) s p = (s, tt)

  -- A quiet method keeps whatever was known.
  pub Runs-quiet : {A : Type 0} (P : Core → Type 0) (m : Exec A) → Quiet m → Runs P m (λ a. P)
  Runs-quiet P m q = record {
    at = λ w s p.
        Outcome-quiet P (m w)
          (subst (Sound new_id (m w).1.drawn) (sym (q.same w))
            (Sound-mono new_id w.drawn (m w).1.drawn (core w.store) (q.grows w) s))
          (subst P (sym (q.same w)) p);
  }

  -- A quiet step, and the rest.
  pub Runs-after :
      {A B : Type 0} {P : Core → Type 0} {Q : B → Core → Type 0} (m : Exec A) (f : A → Exec B)
      → Quiet m
      → ((a : A) → Runs P (f a) Q)
      → Runs P (m >>= f) Q
  Runs-after {P} m f q h = Runs-bind (λ a. P) m f (Runs-quiet P m q) h

  pub Runs-for_each :
      {A : Type 0} {P : Core → Type 0} (xs : List A) (f : A → Exec Done)
      → ((a : A) → Runs P (f a) (λ u. P))
      → Runs P (for_each xs f) (λ u. P)
  unfolding for_each
  Runs-for_each {P} [] f h = unfold done in record { at = λ w s p. (s, p) }
  Runs-for_each {P} (x ∷ xs) f h =
      Runs-bind (λ u. P) (f x) (λ u. for_each xs f) (h x) (λ u. Runs-for_each xs f h)

  -- Where the test does not throw, it failed.
  pub Runs-reject :
      {P : Core → Type 0} (b : Bool) (c : Code) → Runs P (reject b c) (λ u k. P k × (b ≡ false))
  unfolding reject
  Runs-reject true c = record { at = λ w s p. (s, tt) }
  Runs-reject false c = record { at = λ w s p. (s, (p, refl)) }

  -- What the precondition says of no state may be used as a fact.
  pub Runs-assume :
      {A : Type 0} {P : Core → Type 0} {m : Exec A} {Q : A → Core → Type 0} {X : Type 0}
      → ((k : Core) → P k → X)
      → (X → Runs P m Q)
      → Runs P m Q
  Runs-assume get h = record { at = λ w s p. (h (get (core w.store) p)).at w s p }

  Outcome-after :
      {A : Type 0} (f : World → World)
      → ((w : World) → (f w).store ≡ w.store)
      → ((w : World) → (f w).drawn ≡ w.drawn)
      → (r : Result A × World) → Outcome (λ (a : A) k. Unit {0}) r
      → Outcome (λ (a : A) k. Unit {0}) (r.0, f r.1)
  Outcome-after f same drawn (ok a, w) o = (
    subst (λ n. Sound new_id n (core (f w).store)) (sym (drawn w))
        (subst (λ t. Sound new_id w.drawn (core t)) (sym (same w)) o.0),
    tt,
  )
  Outcome-after f same drawn (err c, w) o = (
    subst (λ n. Sound new_id n (core (f w).store)) (sym (drawn w))
        (subst (λ t. Sound new_id w.drawn (core t)) (sym (same w)) o.0),
    tt,
  )

  pub Runs-finally :
      {A : Type 0} {P : Core → Type 0} (m : Exec A) (f : World → World)
      → ((w : World) → (f w).store ≡ w.store)
      → ((w : World) → (f w).drawn ≡ w.drawn)
      → Runs P m (λ a. Anything)
      → Runs P (finally m f) (λ a. Anything)
  unfolding finally
  Runs-finally m f same drawn r = record {
    at = λ w s p. Outcome-after f same drawn (m w) (r.at w s p);
  }
