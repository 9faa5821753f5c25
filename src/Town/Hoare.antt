-- ===== src/Town/Hoare.antt =====
-- Methods that leave the conversations and the queue alone, and rules for what the others keep and
-- ensure: one for each way to build a method.
use focustown_public.Prelude.{
  ℕ, ◌≤◌, ◌≡◌, refl, ap, ◌∙◌, Bool, true, false, Option, none, some, List, [], ◌∷◌, Assoc, arith,
  if◌then◌else◌,
}
use focustown_public.Guest.{GuestId}
use focustown_public.Rules.Profile.{Code, Result, ok, err}
use focustown_public.Rules.Pairing.{Waiting}
use focustown_public.Store.State.{State, Conversation, Line}
use focustown_public.Town.World.{World}
use focustown_public.Town.Exec.{
  Exec, Done, finally, on_throw, cleaned, on_option, pure, throw, lift, gets, done, reject,
  continue, ◌>>=◌, for_each,
}

-- What the conversations and the queue are made of, and how many ids have been drawn.
pub record Core : Type 0 where
  pub queue : List Waiting
  pub active : List ℕ
  pub current : Assoc GuestId ℕ
  pub convs : Assoc ℕ Conversation
  pub lines : Assoc ℕ (List Line)
  pub votes : Assoc ℕ (List GuestId)
  pub closed : Assoc ℕ ℕ

abbrev pub core : State → Core
core s = record {
  queue = s.queue;
  active = s.active;
  current = s.current;
  convs = s.convs;
  lines = s.lines;
  votes = s.votes;
  closed = s.closed;
}

-- The method changes nothing of the core, whether it returns or throws.
pub record Quiet {A : Type 0} (m : Exec A) : Type 0 where
  pub same : (w : World) → core (m w).1.store ≡ core w.store
  pub grows : (w : World) → w.drawn ≤ (m w).1.drawn

module _ {A : Type 0} where
  pub Quiet-pure : (a : A) → Quiet (pure a)
  unfolding pure
  Quiet-pure a = record { same = λ w. refl; grows = λ w. omega arith }

  pub Quiet-throw : (c : Code) → Quiet (throw {A = A} c)
  unfolding throw
  Quiet-throw c = record { same = λ w. refl; grows = λ w. omega arith }

  pub Quiet-lift : (r : Result A) → Quiet (lift r)
  unfolding lift
  Quiet-lift r = record { same = λ w. refl; grows = λ w. omega arith }

  pub Quiet-gets : (f : World → A) → Quiet (gets f)
  unfolding gets
  Quiet-gets f = record { same = λ w. refl; grows = λ w. omega arith }

  pub Quiet-if : (b : Bool) (m n : Exec A) → Quiet m → Quiet n → Quiet (if b then m else n)
  Quiet-if true m n p q = p
  Quiet-if false m n p q = q

  pub Quiet-option :
      {B : Type 0} (o : Option B) (m : Exec A) (n : B → Exec A)
      → Quiet m
      → ((b : B) → Quiet (n b))
      → Quiet (on_option o m n)
  unfolding on_option
  Quiet-option none m n p q = p
  Quiet-option (some b) m n p q = q b

pub Quiet-done : Quiet done
unfolding done
Quiet-done = record { same = λ w. refl; grows = λ w. omega arith }

pub Quiet-reject : (b : Bool) (c : Code) → Quiet (reject b c)
unfolding reject
Quiet-reject b c = record { same = λ w. refl; grows = λ w. omega arith }

module _ {A B : Type 0} where
  Quiet-continue : (r : Result A) (f : A → Exec B) → ((a : A) → Quiet (f a)) → Quiet (continue r f)
  unfolding continue
  Quiet-continue (ok a) f q = q a
  Quiet-continue (err c) f q = record { same = λ w. refl; grows = λ w. omega arith }

  pub Quiet-bind :
      (m : Exec A) (f : A → Exec B) → Quiet m → ((a : A) → Quiet (f a)) → Quiet (m >>= f)
  unfolding ◌>>=◌
  Quiet-bind m f p q = record {
    same = λ w. (Quiet-continue (m w).0 f q).same (m w).1 ∙ p.same w;
    grows = λ w. omega (arith, (Quiet-continue (m w).0 f q).grows (m w).1, p.grows w);
  }

pub Quiet-for_each :
    {A : Type 0} (xs : List A) (f : A → Exec Done) → ((a : A) → Quiet (f a)) → Quiet (for_each xs f)
unfolding for_each
Quiet-for_each [] f q = Quiet-done
Quiet-for_each (x ∷ xs) f q =
    Quiet-bind (f x) (λ _. for_each xs f) (q x) (λ _. Quiet-for_each xs f q)

module _ {A : Type 0} (m : Exec A) (f : World → World) (p : Quiet m)
    (same : (w : World) → (f w).store ≡ w.store) (drawn : (w : World) → (f w).drawn ≡ w.drawn) where
  pub Quiet-finally : Quiet (finally m f)
  unfolding finally
  Quiet-finally = record {
    same = λ w. ap core (same (m w).1) ∙ p.same w;
    grows = λ w. omega (arith, p.grows w, drawn (m w).1);
  }

  Quiet-cleaned :
      (w : World) (r : Result A × World)
      → core r.1.store ≡ core w.store
      → w.drawn ≤ r.1.drawn
      → (core (cleaned f r).1.store ≡ core w.store) × (w.drawn ≤ (cleaned f r).1.drawn)
  unfolding cleaned
  Quiet-cleaned w (ok a, v) e h = (e, h)
  Quiet-cleaned w (err c, v) e h = (ap core (same v) ∙ e, omega (arith, drawn v))

  pub Quiet-on_throw : Quiet (on_throw m f)
  unfolding on_throw
  Quiet-on_throw = record {
    same = λ w. (Quiet-cleaned w (m w) (p.same w) (p.grows w)).0;
    grows = λ w. (Quiet-cleaned w (m w) (p.same w) (p.grows w)).1;
  }

pub ruleset quiet_rules = (
  Quiet-pure, Quiet-throw, Quiet-lift, Quiet-gets, Quiet-if, Quiet-option, Quiet-done, Quiet-reject,
  Quiet-bind, Quiet-for_each,
)
