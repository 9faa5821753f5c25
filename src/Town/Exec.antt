-- ===== src/Town/Exec.antt =====
-- Methods of Town: they change the world and may throw. What was written before a throw stays.
use focustown_public.Prelude.{Option, none, some, Bool, List, [], ◌∷◌, if◌then◌else◌}
use focustown_public.Rules.Profile.{Code, Result, ok, err, hook_failed}
use focustown_public.Store.State.{State}
use focustown_public.Town.World.{World, Deps}

abbrev pub Exec : Type 0 → Type 0
Exec A = World → Result A × World

abbrev pub Done : Type 0
Done = Unit {0}

module _ {A : Type 0} where
  unfoldable pub pure : A → Exec A
  pure a w = (ok a, w)

  unfoldable pub throw : Code → Exec A
  throw c w = (err c, w)

  unfoldable pub lift : Result A → Exec A
  lift r w = (r, w)

  unfoldable pub gets : (World → A) → Exec A
  gets f w = (ok (f w), w)

  -- a method of the store that also returns a value
  unfoldable pub stored : (State → A × State) → Exec A
  stored f w = let (a, s) = f w.store in (ok a, record w { store = s })

unfoldable pub done : Exec Done
done w = (ok tt, w)

unfoldable pub modify : (World → World) → Exec Done
modify f w = (ok tt, f w)

-- a method of the store
unfoldable pub store_to : (State → State) → Exec Done
store_to f w = (ok tt, record w { store = f w.store })

-- `if (b) throw new InputError(code)`
unfoldable pub reject : Bool → Code → Exec Done
reject b c w = (if b then err c else ok tt, w)

module _ {A B : Type 0} where
  unfoldable pub continue : Result A → (A → Exec B) → Exec B
  continue (ok a) f w = f a w
  continue (err c) f w = (err c, w)

  infixl 10 ◌>>=◌ ◌>>◌
  unfoldable pub ◌>>=◌ : Exec A → (A → Exec B) → Exec B
  unfolding continue
  ◌>>=◌ m f w = let (r, w') = m w in continue r f w'

  abbrev pub ◌>>◌ : Exec A → Exec B → Exec B
  m >> n = m >>= λ _. n

-- `await` of a hook that writes to D1: other events run, and then it has succeeded or throws.
unfoldable pub awaited : Deps → Exec Done
unfolding modify gets reject
awaited d = do modify d.meanwhile; failed ← gets d.rejects; reject failed hook_failed

-- `for (const x of xs) …`
unfoldable pub for_each : {A : Type 0} → List A → (A → Exec Done) → Exec Done
for_each [] f = done
for_each (x ∷ xs) f = f x >> for_each xs f

-- `if (o) some(o) else none`, for an action on each side
unfoldable pub on_option : {A B : Type 0} → Option A → Exec B → (A → Exec B) → Exec B
on_option none m f = m
on_option (some a) m f = f a

-- `try { m } finally { f }`, and a `finally` that matters only where `m` throws
unfoldable pub finally : {A : Type 0} → Exec A → (World → World) → Exec A
finally m f w = let (r, w') = m w in (r, f w')

unfoldable pub cleaned : {A : Type 0} → (World → World) → Result A × World → Result A × World
cleaned f (ok a, w) = (ok a, w)
cleaned f (err c, w) = (err c, f w)

unfoldable pub on_throw : {A : Type 0} → Exec A → (World → World) → Exec A
unfolding cleaned
on_throw m f w = cleaned f (m w)
