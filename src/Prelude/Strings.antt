-- ===== src/Prelude/Strings.antt =====
-- JavaScript strings as lists of code points (a lone surrogate is a code point of its own), and
-- the values that `JSON.parse` returns.
use Prim.Native.Nat.{ℕ}
use Prim.Native.String.{String}
use Prim.Native.Char.{code}
use mathlib.Core.Path.{◌≡◌, refl}
use mathlib.Core.Logic.{◌↔◌}
use mathlib.Core.Bool.{Bool, true, false, ◌&&◌}
use mathlib.Core.List.{List, [], ◌∷◌}
use native.Mathlib.Omega.{arith}
use focustown_public.Prelude.Tests.{if◌then◌else◌, eqb}
use focustown_public.Prelude.Keys.{Eq}

abbrev pub Text : Type 0
Text = List ℕ

-- The code points of a literal.
abbrev pub codes : String → Text
codes String.[] = []
codes (String.◌∷◌ c s) = code c ∷ codes s

unfoldable pub text_beq : Text → Text → Bool
text_beq [] [] = true
text_beq [] (y ∷ ys) = false
text_beq (x ∷ xs) [] = false
text_beq (x ∷ xs) (y ∷ ys) = eqb x y && text_beq xs ys

pub text_beq_iff : (xs ys : Text) → (text_beq xs ys ≡ true) ↔ (xs ≡ ys)
unfolding text_beq
text_beq_iff [] [] = (λ e. refl, λ e. refl)
text_beq_iff [] (y ∷ ys) = (λ e. cc, λ e. cc)
text_beq_iff (x ∷ xs) [] = (λ e. cc, λ e. cc)
text_beq_iff (x ∷ xs) (y ∷ ys) =
    (λ e. ground (arith, text_beq_iff xs ys), λ e. ground (arith, text_beq_iff xs ys))

instance abbrev pub Text_eq : Eq Text
Text_eq = record { beq = text_beq; beq_iff = text_beq_iff }

-- `other_num` is a number that is no natural number.
mutual
  pub data Json : Type 0 where
    undefined null arr other_num : Json
    bool : Bool → Json
    num : ℕ → Json
    str : Text → Json
    obj : Fields → Json

  pub data Fields : Type 0 where
    no_fields : Fields
    field : Text → Json → Fields → Fields

field_of : Text → Fields → Json
field_of k no_fields = undefined
field_of k (field j v fs) = if text_beq j k then v else field_of k fs

-- `(raw && typeof raw === "object" ? raw : {})[k]`
unfoldable pub property : Text → Json → Json
unfolding field_of
property k (obj fs) = field_of k fs
property k _ = undefined
