-- ===== src/Prelude/Groups.antt =====
-- Weights of the elements of a list, summed by a key.
use Prim.Native.Nat.{ℕ, ◌+◌}
use Prim.Native.String.{String}
use mathlib.Core.Path.{◌≡◌, refl, ap, ◌∙◌}
use mathlib.Core.Logic.{inl, inr}
use mathlib.Core.Bool.{Bool, false, ◌||◌}
use mathlib.Core.List.{List, [], ◌∷◌}
use native.Mathlib.Omega.{arith}
use embervm.Prelude.Tests.{if◌then◌else◌, Bool-cases}
use text.Mathlib.Text.{◌==◌ as str_eq}
use text.Mathlib.TextEquality.{eq_iff as str_eq_iff}

abbrev pub is_among : List String → String → Bool
is_among [] k = false
is_among (t ∷ ts) k = str_eq k t || is_among ts k

-- No key stands twice.
abbrev pub Distinct : List String → Type 0
Distinct [] = Unit
Distinct (t ∷ ts) = (is_among ts t ≡ false) × Distinct ts

abbrev pub sum_over : (String → ℕ) → List String → ℕ
sum_over f [] = 0
sum_over f (t ∷ ts) = f t + sum_over f ts

module _ {ℓ} {A : Type ℓ} (key : A → String) (weight : A → ℕ) where
  -- The weight of the elements with the key.
  abbrev pub weight_in : List A → String → ℕ
  weight_in [] k = 0
  weight_in (x ∷ xs) k = if str_eq (key x) k then weight x + weight_in xs k else weight_in xs k

  -- The weight of the elements whose key is one of the list.
  abbrev pub weight_among : List String → List A → ℕ
  weight_among ks [] = 0
  weight_among ks (x ∷ xs) =
      if is_among ks (key x) then weight x + weight_among ks xs else weight_among ks xs

  weight_among-none : (xs : List A) → weight_among [] xs ≡ 0
  weight_among-none [] = refl
  weight_among-none (x ∷ xs) = weight_among-none xs

  weight_among-cons :
      (k : String) (ks : List String) (xs : List A)
      → is_among ks k ≡ false
      → weight_among (k ∷ ks) xs ≡ weight_in xs k + weight_among ks xs
  weight_among-cons k ks [] h = refl
  weight_among-cons k ks (x ∷ xs) h =
      let ih : weight_among (k ∷ ks) xs ≡ weight_in xs k + weight_among ks xs =
        weight_among-cons k ks xs h in
      elim (Bool-cases (str_eq (key x) k)) [
        | inl e ↦
            let out : is_among ks (key x) ≡ false =
              ap (λ z. is_among ks z) ((str_eq_iff (key x) k).0 e) ∙ h in
            rw (e, out, ih) (omega arith)
        | inr n ↦ ground (arith, ih)
      ]

  -- The groups of distinct keys have the weight of their union.
  pub sum_over-weight_in :
      (ks : List String) (xs : List A)
      → Distinct ks
      → sum_over (weight_in xs) ks ≡ weight_among ks xs
  sum_over-weight_in [] xs h = omega (arith, weight_among-none xs)
  sum_over-weight_in (k ∷ ks) xs h =
      omega (arith, weight_among-cons k ks xs h.0, sum_over-weight_in ks xs h.1)
