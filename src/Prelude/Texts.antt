-- ===== src/Prelude/Texts.antt =====
-- JavaScript strings whose characters the program walks, as lists of UTF-16 code units.
use Prim.Native.Nat.{ℕ, suc, ◌-◌}
use Prim.Native.Char.{code}
use Prim.Native.String.{String}
use mathlib.Core.Path.{◌≡◌, refl, ap}
use mathlib.Core.Logic.{◌↔◌, ◌≢◌}
use mathlib.Core.Bool.{Bool, true, false, ◌&&◌}
use mathlib.Core.List.{List, [], ◌∷◌, ◌++◌}
use mathlib.Core.Option.{Option, none, some}
use native.Mathlib.Omega.{arith}
use embervm.Prelude.Tests.{◌==◌, if◌then◌else◌}
use embervm.Prelude.Lists.{length, take, drop, All}

abbrev pub Text : Type 0
Text = List ℕ

-- The code units of a literal whose characters are below U+10000.
abbrev pub codes : String → Text
codes String.[] = []
codes (String.◌∷◌ c s) = code c ∷ codes s

-- `===` on strings.
unfoldable pub text_eq : Text → Text → Bool
text_eq [] [] = true
text_eq [] (b ∷ bs) = false
text_eq (a ∷ as') [] = false
text_eq (a ∷ as') (b ∷ bs) = a == b && text_eq as' bs

pub text_eq_iff : (a b : Text) → (text_eq a b ≡ true) ↔ (a ≡ b)
unfolding text_eq
text_eq_iff [] [] = ground arith
text_eq_iff [] (b ∷ bs) = ground arith
text_eq_iff (a ∷ as') [] = ground arith
text_eq_iff (a ∷ as') (b ∷ bs) = ground (arith, text_eq_iff as' bs)

-- `String.prototype.startsWith` and `endsWith`, with one code unit.
abbrev pub starts_with : ℕ → Text → Bool
starts_with c [] = false
starts_with c (d ∷ s) = d == c

abbrev pub ends_with : ℕ → Text → Bool
ends_with c [] = false
ends_with c (d ∷ []) = d == c
ends_with c (d ∷ e ∷ s) = ends_with c (e ∷ s)

-- `String.prototype.startsWith` with a string.
abbrev pub has_prefix : Text → Text → Bool
has_prefix [] s = true
has_prefix (c ∷ p) [] = false
has_prefix (c ∷ p) (d ∷ s) = c == d && has_prefix p s

-- `String.prototype.lastIndexOf` with one code unit; `none` is -1.
unfoldable pub last_index_of : ℕ → Text → Option ℕ
last_index_of c [] = none
last_index_of c (d ∷ s) = elim (last_index_of c s) [
  | some i ↦ some (suc i)
  | none ↦ if d == c then some 0 else none
]

-- `s.slice(0, s.lastIndexOf(c))` and `s.slice(s.lastIndexOf(c) + 1)`; `slice(0, -1)` leaves out the
-- last code unit, and `slice(0)` nothing.
unfoldable pub before_last : ℕ → Text → Text
before_last c s = elim (last_index_of c s) [ some i ↦ take i s | none ↦ take (length s - 1) s ]

unfoldable pub after_last : ℕ → Text → Text
after_last c s = elim (last_index_of c s) [ some i ↦ drop (suc i) s | none ↦ s ]

-- The code unit `c` does not occur in the text.
abbrev pub Without : ℕ → Text → Type 0
Without c s = All (λ d. d ≢ c) s

last_index_of-Without : (c : ℕ) (s : Text) → Without c s → last_index_of c s ≡ none
unfolding last_index_of
last_index_of-Without c [] h = refl
last_index_of-Without c (d ∷ s) h = ground (arith, last_index_of-Without c s h.1)

pub last_index_of-append :
    (c : ℕ) (a b : Text) → Without c b → last_index_of c (a ++ c ∷ b) ≡ some (length a)
unfolding last_index_of
last_index_of-append c [] b h = ground (arith, last_index_of-Without c b h)
last_index_of-append c (d ∷ a) b h = ground (arith, last_index_of-append c a b h)

take-append : (a b : Text) → take (length a) (a ++ b) ≡ a
take-append [] b = refl
take-append (x ∷ a) b = ap (x ∷◌) (take-append a b)

drop-append_cons : (a b : Text) (c : ℕ) → drop (suc (length a)) (a ++ c ∷ b) ≡ b
drop-append_cons [] b c = refl
drop-append_cons (x ∷ a) b c = drop-append_cons a b c

pub before_last-append : (c : ℕ) (a b : Text) → Without c b → before_last c (a ++ c ∷ b) ≡ a
unfolding before_last
before_last-append c a b h = rw (before_last, last_index_of-append c a b h) (take-append a (c ∷ b))

pub after_last-append : (c : ℕ) (a b : Text) → Without c b → after_last c (a ++ c ∷ b) ≡ b
unfolding after_last
after_last-append c a b h = rw (after_last, last_index_of-append c a b h) (drop-append_cons a b c)
