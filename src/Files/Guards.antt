-- ===== src/Files/Guards.antt =====
-- `looksBinary` against its description.
use embervm.Prelude.{
  ℕ, zero, suc, ◌<◌, min, true, some, List, [], ◌∷◌, length, get_elem?, ◌==◌, ◌≡◌, ◌↔◌, ap, arith,
  inl, inr, Bool-cases, ==_iff,
}
use embervm.Files.{has_nul, looks_binary}

has_nul_sound :
    (n : ℕ) (bytes : List ℕ)
    → has_nul n bytes ≡ true
    → (i : ℕ) × (i < n) × (get_elem? bytes i ≡ some 0)
unfolding has_nul
has_nul_sound zero bytes h = cc
has_nul_sound (suc n) [] h = cc
has_nul_sound (suc n) (b ∷ bytes) h = elim (Bool-cases (b == 0)) [
  | inl e ↦ (0, omega arith, ap some ((==_iff b 0).0 e))
  | inr e ↦ let (i, lt, at) = has_nul_sound n bytes (rw e at h) in (suc i, omega arith, at)
]

has_nul_complete :
    (n : ℕ) (bytes : List ℕ) (i : ℕ) → i < n → get_elem? bytes i ≡ some 0 → has_nul n bytes ≡ true
unfolding has_nul
has_nul_complete zero bytes i lt h = absurd (omega arith)
has_nul_complete (suc n) [] i lt h = cc
has_nul_complete (suc n) (b ∷ bytes) zero lt h = ground arith
has_nul_complete (suc n) (b ∷ bytes) (suc i) lt h =
    ground (arith, has_nul_complete n bytes i (omega arith) h)

lt-length_of_get_elem? :
    (bytes : List ℕ) (i : ℕ) {b : ℕ} → get_elem? bytes i ≡ some b → i < length bytes
lt-length_of_get_elem? [] i h = cc
lt-length_of_get_elem? (b ∷ bytes) zero h = omega arith
lt-length_of_get_elem? (b ∷ bytes) (suc i) h = omega (arith, lt-length_of_get_elem? bytes i h)

-- A file counts as binary exactly when one of its first 8192 bytes is NUL.
pub looks_binary_iff :
    (bytes : List ℕ)
    → (looks_binary bytes ≡ true) ↔ ((i : ℕ) × (i < 8192) × (get_elem? bytes i ≡ some 0))
unfolding looks_binary
looks_binary_iff bytes = (
  (λ h. let (i, lt, at) = has_nul_sound (min (length bytes) 8192) bytes h in (i, omega arith, at)),
  λ (i, lt, at).
      has_nul_complete (min (length bytes) 8192) bytes i
        (omega (arith, lt-length_of_get_elem? bytes i at)) at,
)
