-- ===== src/Workspace/Composer.antt =====
-- The command field of the composer, web/src/pages/workspace/CheckpointsTab.tsx: the command and its
-- arguments that are sent for a line. `is_space` is the white space of JavaScript, which `trim` removes
-- and `\s` matches.
pub mod Join
use embervm.Prelude.{
  ℕ, Bool, true, false, not, ◌&&◌, ◌||◌, Option, none, some, some-injective, subst, List, [], ◌∷◌,
  ◌++◌, Text, All, if◌then◌else◌, Bool-cases, inl, inr, ◌≡◌, refl, ap, sym, ◌∙◌, arith,
}

abbrev pub is_nil : Text → Bool
is_nil [] = true
is_nil (c ∷ s) = false

-- The character before the first part.
abbrev pub onto_first : ℕ → List Text → List Text
onto_first c [] = (c ∷ []) ∷ []
onto_first c (p ∷ ps) = (c ∷ p) ∷ ps

module _ (is_space : ℕ → Bool) where
  abbrev pub starts_blank : Text → Bool
  starts_blank [] = false
  starts_blank (c ∷ s) = is_space c

  abbrev pub trim_start : Text → Text
  trim_start [] = []
  trim_start (c ∷ s) = if is_space c then trim_start s else c ∷ s

  abbrev pub trim_end : Text → Text
  trim_end [] = []
  trim_end (c ∷ s) = let rest = trim_end s in if is_nil rest && is_space c then [] else c ∷ rest

  -- `s.trim()`
  unfoldable pub trim : Text → Text
  trim s = trim_end (trim_start s)

  -- `s.split(/\s+/)`
  unfoldable pub split : Text → List Text
  split [] = [] ∷ []
  split (c ∷ s) =
      let rest = split s in
      if is_space c then (if starts_blank s then rest else [] ∷ rest) else onto_first c rest

  -- The request of `exec` when the form is sent: the command with its arguments.
  unfoldable pub submit : (cmdline : Text) → (running : Bool) → Option (List Text)
  unfolding trim split
  submit cmdline running =
      if not (is_nil (trim cmdline)) && running then some (split (trim cmdline)) else none

  abbrev pub has_space : Text → Bool
  has_space [] = false
  has_space (c ∷ s) = is_space c || has_space s

  -- A word: not empty, and without white space.
  abbrev pub is_word : Text → Bool
  is_word p = not (is_nil p) && not (has_space p)

  abbrev pub ends_well : Text → Bool
  ends_well [] = true
  ends_well (c ∷ []) = not (is_space c)
  ends_well (c ∷ d ∷ s) = ends_well (d ∷ s)

  -- The first part is without white space, and it is not empty if the text does not start with any;
  -- the others are words.
  abbrev Parts : Text → List Text → Type 0
  Parts s [] = (false ≡ true)
  Parts s (p ∷ ps) =
      (has_space p ≡ false)
      × ((is_nil s || starts_blank s || not (is_nil p)) ≡ true)
      × All (λ q. is_word q ≡ true) ps

  ends_well-cons :
      (c : ℕ) (r : Text)
      → ends_well r ≡ true
      → ends_well (if is_nil r && is_space c then [] else c ∷ r) ≡ true
  ends_well-cons c [] h = ground arith
  ends_well-cons c (d ∷ r) h = h

  ends_well-trim_end : (s : Text) → ends_well (trim_end s) ≡ true
  ends_well-trim_end [] = refl
  ends_well-trim_end (c ∷ s) = ends_well-cons c (trim_end s) (ends_well-trim_end s)

  -- What `split` makes of the parts of a text when a character is put before it.
  split_next : ℕ → Text → List Text → List Text
  split_next c s ps =
      if is_space c then (if starts_blank s then ps else [] ∷ ps) else onto_first c ps

  split_next-Parts :
      (c : ℕ) (s : Text) (ps : List Text)
      → ends_well (c ∷ s) ≡ true
      → Parts s ps
      → Parts (c ∷ s) (split_next c s ps)
  unfolding split_next
  split_next-Parts c s [] h k = absurd (cc k)
  split_next-Parts c [] (p ∷ ps) h k =
      let n : is_space c ≡ false = ground (arith, h) in
      rw n (ground (arith, n, k.0), ground (arith, n), k.2)
  split_next-Parts c (d ∷ s) (p ∷ ps) h k = elim (Bool-cases (is_space c)) [
    | inl e ↦ elim (Bool-cases (is_space d)) [
      | inl f ↦ rw (e, f) (k.0, ground (arith, e), k.2)
      | inr n ↦ rw (e, n) (refl, ground (arith, e), (word p n k.0 k.1, k.2))
    ]
    | inr n ↦ rw n (ground (arith, n, k.0), ground (arith, n), k.2)
  ]
    where
      word :
          (p : Text)
          → is_space d ≡ false
          → has_space p ≡ false
          → (is_space d || not (is_nil p)) ≡ true
          → is_word p ≡ true
      word p n a b = ground arith

  ends_well-tail : (c : ℕ) (s : Text) → ends_well (c ∷ s) ≡ true → ends_well s ≡ true
  ends_well-tail c [] h = refl
  ends_well-tail c (d ∷ s) h = h

  split-Parts : (s : Text) → ends_well s ≡ true → Parts s (split s)
  unfolding split split_next
  split-Parts [] h = (refl, refl, tt)
  split-Parts (c ∷ s) h = split_next-Parts c s (split s) h (split-Parts s (ends_well-tail c s h))

  starts_blank-trim_start : (s : Text) → starts_blank (trim_start s) ≡ false
  starts_blank-trim_start [] = refl
  starts_blank-trim_start (c ∷ s) = ground (arith, starts_blank-trim_start s)

  starts_blank-trim_end : (s : Text) → starts_blank s ≡ false → starts_blank (trim_end s) ≡ false
  starts_blank-trim_end [] h = refl
  starts_blank-trim_end (c ∷ s) h = ground (arith, h)

  starts_blank-trim : (s : Text) → starts_blank (trim s) ≡ false
  unfolding trim
  starts_blank-trim s = starts_blank-trim_end (trim_start s) (starts_blank-trim_start s)

  ends_well-trim : (s : Text) → ends_well (trim s) ≡ true
  unfolding trim
  ends_well-trim s = ends_well-trim_end (trim_start s)

  words :
      (s : Text) (ps : List Text)
      → is_nil s ≡ false
      → starts_blank s ≡ false
      → Parts s ps
      → All (λ q. is_word q ≡ true) ps
  words s [] a b k = tt
  words s (p ∷ ps) a b k = (ground (arith, a, b, k.0, k.1), k.2)

  -- Whatever is typed, the command and its arguments that are sent are words: none is empty, and none
  -- has white space in it.
  pub submit-is_word :
      (cmdline : Text) (running : Bool) (argv : List Text)
      → submit cmdline running ≡ some argv
      → All (λ q. is_word q ≡ true) argv
  unfolding submit
  submit-is_word cmdline running argv h =
      elim (Bool-cases (not (is_nil (trim cmdline)) && running)) [
        | inl e ↦
            subst (λ a. All (λ q. is_word q ≡ true) a) (some-injective _ _ (rw e at h))
              (words (trim cmdline) (split (trim cmdline)) (ground (arith, e))
                (starts_blank-trim cmdline) (split-Parts (trim cmdline) (ends_well-trim cmdline)))
        | inr n ↦ absurd (cc (rw n at h))
      ]
