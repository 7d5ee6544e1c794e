-- ===== src/Workspace/Composer/Join.antt =====
-- The words that are sent for a line of words.
use embervm.Prelude.{
  ℕ, Bool, true, false, some, List, [], ◌∷◌, ◌++◌, Text, All, ◌≡◌, refl, ap, ◌∙◌, arith,
}
use embervm.Workspace.Composer.{
  is_nil, starts_blank, trim, trim_end, split, submit, has_space, is_word, ends_well,
}

module _ (is_space : ℕ → Bool) where
  -- The words of a line with one space between them.
  abbrev pub join : ℕ → List Text → Text
  join c [] = []
  join c (w ∷ []) = w
  join c (w ∷ v ∷ ws) = w ++ c ∷ join c (v ∷ ws)

  -- What a word before a blank adds.
  split-append :
      (w s : Text)
      → has_space is_space w ≡ false
      → starts_blank is_space s ≡ false
      → (b : ℕ) → is_space b ≡ true
      → split is_space (w ++ b ∷ s) ≡ w ∷ split is_space s
  unfolding split
  split-append [] s h n b e = rw (e, n) refl
  split-append (c ∷ w) s h n b e =
      let k : is_space c ≡ false = ground (arith, h) in
      let m : has_space is_space w ≡ false = ground (arith, h) in
      rw (k, split-append w s m n b e) refl

  split-word : (w : Text) → has_space is_space w ≡ false → split is_space w ≡ w ∷ []
  unfolding split
  split-word [] h = refl
  split-word (c ∷ w) h =
      let k : is_space c ≡ false = ground (arith, h) in
      let m : has_space is_space w ≡ false = ground (arith, h) in rw (k, split-word w m) refl

  starts_blank-join :
      (b : ℕ) (w : Text) (ws : List Text)
      → is_word is_space w ≡ true
      → starts_blank is_space (join b (w ∷ ws)) ≡ false
  starts_blank-join b [] ws h = absurd (cc h)
  starts_blank-join b (c ∷ w) [] h = ground (arith, h)
  starts_blank-join b (c ∷ w) (v ∷ ws) h = ground (arith, h)

  split-join :
      (b : ℕ) (w : Text) (ws : List Text)
      → is_space b ≡ true
      → All (λ q. is_word is_space q ≡ true) (w ∷ ws)
      → split is_space (join b (w ∷ ws)) ≡ w ∷ ws
  split-join b w [] e h = split-word w (ground (arith, h.0))
  split-join b w (v ∷ ws) e h =
      split-append w (join b (v ∷ ws)) (ground (arith, h.0)) (starts_blank-join b v ws h.1.0) b e
      ∙ ap (w ∷◌) (split-join b v ws e h.1)

  trim_end-fixed : (s : Text) → ends_well is_space s ≡ true → trim_end is_space s ≡ s
  trim_end-fixed [] h = refl
  trim_end-fixed (c ∷ []) h = ground (arith, h)
  trim_end-fixed (c ∷ d ∷ s) h = rw (trim_end-fixed (d ∷ s) h) refl

  trim-fixed :
      (s : Text)
      → starts_blank is_space s ≡ false
      → ends_well is_space s ≡ true
      → trim is_space s ≡ s
  unfolding trim
  trim-fixed [] h k = refl
  trim-fixed (c ∷ s) h k = rw h (trim_end-fixed (c ∷ s) k)

  ends_well-append :
      (w s : Text)
      → is_nil s ≡ false
      → ends_well is_space s ≡ true
      → ends_well is_space (w ++ s) ≡ true
  ends_well-append [] s n h = h
  ends_well-append (c ∷ []) (d ∷ s) n h = h
  ends_well-append (c ∷ []) [] n h = absurd (cc n)
  ends_well-append (c ∷ d ∷ w) s n h = ends_well-append (d ∷ w) s n h

  is_nil-append : (w s : Text) → is_nil s ≡ false → is_nil (w ++ s) ≡ false
  is_nil-append [] s h = h
  is_nil-append (c ∷ w) s h = refl

  ends_well-word : (w : Text) → has_space is_space w ≡ false → ends_well is_space w ≡ true
  ends_well-word [] h = refl
  ends_well-word (c ∷ []) h = ground (arith, h)
  ends_well-word (c ∷ d ∷ w) h = ends_well-word (d ∷ w) (ground (arith, h))

  ends_well-join :
      (b : ℕ) (w : Text) (ws : List Text)
      → All (λ q. is_word is_space q ≡ true) (w ∷ ws)
      → (ends_well is_space (join b (w ∷ ws)) ≡ true) × (is_nil (join b (w ∷ ws)) ≡ false)
  ends_well-join b w [] h = (ends_well-word w (ground (arith, h.0)), ground (arith, h.0))
  ends_well-join b w (v ∷ ws) h =
      let (good, there) = ends_well-join b v ws h.1 in
      (
        ends_well-append w (b ∷ join b (v ∷ ws)) refl
            (ends_well-append (b ∷ []) (join b (v ∷ ws)) there good),
        is_nil-append w (b ∷ join b (v ∷ ws)) refl,
      )

  -- A line of words with one blank between them sends these words, while the sandbox is running.
  pub submit-join :
      (b : ℕ) (w : Text) (ws : List Text)
      → is_space b ≡ true
      → All (λ q. is_word is_space q ≡ true) (w ∷ ws)
      → submit is_space (join b (w ∷ ws)) true ≡ some (w ∷ ws)
  unfolding submit
  submit-join b w ws e h =
      let (good, there) = ends_well-join b w ws h in
      rw (trim-fixed (join b (w ∷ ws)) (starts_blank-join b w ws h.0) good, there)
        (ap (λ a. some a) (split-join b w ws e h))
