-- ===== src/Files/Split.antt =====
-- Splitting at the slashes and joining are inverse to each other.
use embervm.Prelude.{
  ℕ, List, [], ◌∷◌, ◌++◌, Text, Without, All, ◌≡◌, ◌≢◌, refl, ap₂, ◌∙◌, arith, ◌==◌, Bool-cases,
  inl, inr,
}
use embervm.Files.{slash, push_front, split, join}

pub split-ne-nil : (s : Text) → split s ≢ []
unfolding split
split-ne-nil [] = cc
split-ne-nil (c ∷ s) = ground arith

join-cons : (p : Text) (ps : List Text) → ps ≢ [] → join (p ∷ ps) ≡ p ++ slash ∷ join ps
join-cons p [] h = absurd (h refl)
join-cons p (q ∷ ps) h = refl

join-push_front : (c : ℕ) (ps : List Text) → ps ≢ [] → join (push_front c ps) ≡ c ∷ join ps
join-push_front c [] h = absurd (h refl)
join-push_front c (p ∷ []) h = refl
join-push_front c (p ∷ q ∷ ps) h = refl

-- `s.split("/").join("/") === s`
pub join-split : (s : Text) → join (split s) ≡ s
unfolding split
join-split [] = refl
join-split (c ∷ s) = elim (Bool-cases (c == slash)) [
  | inl e ↦ rw (e, join-cons [] (split s) (split-ne-nil s), join-split s) (ground arith)
  | inr e ↦ rw (e, join-push_front c (split s) (split-ne-nil s), join-split s)
]

-- A text with no slash is one part.
pub split-Without : (s : Text) → Without slash s → split s ≡ s ∷ []
unfolding split
split-Without [] h = refl
split-Without (c ∷ s) h = ground (arith, split-Without s h.1)

push_front-append :
    (c : ℕ) (ps qs : List Text) → ps ≢ [] → push_front c (ps ++ qs) ≡ push_front c ps ++ qs
push_front-append c [] qs h = absurd (h refl)
push_front-append c (p ∷ ps) qs h = refl

-- Splitting goes on afresh behind a slash.
pub split-append : (a b : Text) → split (a ++ slash ∷ b) ≡ split a ++ split b
unfolding split
split-append [] b = refl
split-append (c ∷ a) b = elim (Bool-cases (c == slash)) [
  | inl e ↦ rw (e, split-append a b)
  | inr e ↦ rw (e, split-append a b) (push_front-append c (split a) (split b) (split-ne-nil a))
]

push_front-Without :
    (c : ℕ) (ps : List Text)
    → c ≢ slash
    → All (Without slash) ps
    → All (Without slash) (push_front c ps)
push_front-Without c [] h k = ((h, tt), tt)
push_front-Without c (p ∷ ps) h k = ((h, k.0), k.1)

-- No part has a slash.
pub All-split : (s : Text) → All (Without slash) (split s)
unfolding split
All-split [] = (tt, tt)
All-split (c ∷ s) = elim (Bool-cases (c == slash)) [
  | inl e ↦ rw e (tt, All-split s)
  | inr e ↦ rw e (push_front-Without c (split s) (ground arith) (All-split s))
]

-- `parts.join("/").split("/")` gives the parts back, if there is one and none has a slash.
pub split-join :
    (p : Text) (ps : List Text) → All (Without slash) (p ∷ ps) → split (join (p ∷ ps)) ≡ p ∷ ps
split-join p [] h = split-Without p h.0
split-join p (q ∷ ps) h =
    split-append p (join (q ∷ ps)) ∙ ap₂ ◌++◌ (split-Without p h.0) (split-join q ps h.1)
