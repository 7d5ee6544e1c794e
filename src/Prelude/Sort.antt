-- ===== src/Prelude/Sort.antt =====
-- `Array.prototype.sort`, which is stable, with a comparator given by whether it is not positive.
use Prim.Native.Nat.{suc}
use mathlib.Core.Path.{◌≡◌, refl, ap, ◌∙◌}
use mathlib.Core.Logic.{inl, inr}
use mathlib.Core.Bool.{Bool, true, false}
use mathlib.Core.List.{List, [], ◌∷◌}
use native.Mathlib.Omega.{arith}
use embervm.Prelude.Tests.{if◌then◌else◌, Bool-cases}
use embervm.Prelude.Lists.{All, All-imp, keep, length}

module _ {ℓ} {A : Type ℓ} (le : A → A → Bool) where
  abbrev insert : A → List A → List A
  insert x [] = x ∷ []
  insert x (y ∷ ys) = if le x y then x ∷ y ∷ ys else y ∷ insert x ys

  unfoldable pub sort : List A → List A
  sort [] = []
  sort (x ∷ xs) = insert x (sort xs)

  -- Every element is not after any that follows it.
  abbrev pub Sorted : List A → Type ℓ
  Sorted [] = Unit
  Sorted (x ∷ xs) = All (λ y. le x y ≡ true) xs × Sorted xs

  length-insert : (x : A) (xs : List A) → length (insert x xs) ≡ suc (length xs)
  length-insert x [] = refl
  length-insert x (y ∷ ys) = ground (arith, length-insert x ys)

  pub length-sort : (xs : List A) → length (sort xs) ≡ length xs
  unfolding sort
  length-sort [] = refl
  length-sort (x ∷ xs) = length-insert x (sort xs) ∙ ap (λ n. suc n) (length-sort xs)

  count-insert :
      (p : A → Bool) (x : A) (xs : List A)
      → length (keep p (insert x xs)) ≡ length (keep p (x ∷ xs))
  count-insert p x [] = refl
  count-insert p x (y ∷ ys) = ground (arith, count-insert p x ys)

  -- Whatever is counted, the sorted list has as much of it as the list: it is a rearrangement.
  pub count-sort : (p : A → Bool) (xs : List A) → length (keep p (sort xs)) ≡ length (keep p xs)
  unfolding sort
  count-sort p [] = refl
  count-sort p (x ∷ xs) = count-insert p x (sort xs) ∙ head p x (sort xs) xs (count-sort p xs)
    where
      head :
          (p : A → Bool) (x : A) (ys xs : List A)
          → length (keep p ys) ≡ length (keep p xs)
          → length (keep p (x ∷ ys)) ≡ length (keep p (x ∷ xs))
      head p x ys xs e = ground arith

  keep-insert_in :
      (p : A → Bool) (x : A) (xs : List A)
      → p x ≡ true
      → ((a b : A) → p a ≡ true → p b ≡ true → le a b ≡ true)
      → keep p (insert x xs) ≡ x ∷ keep p xs
  keep-insert_in p x [] e h = rw e
  keep-insert_in p x (y ∷ ys) e h = elim (Bool-cases (le x y)) [
    | inl t ↦ rw (t, e)
    | inr f ↦ elim (Bool-cases (p y)) [
      | inl q ↦ absurd (cc (h x y e q, f))
      | inr n ↦ rw (f, n) (keep-insert_in p x ys e h)
    ]
  ]

  keep-insert_out :
      (p : A → Bool) (x : A) (xs : List A) → p x ≡ false → keep p (insert x xs) ≡ keep p xs
  keep-insert_out p x [] e = ground arith
  keep-insert_out p x (y ∷ ys) e = ground (arith, keep-insert_out p x ys e)

  -- Elements that the comparator does not tell apart keep their order.
  pub keep-sort :
      (p : A → Bool) (xs : List A)
      → ((a b : A) → p a ≡ true → p b ≡ true → le a b ≡ true)
      → keep p (sort xs) ≡ keep p xs
  unfolding sort
  keep-sort p [] h = refl
  keep-sort p (x ∷ xs) h = elim (Bool-cases (p x)) [
    | inl e ↦ keep-insert_in p x (sort xs) e h ∙ rw e (ap (x ∷◌) (keep-sort p xs h))
    | inr n ↦ keep-insert_out p x (sort xs) n ∙ rw n (keep-sort p xs h)
  ]

  keep-insert_first :
      (p : A → Bool) (x : A) (xs : List A)
      → p x ≡ true
      → All (λ y. le x y ≡ true) (keep p xs)
      → keep p (insert x xs) ≡ x ∷ keep p xs
  keep-insert_first p x [] e h = rw e
  keep-insert_first p x (y ∷ ys) e h = elim (Bool-cases (le x y)) [
    | inl t ↦ rw (t, e)
    | inr f ↦ elim (Bool-cases (p y)) [
      | inl q ↦ absurd (cc ((rw q at h).0, f))
      | inr n ↦ rw (f, n) (keep-insert_first p x ys e (rw n at h))
    ]
  ]

  -- What is in order already stays in its order.
  pub keep-sort-Sorted :
      (p : A → Bool) (xs : List A) → Sorted (keep p xs) → keep p (sort xs) ≡ keep p xs
  unfolding sort
  keep-sort-Sorted p [] h = refl
  keep-sort-Sorted p (x ∷ xs) h = elim (Bool-cases (p x)) [
    | inl e ↦
        let k : Sorted (x ∷ keep p xs) = rw e at h in
        let ih : keep p (sort xs) ≡ keep p xs = keep-sort-Sorted p xs k.1 in
        keep-insert_first p x (sort xs) e (rw ih k.0) ∙ rw e (ap (x ∷◌) ih)
    | inr n ↦ keep-insert_out p x (sort xs) n ∙ rw n (keep-sort-Sorted p xs (rw n at h))
  ]

  All-insert {κ} : (P : A → Type κ) (x : A) (xs : List A) → P x → All P xs → All P (insert x xs)
  All-insert P x [] h k = (h, tt)
  All-insert P x (y ∷ ys) h k = elim (Bool-cases (le x y)) [
    | inl t ↦ rw t (h, k)
    | inr f ↦ rw f (k.0, All-insert P x ys h k.1)
  ]

  pub All-sort {κ} : (P : A → Type κ) (xs : List A) → All P xs → All P (sort xs)
  unfolding sort
  All-sort P [] h = tt
  All-sort P (x ∷ xs) h = All-insert P x (sort xs) h.0 (All-sort P xs h.1)

  insert-All {κ} : (P : A → Type κ) (x : A) (xs : List A) → All P (insert x xs) → P x × All P xs
  insert-All P x [] h = (h.0, tt)
  insert-All P x (y ∷ ys) h = elim (Bool-cases (le x y)) [
    | inl t ↦ rw t at h
    | inr f ↦ let r = (rw f at h) in let k = insert-All P x ys r.1 in (k.0, (r.0, k.1))
  ]

  pub sort-All {κ} : (P : A → Type κ) (xs : List A) → All P (sort xs) → All P xs
  unfolding sort
  sort-All P [] h = tt
  sort-All P (x ∷ xs) h = let k = insert-All P x (sort xs) h in (k.0, sort-All P xs k.1)

  module _ (total : (a b : A) → le a b ≡ false → le b a ≡ true)
      (trans : (a b c : A) → le a b ≡ true → le b c ≡ true → le a c ≡ true) where
    insert-Sorted : (x : A) (xs : List A) → Sorted xs → Sorted (insert x xs)
    insert-Sorted x [] h = (tt, tt)
    insert-Sorted x (y ∷ ys) h = elim (Bool-cases (le x y)) [
      | inl t ↦ rw t ((t, All-imp (λ z e. trans x y z t e) ys h.0), h)
      | inr f ↦
          rw f (All-insert (λ z. le y z ≡ true) x ys (total x y f) h.0, insert-Sorted x ys h.1)
    ]

    pub sort-Sorted : (xs : List A) → Sorted (sort xs)
    unfolding sort
    sort-Sorted [] = tt
    sort-Sorted (x ∷ xs) = insert-Sorted x (sort xs) (sort-Sorted xs)
