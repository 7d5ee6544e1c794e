-- ===== src/Preview/Recent.antt =====
-- The recent ports against the list of all ports that were opened.
use embervm.Prelude.{
  ℕ, zero, suc, false, not, none, some, List, [], ◌∷◌, keep, take, ◌==◌, ==_iff, if◌then◌else◌, ◌≡◌,
  refl, sym, ap, ◌∙◌, All, All-keep, Bool-cases, inl, inr,
}
use embervm.Preview.{
  Preview, Asked, port_number, wrong, mount, open_port, load_recent, next_recent, is_port, written,
}

-- Every port that was opened, the last one first, without repetition.
abbrev pub mru : List ℕ → List ℕ
mru [] = []
mru (p ∷ ps) = p ∷ keep (λ x. not (x == p)) (mru ps)

-- The ports that `open` accepts, in the order of `ps`.
abbrev pub ported : Asked → List ℕ → List ℕ
ported wrong ps = ps
ported (port_number p) ps = if is_port p then p ∷ ps else ps

abbrev pub ports : List Asked → List ℕ
ports [] = []
ports (a ∷ asked) = ported a (ports asked)

-- `open` is called with each of the list, the last one first.
abbrev pub open_all : Preview → List Asked → Preview
open_all w [] = w
open_all w (p ∷ ps) = open_port (open_all w ps) p

load_recent-written : (ps : List ℕ) → load_recent (some (written ps)) ≡ ps
unfolding load_recent
load_recent-written [] = refl
load_recent-written (p ∷ ps) = ap (p ∷◌) (load_recent-written ps)

-- The port occurs at most once, told by the list without it.
abbrev Once : ℕ → List ℕ → Type 0
Once p [] = Unit
Once p (x ∷ xs) = if x == p then All (λ y. (y == p) ≡ false) xs else Once p xs

keep-without :
    (p : ℕ) (xs : List ℕ) → All (λ y. (y == p) ≡ false) xs → keep (λ x. not (x == p)) xs ≡ xs
keep-without p [] h = refl
keep-without p (x ∷ xs) h = rw h.0 (ap (x ∷◌) (keep-without p xs h.1))

All-take :
    (p n : ℕ) (xs : List ℕ)
    → All (λ y. (y == p) ≡ false) xs
    → All (λ y. (y == p) ≡ false) (take n xs)
All-take p zero xs h = tt
All-take p (suc n) [] h = tt
All-take p (suc n) (x ∷ xs) h = (h.0, All-take p n xs h.1)

take-take : (n : ℕ) (xs : List ℕ) → take n (take n xs) ≡ take n xs
take-take zero xs = refl
take-take (suc n) [] = refl
take-take (suc n) (x ∷ xs) = ap (x ∷◌) (take-take n xs)

-- Cutting off before or after the port is left out.
take-keep :
    (n p : ℕ) (xs : List ℕ)
    → Once p xs
    → take n (keep (λ x. not (x == p)) (take (suc n) xs)) ≡ take n (keep (λ x. not (x == p)) xs)
take-keep zero p xs h = refl
take-keep (suc n) p [] h = refl
take-keep (suc n) p (x ∷ xs) h = elim (Bool-cases (x == p)) [
  | inl t ↦
      let k : All (λ y. (y == p) ≡ false) xs = rw t at h in
      rw t (
        ap (λ l. take (suc n) l) (keep-without p (take (suc n) xs) (All-take p (suc n) xs k))
        ∙ take-take (suc n) xs
        ∙ sym (ap (λ l. take (suc n) l) (keep-without p xs k)))
  | inr f ↦ let k : Once p xs = rw f at h in rw f (ap (x ∷◌) (take-keep n p xs k))
]

Without-keep :
    (p q : ℕ) (xs : List ℕ)
    → All (λ y. (y == p) ≡ false) xs
    → All (λ y. (y == p) ≡ false) (keep (λ x. not (x == q)) xs)
Without-keep p q xs h = All-keep (λ y. (y == p) ≡ false) (λ x. not (x == q)) xs h

keep-Without : (p : ℕ) (xs : List ℕ) → All (λ y. (y == p) ≡ false) (keep (λ x. not (x == p)) xs)
keep-Without p [] = tt
keep-Without p (x ∷ xs) = elim (Bool-cases (x == p)) [
  | inl t ↦ rw t (keep-Without p xs)
  | inr f ↦ rw f (f, keep-Without p xs)
]

Once-of_Without : (p : ℕ) (xs : List ℕ) → All (λ y. (y == p) ≡ false) xs → Once p xs
Once-of_Without p [] h = tt
Once-of_Without p (x ∷ xs) h = rw h.0 (Once-of_Without p xs h.1)

Once-keep : (p q : ℕ) (xs : List ℕ) → Once p xs → Once p (keep (λ x. not (x == q)) xs)
Once-keep p q [] h = tt
Once-keep p q (x ∷ xs) h = elim (Bool-cases (x == q)) [
  | inl t ↦ rw t (elim (Bool-cases (x == p)) [
    | inl e ↦ Once-of_Without p _ (Without-keep p q xs (rw e at h))
    | inr n ↦ Once-keep p q xs (rw n at h)
  ])
  | inr f ↦ rw f (elim (Bool-cases (x == p)) [
    | inl e ↦ rw e (Without-keep p q xs (rw e at h))
    | inr n ↦ rw n (Once-keep p q xs (rw n at h))
  ])
]

Once-mru : (p : ℕ) (ps : List ℕ) → Once p (mru ps)
Once-mru p [] = tt
Once-mru p (q ∷ ps) = elim (Bool-cases (q == p)) [
  | inl t ↦ let e : q ≡ p = (==_iff q p).0 t in rw t (rw e (keep-Without p (mru ps)))
  | inr f ↦ rw f (Once-keep p q (mru ps) (Once-mru p ps))
]

recent-step :
    (w : Preview) (ps : List ℕ) (a : Asked)
    → load_recent w.stored ≡ take 5 (mru ps)
    → load_recent (open_port w a).stored ≡ take 5 (mru (ported a ps))
unfolding open_port next_recent
recent-step w ps wrong h = h
recent-step w ps (port_number p) h = elim (Bool-cases (is_port p)) [
  | inl t ↦ rw t (
      load_recent-written (next_recent p (load_recent w.stored))
      ∙ ap (p ∷◌) (
          ap (λ l. take 4 (keep (λ x. not (x == p)) l)) h ∙ take-keep 4 p (mru ps) (Once-mru p ps)))
  | inr f ↦ rw f h
]

-- After any number of ports were opened for a sandbox without recent ports, the recent ports that are
-- stored are the last five different ones that were valid, the last one first.
pub recent-open_all :
    (asked : List Asked)
    → load_recent (open_all (mount none) asked).stored ≡ take 5 (mru (ports asked))
unfolding mount load_recent
recent-open_all [] = refl
recent-open_all (a ∷ asked) =
    recent-step (open_all (mount none) asked) (ports asked) a (recent-open_all asked)
