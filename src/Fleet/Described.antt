-- ===== src/Fleet/Described.antt =====
-- A description of the columns, the chips and the query of web/src/pages/Sandboxes.tsx that does not use
-- its comparator or its filter, and the filter against it.
use embervm.Prelude.{
  ℕ, zero, suc, ◌*◌, ◌≤◌, String, Bool, true, false, not, ◌||◌, Option, none, some, List, [], ◌∷◌,
  ◌++◌, Text, has_prefix, keep, All, ◌≡◌, ◌⊎◌, inl, inr, refl, sym, subst, ap, ◌∙◌, arith,
  Bool-cases, All-imp, ==_iff, ==_refl, if◌then◌else◌, both, ◌↔◌,
}
use embervm.Term.{
  SandboxState, pending, starting, running, pausing, paused_hot, paused_warm, archived_cold,
  resuming, stopping, stopped, recycled, failed,
}
use embervm.Lifecycle.{state_eq_iff}
use embervm.Api.{Sandbox}
use embervm.Fleet.{
  SortKey, by_state, by_memory, by_age, by_headroom, Filter, all, autoscale, in_state, ascending,
  descending, Dir, matches, includes, node_of,
}

-- The states in the order in which the column State groups them.
abbrev pub rank : SandboxState → ℕ
rank running = 0
rank starting = 1
rank resuming = 2
rank pending = 3
rank pausing = 4
rank paused_hot = 5
rank paused_warm = 6
rank archived_cold = 7
rank stopping = 8
rank stopped = 9
rank recycled = 10
rank failed = 11

-- A size and its ceiling; a fixed sandbox counts as full.
abbrev pub share : ℕ → Option ℕ → ℕ × ℕ
share size none = (1, 1)
share size (some zero) = (1, 1)
share size (some (suc n)) = (size, suc n)

-- The first share is as large as the second, or larger.
abbrev pub IsFuller : ℕ × ℕ → ℕ × ℕ → Type 0
IsFuller a b = b.0 * a.1 ≤ a.0 * b.1

-- The text has the query in it.
abbrev pub Has : Text → Text → Type 0
Has q s = (pre : Text) × (post : Text) × (s ≡ pre ++ q ++ post)

abbrev pub IsFound : (String → Text) → Text → Sandbox → Type 0
IsFound lower q sb =
    Has q (lower sb.id) ⊎ (Has q (lower sb.template_id) ⊎ Has q (lower (node_of sb)))

abbrev pub IsPassing : Filter → Sandbox → Type 0
IsPassing all sb = Unit
IsPassing autoscale sb = sb.autoscale ≡ some true
IsPassing (in_state s) sb = sb.state ≡ s

module _ (time : String → ℕ) where
  abbrev pub Precedes : SortKey → Sandbox → Sandbox → Type 0
  Precedes by_state a b = rank a.state ≤ rank b.state
  Precedes by_memory a b = a.memory_mib ≤ b.memory_mib
  Precedes by_age a b = time a.created_at ≤ time b.created_at
  Precedes by_headroom a b =
      IsFuller (share a.memory_mib a.max_memory_mib) (share b.memory_mib b.max_memory_mib)

  abbrev pub PrecedesIn : Dir → SortKey → Sandbox → Sandbox → Type 0
  PrecedesIn ascending key a b = Precedes key a b
  PrecedesIn descending key a b = Precedes key b a

-- Each element is related to all that come after it.
abbrev pub IsOrdered : (Sandbox → Sandbox → Type 0) → List Sandbox → Type 0
IsOrdered R [] = Unit
IsOrdered R (sb ∷ sbs) = All (R sb) sbs × IsOrdered R sbs

abbrev pub IsIn : Sandbox → List Sandbox → Type 0
IsIn sb [] = ⊥
IsIn sb (first ∷ sbs) = (sb ≡ first) ⊎ IsIn sb sbs

-- Lists.

pub All-self : (xs : List Sandbox) → All (λ y. IsIn y xs) xs
All-self [] = tt
All-self (x ∷ xs) = (inl refl, All-imp (λ y i. inr i) xs (All-self xs))

pub All-in : (P : Sandbox → Type 0) (xs : List Sandbox) (y : Sandbox) → All P xs → IsIn y xs → P y
All-in P [] y h i = absurd i
All-in P (x ∷ xs) y h (inl e) = subst P (sym e) h.0
All-in P (x ∷ xs) y h (inr i) = All-in P xs y h.1 i

pub IsIn-keep :
    (m : Sandbox → Bool) (xs : List Sandbox) (y : Sandbox)
    → IsIn y (keep m xs) ↔ (IsIn y xs × (m y ≡ true))
IsIn-keep m xs y = (out xs, λ r. back xs r.0 r.1)
  where
    out : (xs : List Sandbox) → IsIn y (keep m xs) → IsIn y xs × (m y ≡ true)
    out [] i = absurd i
    out (x ∷ xs) i = elim (Bool-cases (m x)) [
      | inl t ↦ elim (rw t at i) [
        | inl e ↦ (inl e, ap m e ∙ t)
        | inr j ↦ (inr (out xs j).0, (out xs j).1)
      ]
      | inr f ↦ (inr (out xs (rw f at i)).0, (out xs (rw f at i)).1)
    ]

    back : (xs : List Sandbox) → IsIn y xs → m y ≡ true → IsIn y (keep m xs)
    back [] i e = absurd i
    back (x ∷ xs) (inl p) e = rw (ap m (sym p) ∙ e) (inl p)
    back (x ∷ xs) (inr j) e = elim (Bool-cases (m x)) [
      | inl t ↦ rw t (inr (back xs j e))
      | inr f ↦ rw f (back xs j e)
    ]

-- Texts.

prefix_out : (q s : Text) → has_prefix q s ≡ true → (post : Text) × (s ≡ q ++ post)
prefix_out [] s h = (s, refl)
prefix_out (c ∷ q) [] h = absurd (cc)
prefix_out (c ∷ q) (d ∷ s) h =
    let r = prefix_out q s (both _ _ h).1 in
    (r.0, ap (λ z. d ∷ z) r.1 ∙ ap (λ z. z ∷ q ++ r.0) (sym ((==_iff c d).0 (both _ _ h).0)))

prefix_in : (q post : Text) → has_prefix q (q ++ post) ≡ true
prefix_in [] post = refl
prefix_in (c ∷ q) post = rw (==_refl c) (prefix_in q post)

includes_out : (q s : Text) → includes q s ≡ true → Has q s
unfolding includes
includes_out q [] h = let r = prefix_out q [] h in ([], r.0, r.1)
includes_out q (c ∷ s) h = elim (Bool-cases (has_prefix q (c ∷ s))) [
  | inl t ↦ let r = prefix_out q (c ∷ s) t in ([], r.0, r.1)
  | inr f ↦ let r = includes_out q s (rw f at h) in (c ∷ r.0, r.1, ap (λ z. c ∷ z) r.2)
]

or_left : (a b : Bool) → a ≡ true → (a || b) ≡ true
or_left true b e = refl
or_left false b e = absurd (cc)

or_right : (a b : Bool) → b ≡ true → (a || b) ≡ true
or_right true b e = refl
or_right false b e = e

includes_first : (q s : Text) → has_prefix q s ≡ true → includes q s ≡ true
unfolding includes
includes_first q [] h = h
includes_first q (c ∷ s) h = or_left _ _ h

includes_at : (q pre post : Text) → includes q (pre ++ q ++ post) ≡ true
unfolding includes
includes_at q [] post = includes_first q (q ++ post) (prefix_in q post)
includes_at q (c ∷ pre) post = or_right _ _ (includes_at q pre post)

includes_in : (q s : Text) → Has q s → includes q s ≡ true
includes_in q s h = subst (λ z. includes q z ≡ true) (sym h.2) (includes_at q h.0 h.1)

-- The filter.

if_out : (b x : Bool) → (if not b then false else x) ≡ true → (b ≡ true) × (x ≡ true)
if_out true x h = (refl, h)
if_out false x h = absurd (cc)

if_in : (b x : Bool) → b ≡ true → x ≡ true → (if not b then false else x) ≡ true
if_in true x e h = h
if_in false x e h = absurd (cc)

autoscale_out : (o : Option Bool) → (elim o [ none ↦ false | some b ↦ b ]) ≡ true → o ≡ some true
autoscale_out none h = absurd (cc)
autoscale_out (some true) h = refl
autoscale_out (some false) h = absurd (cc)

or_last : (a b c : Bool) → (a || b || c) ≡ true → a ≡ false → b ≡ false → c ≡ true
or_last a b c h e f = ground arith

or_second : (a b c : Bool) → b ≡ true → (a || b || c) ≡ true
or_second a b c e = ground arith

or_third : (a b c : Bool) → c ≡ true → (a || b || c) ≡ true
or_third a b c e = ground arith

module _ (lower : String → Text) where
  matches-IsFound : (q : Text) (sb : Sandbox) → matches lower q all sb ≡ true → IsFound lower q sb
  unfolding matches
  matches-IsFound [] sb h = inl ([], lower sb.id, refl)
  matches-IsFound (c ∷ q) sb h = elim (Bool-cases (includes (c ∷ q) (lower sb.id))) [
    | inl t ↦ inl (includes_out (c ∷ q) (lower sb.id) t)
    | inr f ↦ elim (Bool-cases (includes (c ∷ q) (lower sb.template_id))) [
      | inl t ↦ inr (inl (includes_out (c ∷ q) (lower sb.template_id) t))
      | inr g ↦ inr (inr (includes_out (c ∷ q) (lower (node_of sb)) (or_last _ _ _ h f g)))
    ]
  ]

  IsFound-matches : (q : Text) (sb : Sandbox) → IsFound lower q sb → matches lower q all sb ≡ true
  unfolding matches
  IsFound-matches [] sb h = refl
  IsFound-matches (c ∷ q) sb (inl h) = rw (includes_in (c ∷ q) _ h) refl
  IsFound-matches (c ∷ q) sb (inr (inl h)) = or_second _ _ _ (includes_in (c ∷ q) _ h)
  IsFound-matches (c ∷ q) sb (inr (inr h)) =
      or_third (includes (c ∷ q) (lower sb.id)) (includes (c ∷ q) (lower sb.template_id)) _
        (includes_in (c ∷ q) _ h)

  pub matches_iff :
      (q : Text) (filter : Filter) (sb : Sandbox)
      → (matches lower q filter sb ≡ true) ↔ (IsPassing filter sb × IsFound lower q sb)
  unfolding matches
  matches_iff q all sb = (λ h. (tt, matches-IsFound q sb h), λ h. IsFound-matches q sb h.1)
  matches_iff q autoscale sb = (
    λ h. let r = if_out _ _ h in (autoscale_out sb.autoscale r.0, matches-IsFound q sb r.1),
    λ h. if_in _ _ (rw h.0 refl) (IsFound-matches q sb h.1),
  )
  matches_iff q (in_state s) sb = (
    λ h. let r = if_out _ _ h in ((state_eq_iff sb.state s).0 r.0, matches-IsFound q sb r.1),
    λ h. if_in _ _ ((state_eq_iff sb.state s).1 h.0) (IsFound-matches q sb h.1),
  )
