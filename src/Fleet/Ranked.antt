-- ===== src/Fleet/Ranked.antt =====
-- What the table of web/src/pages/Sandboxes.tsx shows, against the description in Described.
use embervm.Prelude.{
  ℕ, zero, suc, ◌≤◌, String, Bool, true, Option, none, some, List, [], ◌∷◌, Text, keep, length,
  sort, ◌≡◌, refl, sym, arith, leb→le, All-sort, sort-All, All-imp, count-sort, Sorted, ltb, ==_iff,
  ◌==◌, if◌then◌else◌, ◌↔◌,
}
use embervm.Term.{SandboxState}
use embervm.Lifecycle.{agree}
use embervm.Api.{Sandbox}
use embervm.Fleet.{
  SortKey, by_state, by_memory, by_age, by_headroom, SortState, Filter, ascending, descending, Dir,
  index_of, state_ranks, or_zero, le_key, le_in, le, rows, matches, headroom,
}
use embervm.Fleet.Order.{rows-Sorted}
use embervm.Fleet.Described.{
  rank, share, IsFound, IsPassing, Precedes, PrecedesIn, IsOrdered, IsIn, All-self, All-in,
  IsIn-keep, matches_iff,
}

rank_lem : (s : SandboxState) → index_of state_ranks s ≡ rank s
rank_lem s = (==_iff _ _).0 (agree (λ s. index_of state_ranks s == rank s) (λ s. true) refl s)

share_lem :
    (size : ℕ) (o : Option ℕ)
    → (if ltb 0 (or_zero o) then (size, or_zero o) else (1, 1)) ≡ share size o
share_lem size none = refl
share_lem size (some zero) = refl
share_lem size (some (suc n)) = ground arith

headroom_lem : (sb : Sandbox) → headroom sb ≡ share sb.memory_mib sb.max_memory_mib
unfolding headroom
headroom_lem sb = share_lem sb.memory_mib sb.max_memory_mib

module _ (time : String → ℕ) where
  le_key-Precedes : (k : SortKey) (a b : Sandbox) → le_key time k a b ≡ true → Precedes time k a b
  unfolding le_key
  le_key-Precedes by_state a b h =
      rw (sym (rank_lem a.state), sym (rank_lem b.state)) (leb→le _ _ h)
  le_key-Precedes by_memory a b h = leb→le _ _ h
  le_key-Precedes by_age a b h = leb→le _ _ h
  le_key-Precedes by_headroom a b h = rw (sym (headroom_lem a), sym (headroom_lem b)) (leb→le _ _ h)

  le_in-PrecedesIn :
      (d : Dir) (k : SortKey) (a b : Sandbox) → le_in time d k a b ≡ true → PrecedesIn time d k a b
  unfolding le_in
  le_in-PrecedesIn ascending k a b h = le_key-Precedes k a b h
  le_in-PrecedesIn descending k a b h = le_key-Precedes k b a h

  Sorted-IsOrdered :
      (s : SortState) (xs : List Sandbox)
      → Sorted (le time s) xs
      → IsOrdered (PrecedesIn time s.dir s.key) xs
  Sorted-IsOrdered s [] h = tt
  Sorted-IsOrdered s (x ∷ xs) h =
      (All-imp (λ y. le_in-PrecedesIn s.dir s.key x y) xs h.0, Sorted-IsOrdered s xs h.1)

  IsIn-sort :
      (s : SortState) (xs : List Sandbox) (y : Sandbox) → IsIn y (sort (le time s) xs) ↔ IsIn y xs
  IsIn-sort s xs y = (
    λ i.
        All-in (λ z. IsIn z xs) (sort (le time s) xs) y (All-sort (le time s) _ xs (All-self xs)) i,
    λ i.
        All-in (λ z. IsIn z (sort (le time s) xs)) xs y
          (sort-All (le time s) _ xs (All-self (sort (le time s) xs))) i,
  )

  length-keep-keep :
      (p m : Sandbox → Bool) (xs : List Sandbox) → length (keep p (keep m xs)) ≤ length (keep p xs)
  length-keep-keep p m [] = omega arith
  length-keep-keep p m (x ∷ xs) = ground (arith, length-keep-keep p m xs)

  -- The rows stand in the order of the chosen column: by the group of the state, by memory, by age, or by
  -- headroom with the fullest first and the fixed sandboxes as full, and in the opposite order if the
  -- direction is descending. A sandbox has a row exactly if it is listed by the server, passes the chosen
  -- chip, and has the query in its id, its template or its node; and no row is shown more often than the
  -- server lists it.
  pub rows-IsOrdered :
      (lower : String → Text) (sandboxes : List Sandbox) (q : Text) (filter : Filter)
      (s : SortState)
      → let shown = rows time lower sandboxes q filter s in
        IsOrdered (PrecedesIn time s.dir s.key) shown
        × ((sb : Sandbox)
            → IsIn sb shown ↔ (IsIn sb sandboxes × (IsPassing filter sb × IsFound lower q sb)))
        × ((p : Sandbox → Bool) → length (keep p shown) ≤ length (keep p sandboxes))
  unfolding rows
  rows-IsOrdered lower sandboxes q filter s =
      let m : Sandbox → Bool = matches lower q filter in
      (
        Sorted-IsOrdered s _ (rows-Sorted time lower sandboxes q filter s).0,
        λ sb. (
          λ i.
              let k = (IsIn-keep m sandboxes sb).0 ((IsIn-sort s (keep m sandboxes) sb).0 i) in
              (k.0, (matches_iff lower q filter sb).0 k.1),
          λ h.
              (IsIn-sort s (keep m sandboxes) sb).1
                ((IsIn-keep m sandboxes sb).1 (h.0, (matches_iff lower q filter sb).1 h.1)),
        ),
        λ p. rw (count-sort (le time s) p (keep m sandboxes)) (length-keep-keep p m sandboxes),
      )
