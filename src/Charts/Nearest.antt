-- ===== src/Charts/Nearest.antt =====
-- The point that the pointer shows.
use embervm.Prelude.{
  ℕ, suc, ◌≤◌, ◌<◌, ltb, some, List, [], ◌∷◌, All, take, get_elem?, Bool-cases, inl, inr, ◌⊎◌, ◌≡◌,
  refl, sym, subst, arith,
}
use embervm.Charts.{SeriesPoint, Scale, nearest_from, on_move, distance}

module _ (d : SeriesPoint → ℕ) where
  -- The first of the points that are nearest.
  abbrev pub IsFirstNearest : SeriesPoint → List SeriesPoint → Type 0
  IsFirstNearest best ps =
      (i : ℕ) × (get_elem? ps i ≡ some best)
      × All (λ q. d best < d q) (take i ps)
      × All (λ q. d best ≤ d q) ps

  -- What the loop gives from a best point so far: that point, if none of the rest is nearer, or else the
  -- first of the nearest of the rest.
  abbrev From : SeriesPoint → List SeriesPoint → SeriesPoint → Type 0
  From best ps r =
      ((r ≡ best) × All (λ q. d best ≤ d q) ps) ⊎ ((d r < d best) × IsFirstNearest r ps)

  nearer :
      (best p : SeriesPoint) (ps : List SeriesPoint) (r : SeriesPoint)
      → d p < d best
      → From p ps r
      → From best (p ∷ ps) r
  nearer best p ps r l (inl (e, a)) =
      subst (λ z. From best (p ∷ ps) z) (sym e) (inr (l, (0, refl, tt, (omega arith, a))))
  nearer best p ps r l (inr (m, (i, e, a, b))) =
      inr (omega (arith, l, m), (suc i, e, (m, a), (omega (arith, m), b)))

  further :
      (best p : SeriesPoint) (ps : List SeriesPoint) (r : SeriesPoint)
      → d best ≤ d p
      → From best ps r
      → From best (p ∷ ps) r
  further best p ps r l (inl (e, a)) = inl (e, (l, a))
  further best p ps r l (inr (m, (i, e, a, b))) =
      inr (m, (suc i, e, (omega (arith, l, m), a), (omega (arith, l, m), b)))

  nearest_from-From :
      (best : SeriesPoint) (ps : List SeriesPoint)
      → From best ps (nearest_from d best (some (d best)) ps)
  unfolding nearest_from
  nearest_from-From best [] = inl (refl, tt)
  nearest_from-From best (p ∷ ps) = elim (Bool-cases (ltb (d p) (d best))) [
    | inl t ↦
        let e : nearest_from d best (some (d best)) (p ∷ ps) ≡ nearest_from d p (some (d p)) ps =
          rw t refl in
        subst (λ z. From best (p ∷ ps) z) (sym e)
          (nearer best p ps (nearest_from d p (some (d p)) ps) (ground (arith, t))
            (nearest_from-From p ps))
    | inr f ↦
        let e : nearest_from d best (some (d best)) (p ∷ ps)
            ≡ nearest_from d best (some (d best)) ps =
          rw f refl in
        subst (λ z. From best (p ∷ ps) z) (sym e)
          (further best p ps (nearest_from d best (some (d best)) ps) (ground (arith, f))
            (nearest_from-From best ps))
  ]

  first_nearest :
      (p : SeriesPoint) (ps : List SeriesPoint) (r : SeriesPoint)
      → From p ps r
      → IsFirstNearest r (p ∷ ps)
  first_nearest p ps r (inl (e, a)) =
      subst (λ z. IsFirstNearest z (p ∷ ps)) (sym e) (0, refl, tt, (omega arith, a))
  first_nearest p ps r (inr (m, (i, e, a, b))) = (suc i, e, (m, a), (omega (arith, m), b))

-- The point that is shown for a place of the pointer is one of the series that is nearest to it, and the
-- first of these.
pub on_move-IsFirstNearest :
    (s : Scale) (px width : ℕ) (p : SeriesPoint) (ps : List SeriesPoint)
    → IsFirstNearest (distance s px width) (on_move s px width p ps) (p ∷ ps)
unfolding on_move nearest_from
on_move-IsFirstNearest s px width p ps =
    first_nearest (distance s px width) p ps
      (nearest_from (distance s px width) p (some (distance s px width p)) ps)
      (nearest_from-From (distance s px width) p ps)
