-- ===== src/Pages/Storage.antt =====
-- The storage page, web/src/pages/Storage.tsx: the stored bytes of each tier and the order of the rows.
-- A ratio is given as a number that orders as it does.
use embervm.Prelude.{
  ℕ, ◌+◌, String, Bool, true, false, not, weight_in, weight_among, sum_over-weight_in, List, [],
  ◌∷◌, map, keep, length, get, put, get-put, get_or_else, ltb, leb, sort, Sorted, sort-Sorted,
  count-sort, leb-total, leb_trans, str_eq_iff, if◌then◌else◌, ◌≡◌, refl, ◌∙◌, arith,
}

pub record StorageReport : Type 0 where
  pub sandbox_id : String
  pub tier : String
  pub logical_bytes : ℕ
  pub stored_bytes : ℕ
  pub stored_ratio : ℕ

abbrev pub tier_order : List String
tier_order = "hot" ∷ "warm" ∷ "cold" ∷ "recycled" ∷ "none" ∷ []

-- The loop of `byTier`.
unfoldable pub add_stored : List (String × ℕ) → List StorageReport → List (String × ℕ)
add_stored m [] = m
add_stored m (r ∷ rs) = add_stored (put r.tier (get_or_else (get r.tier m) 0 + r.stored_bytes) m) rs

abbrev bytes_in : List (String × ℕ) → String → String × ℕ
bytes_in m tier = (tier, get_or_else (get tier m) 0)

unfoldable pub by_tier : List StorageReport → List (String × ℕ)
unfolding add_stored
by_tier sandboxes =
    keep (λ (x : String × ℕ). ltb 0 x.1) (map (bytes_in (add_stored [] sandboxes)) tier_order)

abbrev pub total : List (String × ℕ) → ℕ
total [] = 0
total (x ∷ xs) = x.1 + total xs

-- `tierTotal`
unfoldable pub tier_total : List StorageReport → ℕ
unfolding by_tier
tier_total sandboxes = total (by_tier sandboxes)

pub data SortKey : Type 0 where
  logical stored ratio : SortKey

abbrev val : SortKey → StorageReport → ℕ
val logical r = r.logical_bytes
val stored r = r.stored_bytes
val ratio r = r.stored_ratio

-- Whether the comparison is not positive, in the direction 1, or -1 for `descending`.
unfoldable pub le : (descending : Bool) → SortKey → StorageReport → StorageReport → Bool
le true key a b = leb (val key b) (val key a)
le false key a b = leb (val key a) (val key b)

unfoldable pub rows : Bool → SortKey → List StorageReport → List StorageReport
unfolding le
rows descending key sandboxes = sort (le descending key) sandboxes

abbrev same_key : SortKey → SortKey → Bool
same_key logical logical = true
same_key stored stored = true
same_key ratio ratio = true
same_key _ _ = false

-- `toggle`; another column begins with the largest.
unfoldable pub toggle : Bool × SortKey → SortKey → Bool × SortKey
toggle s key = if same_key s.1 key then (not s.0, key) else (true, key)

-- The stored bytes of the sandboxes in a tier, and in the tiers of a list.
abbrev pub stored_in : List StorageReport → String → ℕ
stored_in = weight_in (λ (r : StorageReport). r.tier) (λ r. r.stored_bytes)

abbrev pub stored_among : List String → List StorageReport → ℕ
stored_among = weight_among (λ (r : StorageReport). r.tier) (λ r. r.stored_bytes)

get-add_stored :
    (m : List (String × ℕ)) (rs : List StorageReport) (tier : String)
    → get_or_else (get tier (add_stored m rs)) 0 ≡ get_or_else (get tier m) 0 + stored_in rs tier
unfolding add_stored
get-add_stored m [] tier = omega arith
get-add_stored m (r ∷ rs) tier = ground (
  arith,
  get-add_stored (put r.tier (get_or_else (get r.tier m) 0 + r.stored_bytes) m) rs tier,
  get-put r.tier tier (get_or_else (get r.tier m) 0 + r.stored_bytes) m,
  str_eq_iff r.tier tier,
)

total-keep : (xs : List (String × ℕ)) → total (keep (λ (x : String × ℕ). ltb 0 x.1) xs) ≡ total xs
total-keep [] = refl
total-keep (x ∷ xs) = ground (arith, total-keep xs)

bytes_in-stored :
    (rs : List StorageReport) (tier : String)
    → get_or_else (get tier (add_stored [] rs)) 0 ≡ stored_in rs tier
unfolding get
bytes_in-stored rs tier =
    let e : get_or_else (get tier (add_stored [] rs)) 0 ≡ 0 + stored_in rs tier =
      get-add_stored [] rs tier in
    e ∙ omega arith

le-total :
    (d : Bool) (key : SortKey) (a b : StorageReport) → le d key a b ≡ false → le d key b a ≡ true
unfolding le
le-total true key a b h = leb-total (val key b) (val key a) h
le-total false key a b h = leb-total (val key a) (val key b) h

le_trans :
    (d : Bool) (key : SortKey) (a b c : StorageReport)
    → le d key a b ≡ true
    → le d key b c ≡ true
    → le d key a c ≡ true
unfolding le
le_trans true key a b c h k = leb_trans (val key c) (val key b) (val key a) k h
le_trans false key a b c h k = leb_trans (val key a) (val key b) (val key c) h k

-- The bars add up to the stored bytes of the reports whose tier is one of the five that the page knows.
pub tier_total-stored : (rs : List StorageReport) → tier_total rs ≡ stored_among tier_order rs
unfolding tier_total by_tier
tier_total-stored rs =
    total-keep (map (bytes_in (add_stored [] rs)) tier_order)
    ∙ rw
        (
          bytes_in-stored rs "hot",
          bytes_in-stored rs "warm",
          bytes_in-stored rs "cold",
          bytes_in-stored rs "recycled",
          bytes_in-stored rs "none",
        )
        (sum_over-weight_in (λ (r : StorageReport). r.tier) (λ r. r.stored_bytes) tier_order rs
          (refl, (refl, (refl, (refl, (refl, tt))))))

-- The rows are in the order of the chosen column and direction, and the reports that it does not tell
-- apart keep the order of the server.
pub rows-order :
    (descending : Bool) (key : SortKey) (rs : List StorageReport)
    → Sorted (le descending key) (rows descending key rs)
      × ((p : StorageReport → Bool) → length (keep p (rows descending key rs)) ≡ length (keep p rs))
unfolding rows
rows-order descending key rs = (
  sort-Sorted (le descending key) (le-total descending key) (le_trans descending key) rs,
  λ p. count-sort (le descending key) p rs,
)
