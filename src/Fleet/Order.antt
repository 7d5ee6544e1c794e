-- ===== src/Fleet/Order.antt =====
-- The order of the rows.
use embervm.Prelude.{
  ℕ, ◌<◌, String, Bool, true, false, List, Text, keep, length, Sorted, sort-Sorted, count-sort,
  keep-sort, cross_trans, both, leb-total, leb_trans, leb→le, le→leb, ◌&&◌, ◌≡◌, arith,
}
use embervm.Api.{Sandbox}
use embervm.Fleet.{
  SortKey, by_state, by_memory, by_age, by_headroom, SortState, Filter, ascending, descending, Dir,
  le_key, le_in, le, rows, matches, headroom,
}

positive : (sb : Sandbox) → 0 < (headroom sb).1
unfolding headroom
positive sb = ground arith

module _ (time : String → ℕ) where
  le_key-total :
      (k : SortKey) (a b : Sandbox) → le_key time k a b ≡ false → le_key time k b a ≡ true
  unfolding le_key
  le_key-total by_state a b e = leb-total _ _ e
  le_key-total by_memory a b e = leb-total _ _ e
  le_key-total by_headroom a b e = leb-total _ _ e
  le_key-total by_age a b e = leb-total _ _ e

  le_key_trans :
      (k : SortKey) (a b c : Sandbox)
      → le_key time k a b ≡ true
      → le_key time k b c ≡ true
      → le_key time k a c ≡ true
  unfolding le_key
  le_key_trans by_state a b c e f = leb_trans _ _ _ e f
  le_key_trans by_memory a b c e f = leb_trans _ _ _ e f
  le_key_trans by_headroom a b c e f = le→leb _ _ (
      cross_trans (headroom a).0 (headroom a).1 (headroom b).0 (headroom b).1 (headroom c).0
        (headroom c).1 (positive b) (leb→le _ _ e) (leb→le _ _ f))
  le_key_trans by_age a b c e f = leb_trans _ _ _ e f

  le_in-total :
      (d : Dir) (k : SortKey) (a b : Sandbox)
      → le_in time d k a b ≡ false
      → le_in time d k b a ≡ true
  unfolding le_in
  le_in-total ascending k a b e = le_key-total k a b e
  le_in-total descending k a b e = le_key-total k b a e

  le_in_trans :
      (d : Dir) (k : SortKey) (a b c : Sandbox)
      → le_in time d k a b ≡ true
      → le_in time d k b c ≡ true
      → le_in time d k a c ≡ true
  unfolding le_in
  le_in_trans ascending k a b c e f = le_key_trans k a b c e f
  le_in_trans descending k a b c e f = le_key_trans k c b a f e

  -- The two sandboxes have the same place in the order.
  abbrev pub ties : SortState → Sandbox → Sandbox → Bool
  ties s a b = le time s a b && le time s b a

  -- The rows are in the order of the column and the direction that are chosen, are the sandboxes that
  -- pass the filter and the query, each as often as it is there, and rows that the column does not tell
  -- apart keep the order in which the server listed them.
  pub rows-Sorted :
      (lower : String → Text) (sandboxes : List Sandbox) (q : Text) (filter : Filter)
      (s : SortState)
      → let shown = rows time lower sandboxes q filter s in
        let passed = keep (matches lower q filter) sandboxes in
        Sorted (le time s) shown
        × ((p : Sandbox → Bool) → length (keep p shown) ≡ length (keep p passed))
        × ((sb : Sandbox) → keep (ties s sb) shown ≡ keep (ties s sb) passed)
  unfolding rows
  rows-Sorted lower sandboxes q filter s =
      let passed : List Sandbox = keep (matches lower q filter) sandboxes in
      (
        sort-Sorted (le time s) (le_in-total s.dir s.key) (le_in_trans s.dir s.key) passed,
        λ p. count-sort (le time s) p passed,
        λ sb.
            keep-sort (le time s) (ties s sb) passed
              (λ a b e f. le_in_trans s.dir s.key a sb b (both _ _ e).1 (both _ _ f).0),
      )
