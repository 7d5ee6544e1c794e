-- ===== src/FilesTab/Tree/Shown.antt =====
-- The rows of the file tree against a description of what is visible, and what the arrow keys reach.
use embervm.Prelude.{
  Bool, true, false, ◌&&◌, ◌||◌, Option, none, some, List, [], ◌∷◌, ◌++◌, map, Text, text_eq,
  text_eq_iff, if◌then◌else◌, Bool-cases, inl, inr, ◌≡◌, refl, sym, ap, ◌∙◌, arith,
}
use embervm.Files.{join_path}
use embervm.FilesTab.Tree.{
  DirEntry, Opened, opened, Children, end, child, Row, under, group_of, or_nothing, splice, rows_of,
  groups, child_of,
}

abbrev pub trail_eq : List Text → List Text → Bool
trail_eq [] [] = true
trail_eq (x ∷ xs) (y ∷ ys) = text_eq x y && trail_eq xs ys
trail_eq _ _ = false

-- Whether a row with the trail is rendered.
abbrev pub has : List Text → List Row → Bool
has ns [] = false
has ns (r ∷ rs) = trail_eq ns r.trail || has ns rs

abbrev pub is_listed : Text → List DirEntry → Bool
is_listed n [] = false
is_listed n (e ∷ es) = text_eq n e.name || is_listed n es

abbrev pub is_listed_dir : Text → List DirEntry → Bool
is_listed_dir n [] = false
is_listed_dir n (e ∷ es) = (text_eq n e.name && e.is_dir) || is_listed_dir n es

module _ (listing : Text → List DirEntry) where
  -- What is visible below an open directory: its entries, and below those that are open directories.
  abbrev pub is_shown : List Text → Opened → Text → Bool
  is_shown [] o path = false
  is_shown (n ∷ []) o path = is_listed n (listing path)
  is_shown (n ∷ m ∷ ns) (opened cs) path =
      is_listed_dir n (listing path)
      && elim (child_of n cs) [ none ↦ false | some o ↦ is_shown (m ∷ ns) o (join_path path n) ]

has-append : (ns : List Text) (xs ys : List Row) → has ns (xs ++ ys) ≡ (has ns xs || has ns ys)
has-append ns [] ys = refl
has-append ns (x ∷ xs) ys = ground (arith, has-append ns xs ys)

has-under :
    (n m : Text) (ns : List Text) (rs : List Row)
    → has (n ∷ ns) (map (under m) rs) ≡ (text_eq n m && has ns rs)
has-under n m ns [] = ground arith
has-under n m ns (r ∷ rs) = ground (arith, has-under n m ns rs)

has-nil_under : (m : Text) (rs : List Row) → has [] (map (under m) rs) ≡ false
has-nil_under m [] = refl
has-nil_under m (r ∷ rs) = has-nil_under m rs

has-nil_splice : (es : List DirEntry) (gs : List (Text × List Row)) → has [] (splice es gs) ≡ false
has-nil_splice [] gs = refl
has-nil_splice (e ∷ es) gs = ground (
  arith,
  has-append [] (if e.is_dir then map (under e.name) (or_nothing (group_of e.name gs)) else [])
      (splice es gs),
  has-nil_under e.name (or_nothing (group_of e.name gs)),
  has-nil_splice es gs,
)

-- A row of an entry itself.
has-one_splice :
    (n : Text) (es : List DirEntry) (gs : List (Text × List Row))
    → ((m : Text) → has [] (or_nothing (group_of m gs)) ≡ false)
    → has (n ∷ []) (splice es gs) ≡ is_listed n es
has-one_splice n [] gs h = refl
has-one_splice n (e ∷ es) gs h =
    let group : List Row = or_nothing (group_of e.name gs) in
    ground (
      arith,
      has-append (n ∷ []) (if e.is_dir then map (under e.name) group else []) (splice es gs),
      has-under n e.name [] group,
      h e.name,
      has-one_splice n es gs h,
    )

-- A row below an entry.
has-splice :
    (n m : Text) (ns : List Text) (es : List DirEntry) (gs : List (Text × List Row))
    → has (n ∷ m ∷ ns) (splice es gs)
      ≡ (is_listed_dir n es && has (m ∷ ns) (or_nothing (group_of n gs)))
has-splice n m ns [] gs = refl
has-splice n m ns (e ∷ es) gs =
    let group : List Row = or_nothing (group_of e.name gs) in
    let same : text_eq n e.name ≡ true
        → has (m ∷ ns) group ≡ has (m ∷ ns) (or_nothing (group_of n gs)) =
      λ t. ap (λ k. has (m ∷ ns) (or_nothing (group_of k gs))) (sym ((text_eq_iff n e.name).0 t)) in
    elim (Bool-cases (text_eq n e.name)) [
      | inl t ↦ ground (
        arith,
        has-append (n ∷ m ∷ ns) (if e.is_dir then map (under e.name) group else []) (splice es gs),
        has-under n e.name (m ∷ ns) group,
        same t,
        has-splice n m ns es gs,
      )
      | inr f ↦ ground (
        arith,
        has-append (n ∷ m ∷ ns) (if e.is_dir then map (under e.name) group else []) (splice es gs),
        has-under n e.name (m ∷ ns) group,
        f,
        has-splice n m ns es gs,
      )
    ]

module _ (listing : Text → List DirEntry) where
  has-nil_rows : (o : Opened) (path : Text) → has [] (rows_of listing o path) ≡ false
  unfolding rows_of
  has-nil_rows (opened cs) path = has-nil_splice (listing path) (groups listing cs path)

  has-nil_groups :
      (cs : Children) (path m : Text)
      → has [] (or_nothing (group_of m (groups listing cs path))) ≡ false
  unfolding groups
  has-nil_groups end path m = refl
  has-nil_groups (child k o cs) path m =
      ground (arith, has-nil_rows o (join_path path k), has-nil_groups cs path m)

  abbrev is_shown_in : List Text → Option Opened → Text → Bool
  is_shown_in ns none path = false
  is_shown_in ns (some o) path = is_shown listing ns o path

  shown_below :
      (n m : Text) (ns : List Text) (cs : Children) (path : Text)
      → (is_listed_dir n (listing path) && is_shown_in (m ∷ ns) (child_of n cs) (join_path path n))
        ≡ is_shown listing (n ∷ m ∷ ns) (opened cs) path
  shown_below n m ns cs path = go (child_of n cs) refl
    where
      go :
          (o : Option Opened)
          → child_of n cs ≡ o
          → (is_listed_dir n (listing path)
              && is_shown_in (m ∷ ns) (child_of n cs) (join_path path n))
            ≡ is_shown listing (n ∷ m ∷ ns) (opened cs) path
      go none e = rw e refl
      go (some o) e = rw e refl

  rows_of-from_groups :
      (ns : List Text) (cs : Children) (path : Text)
      → ((n : Text) (ns : List Text)
          → has ns (or_nothing (group_of n (groups listing cs path)))
            ≡ is_shown_in ns (child_of n cs) (join_path path n))
      → has ns (rows_of listing (opened cs) path) ≡ is_shown listing ns (opened cs) path
  unfolding rows_of
  rows_of-from_groups [] cs path h = has-nil_rows (opened cs) path
  rows_of-from_groups (n ∷ []) cs path h =
      has-one_splice n (listing path) (groups listing cs path) (has-nil_groups cs path)
  rows_of-from_groups (n ∷ m ∷ ns) cs path h =
      has-splice n m ns (listing path) (groups listing cs path)
      ∙ ap (λ b. is_listed_dir n (listing path) && b) (h n (m ∷ ns))
      ∙ shown_below n m ns cs path

  mutual
    unfolding groups

    rows_of-is_shown :
        (o : Opened) (ns : List Text) (path : Text)
        → has ns (rows_of listing o path) ≡ is_shown listing ns o path
    rows_of-is_shown (opened cs) ns path =
        rows_of-from_groups ns cs path (λ n ns. groups-is_shown_in cs n ns path)

    groups-is_shown_in :
        (cs : Children) (n : Text) (ns : List Text) (path : Text)
        → has ns (or_nothing (group_of n (groups listing cs path)))
          ≡ is_shown_in ns (child_of n cs) (join_path path n)
    groups-is_shown_in end n ns path = refl
    groups-is_shown_in (child k o cs) n ns path = elim (Bool-cases (text_eq n k)) [
      | inl t ↦ rw t (
          rows_of-is_shown o ns (join_path path k)
          ∙ ap (λ z. is_shown listing ns o (join_path path z)) (sym ((text_eq_iff n k).0 t)))
      | inr f ↦ rw f (groups-is_shown_in cs n ns path)
    ]

  -- A row is rendered for exactly the trails that are visible.
  pub has-rows_of :
      (o : Opened) (ns : List Text) (path : Text)
      → has ns (rows_of listing o path) ≡ is_shown listing ns o path
  has-rows_of o ns path = rows_of-is_shown o ns path
