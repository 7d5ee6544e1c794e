-- ===== src/FilesTab/Tree.antt =====
-- The tree of guest files, web/src/components/tree.tsx: which directories are open, the rows that are
-- rendered for them, and the arrow keys. A row is given by its trail, the names from the root to it. The
-- directories' listings are answers of the guest: `listing` has the entries of each path, none while the
-- answer is not there.
pub mod Shown
pub mod Keys
use embervm.Prelude.{
  ℕ, suc, ◌-◌, ltb, Bool, true, false, not, ◌&&◌, ◌||◌, Option, none, some, List, [], ◌∷◌, ◌++◌,
  map, length, Text, codes, text_eq, is_some, if◌then◌else◌,
}
use embervm.Files.{join_path}

pub record DirEntry : Type 0 where
  pub name : Text
  pub is_dir : Bool

-- A `DirNode` that is open, with those that are open among its children, by their names. A child that is
-- not open has no state worth keeping, and neither has what was open below it: it is unmounted.
mutual
  pub data Opened : Type 0 where
    opened : Children → Opened

  pub data Children : Type 0 where
    end : Children
    child : Text → Opened → Children → Children

pub record Row : Type 0 where
  pub trail : List Text
  pub is_dir : Bool
  pub expanded : Bool

-- The paths and depths that are handed down along a trail.
abbrev pub path_from : Text → List Text → Text
path_from path [] = path
path_from path (name ∷ trail) = path_from (join_path path name) trail

abbrev pub depth_of : Row → ℕ
depth_of r = length r.trail

abbrev pub under : Text → Row → Row
under name r = record r { trail = name ∷ r.trail }

abbrev pub group_of : Text → List (Text × List Row) → Option (List Row)
group_of name [] = none
group_of name (g ∷ gs) = if text_eq name g.0 then some g.1 else group_of name gs

abbrev pub or_nothing : Option (List Row) → List Row
or_nothing none = []
or_nothing (some rows) = rows

-- An `Entry` with the rows of its group.
abbrev pub entry_rows : DirEntry → Option (List Row) → List Row
entry_rows e group =
    record { trail = e.name ∷ []; is_dir = e.is_dir; expanded = e.is_dir && is_some group }
    ∷ (if e.is_dir then map (under e.name) (or_nothing group) else [])

-- The entries of a `DirNode`, given the groups of its open children.
abbrev pub splice : List DirEntry → List (Text × List Row) → List Row
splice [] gs = []
splice (e ∷ es) gs = entry_rows e (group_of e.name gs) ++ splice es gs

module _ (listing : Text → List DirEntry) where
  unfoldable mutual
    -- The rows of the group of an open `DirNode` at a path.
    pub rows_of : Opened → Text → List Row
    rows_of (opened cs) path = splice (listing path) (groups cs path)

    pub groups : Children → Text → List (Text × List Row)
    groups end path = []
    groups (child name o cs) path = (name, rows_of o (join_path path name)) ∷ groups cs path

-- `FileTree`, whose root is open at first.
abbrev pub initially : Opened
initially = opened end

abbrev pub child_of : Text → Children → Option Opened
child_of name end = none
child_of name (child k o cs) = if text_eq name k then some o else child_of name cs

abbrev pub without : Text → Children → Children
without name end = end
without name (child k o cs) =
    if text_eq name k then without name cs else child k o (without name cs)

abbrev pub at_child : Text → (Children → Children) → Children → Children
at_child name f end = end
at_child name f (child k (opened ds) cs) =
    if text_eq name k then child k (opened (f ds)) cs else child k (opened ds) (at_child name f cs)

-- A click on the button of the directory at the trail: `setOpen(!open)`.
unfoldable pub toggle : List Text → Children → Children
toggle [] cs = cs
toggle (name ∷ []) cs =
    if is_some (child_of name cs) then without name cs else child name (opened end) cs
toggle (name ∷ next ∷ trail) cs = at_child name (toggle (next ∷ trail)) cs

-- The keys that a directory's button takes: ArrowRight opens it, ArrowLeft closes it.
unfoldable pub is_open : List Text → Children → Bool
is_open [] cs = true
is_open (name ∷ trail) cs = elim (child_of name cs) [
  | none ↦ false
  | some (opened ds) ↦ is_open trail ds
]

unfoldable pub arrow_right : List Text → Children → Children
unfolding toggle is_open
arrow_right trail cs = if is_open trail cs then cs else toggle trail cs

unfoldable pub arrow_left : List Text → Children → Children
unfolding toggle is_open
arrow_left trail cs = if is_open trail cs then toggle trail cs else cs

-- `onKeyDown` of the tree, with the number of rows and the index of the row that has the focus, if one
-- has: ArrowDown, or ArrowUp.
unfoldable pub on_arrow : (down : Bool) (count : ℕ) → Option ℕ → Option ℕ
on_arrow true count none = if ltb 0 count then some 0 else none
on_arrow true count (some i) = if ltb (suc i) count then some (suc i) else some i
on_arrow false count none = none
on_arrow false count (some i) = if ltb 0 i && ltb (i - 1) count then some (i - 1) else some i
