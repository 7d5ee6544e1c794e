-- ===== src/FilesTab/NewFile.antt =====
-- The paths of the dialog for a new file and of an upload, in
-- web/src/pages/workspace/FilesTab.tsx, and what creating a file does to unsaved changes.
use embervm.Prelude.{
  ℕ, String, Bool, true, false, not, ◌&&◌, Option, none, some, List, [], ◌∷◌, ◌++◌, length, ltb,
  Text, codes, starts_with, ends_with, before_last, text_eq, text_eq_iff, if◌then◌else◌, if-intro,
  ◌≡◌, refl, sym, ap, ◌∙◌, arith, str_eq, Bool-cases, inl, inr,
}
use embervm.Files.{slash, or_else, normalize_path, parent_path, join_path, base_name}
use embervm.Files.Normal.{IsPlain}
use embervm.Files.Compose.{parent_path-join_path, normalize_path-parent_path}

-- `currentDir`, for the path of the file that is open.
unfoldable pub current_dir : Option Text → Text
unfolding before_last
current_dir none = codes "/"
current_dir (some path) = or_else (before_last slash path) (codes "/")

-- What the dialog shows when it opens, for that directory.
unfoldable pub suggested : Text → Text
suggested dir = if text_eq dir (codes "/") then codes "/" else dir ++ codes "/"

unfoldable pub valid : Text → Bool
valid path = starts_with slash path && (not (ends_with slash path) && ltb 1 (length path))

-- The path that is created when the form is sent.
unfoldable pub submit : Text → Option Text
unfolding valid normalize_path
submit path = if valid path then some (normalize_path path) else none

-- Where an upload goes.
unfoldable pub upload_path : Option Text → Text → Text
unfolding current_dir join_path
upload_path open_path name = join_path (current_dir open_path) name

-- The directory of the file that is open is `parentPath` of it, if its path is normalized.
current_dir-normalize_path : (p : Text) → current_dir (some (normalize_path p)) ≡ parent_path p
unfolding current_dir parent_path embervm.Prelude.last_index_of
current_dir-normalize_path p = elim (Bool-cases (text_eq (normalize_path p) (codes "/"))) [
  | inl e ↦ rw e (ap (λ n. or_else (before_last slash n) (codes "/")) ((text_eq_iff _ _).0 e))
  | inr n ↦ rw n refl
]

-- An upload goes next to the file that is open, under its own name, if that is a plain name.
pub upload_path-parent :
    (p name : Text)
    → IsPlain name
    → (parent_path (upload_path (some (normalize_path p)) name) ≡ parent_path p)
      × (base_name (upload_path (some (normalize_path p)) name) ≡ name)
unfolding upload_path
upload_path-parent p name h =
    let dir : Text = current_dir (some (normalize_path p)) in
    let (parent, base) = parent_path-join_path dir name h in
    (
      parent
          ∙ ap (λ d. normalize_path d) (current_dir-normalize_path p)
          ∙ normalize_path-parent_path p,
      base,
    )
