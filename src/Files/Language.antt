-- ===== src/Files/Language.antt =====
-- The language of a file in the editor, `languageOf` of web/src/lib/files.ts. `to_lower` is JavaScript's.
use embervm.Prelude.{
  ℕ, Bool, true, false, ◌||◌, List, [], ◌∷◌, ◌++◌, String, Text, codes, has_prefix, text_eq,
  text_eq_iff, after_last, after_last-append, last_index_of, is_some, Without, if◌then◌else◌, ◌≡◌,
  refl, Bool-cases, inl, inr, last_index_of-append, ap,
}

abbrev pub dot : ℕ
dot = b'.'

abbrev pub table : List (String × String)
table =
    ("js", "javascript")
    ∷ ("mjs", "javascript")
    ∷ ("cjs", "javascript")
    ∷ ("jsx", "javascript")
    ∷ ("ts", "javascript")
    ∷ ("tsx", "javascript")
    ∷ ("py", "python")
    ∷ ("json", "json")
    ∷ ("md", "markdown")
    ∷ ("markdown", "markdown")
    ∷ ("html", "html")
    ∷ ("htm", "html")
    ∷ ("css", "css")
    ∷ ("yaml", "yaml")
    ∷ ("yml", "yaml")
    ∷ ("sh", "shell")
    ∷ ("bash", "shell")
    ∷ ("zsh", "shell")
    ∷ ("env", "shell")
    ∷ ("go", "go")
    ∷ ("toml", "toml")
    ∷ ("txt", "")
    ∷ ("log", "")
    ∷ ("conf", "")
    ∷ ("ini", "")
    ∷ []

-- `map[ext] ?? ""`
abbrev pub look_up : Text → List (String × String) → String
look_up ext [] = ""
look_up ext (e ∷ es) = if text_eq ext (codes e.0) then e.1 else look_up ext es

abbrev has_dot : Text → Bool
has_dot s = is_some (last_index_of dot s)

-- `languageOf`, of the name in lower case. An extension that names what every object inherits, as
-- `constructor` does, is left out: `map` finds that member there.
unfoldable pub language_of_lower : Text → String
unfolding text_eq after_last last_index_of
language_of_lower base =
    if text_eq base (codes "dockerfile") || has_prefix (codes "dockerfile.") base
    then "dockerfile"
    else if text_eq base (codes "makefile")
    then "shell"
    else look_up (if has_dot base then after_last dot base else []) table

unfoldable pub language_of : (to_lower : Text → Text) → Text → String
unfolding language_of_lower
language_of to_lower name = language_of_lower (to_lower name)

dotted : (stem ext : Text) → Without dot ext → has_dot (stem ++ dot ∷ ext) ≡ true
dotted stem ext h = rw (last_index_of-append dot stem ext h) refl

-- A name with a dot is no name without one.
unlike :
    (stem ext : Text)
    → Without dot ext
    → (s : Text) → has_dot s ≡ false
    → text_eq (stem ++ dot ∷ ext) s ≡ false
unlike stem ext h s e = elim (Bool-cases (text_eq (stem ++ dot ∷ ext) s)) [
  | inl t ↦
      let same : has_dot (stem ++ dot ∷ ext) ≡ has_dot s =
        ap (λ z. has_dot z) ((text_eq_iff (stem ++ dot ∷ ext) s).0 t) in
      absurd (cc (same, dotted stem ext h, e))
  | inr f ↦ f
]

-- The language of a name with an extension is the extension's, whatever stands before it, unless it
-- begins as a Dockerfile's name does.
pub language_of_lower-look_up :
    (stem ext : Text)
    → Without dot ext
    → has_prefix (codes "dockerfile.") (stem ++ dot ∷ ext) ≡ false
    → language_of_lower (stem ++ dot ∷ ext) ≡ look_up ext table
unfolding language_of_lower last_index_of
language_of_lower-look_up stem ext h n =
    let name : Text = stem ++ dot ∷ ext in
    rw
      (
        unlike stem ext h (codes "dockerfile") undotted_docker,
        n,
        unlike stem ext h (codes "makefile") undotted_make,
        dotted stem ext h,
        after_last-append dot stem ext h,
      )
      refl
  where
    undotted_docker : has_dot (codes "dockerfile") ≡ false
    undotted_docker = refl

    undotted_make : has_dot (codes "makefile") ≡ false
    undotted_make = refl
