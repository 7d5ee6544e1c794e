-- ===== src/Files.antt =====
-- Guest paths and editor guards of web/src/lib/files.ts.
pub mod Split
pub mod Normal
pub mod Family
pub mod Compose
pub mod Guards
pub mod Language
pub mod Tests
use embervm.Prelude.{
  ℕ, zero, suc, ◌+◌, ◌-◌, ◌*◌, min, Bool, true, false, ◌||◌, List, [], ◌∷◌, ◌++◌, length, ◌==◌,
  if◌then◌else◌, Text, codes, text_eq, ends_with, before_last, after_last, ◌≡◌, refl,
}

abbrev pub slash : ℕ
slash = b'/'

abbrev pub push_front : ℕ → List Text → List Text
push_front c [] = (c ∷ []) ∷ []
push_front c (p ∷ ps) = (c ∷ p) ∷ ps

-- `p.split("/")`
unfoldable pub split : Text → List Text
split [] = [] ∷ []
split (c ∷ s) = if c == slash then [] ∷ split s else push_front c (split s)

-- `out.join("/")`
abbrev pub join : List Text → Text
join [] = []
join (p ∷ []) = p
join (p ∷ q ∷ ps) = p ++ slash ∷ join (q ∷ ps)

-- `out.pop()`, which does nothing to an empty array.
abbrev pub pop : List Text → List Text
pop [] = []
pop (p ∷ []) = []
pop (p ∷ q ∷ ps) = p ∷ pop (q ∷ ps)

-- One round of the loop of `normalizePath`.
unfoldable pub visit : List Text → Text → List Text
visit out part =
    if text_eq part [] || text_eq part (codes ".")
    then out
    else if text_eq part (codes "..")
    then pop out
    else out ++ part ∷ []

unfoldable pub visit_all : List Text → List Text → List Text
unfolding visit
visit_all out [] = out
visit_all out (part ∷ parts) = visit_all (visit out part) parts

-- The array `out` at the end of the loop.
unfoldable pub segments : Text → List Text
unfolding split visit_all
segments p = visit_all [] (split p)

unfoldable pub normalize_path : Text → Text
unfolding segments
normalize_path p = slash ∷ join (segments p)

unfoldable pub join_path : Text → Text → Text
unfolding normalize_path
join_path dir name =
    normalize_path (if ends_with slash dir then dir ++ name else dir ++ slash ∷ name)

abbrev pub or_else : Text → Text → Text
or_else [] d = d
or_else (c ∷ s) d = c ∷ s

unfoldable pub parent_path : Text → Text
unfolding normalize_path before_last
parent_path p =
    let n : Text = normalize_path p in
    if text_eq n (codes "/") then codes "/" else or_else (before_last slash n) (codes "/")

unfoldable pub base_name : Text → Text
unfolding normalize_path after_last
base_name p = after_last slash (normalize_path p)

abbrev pub edit_warn_bytes : ℕ
edit_warn_bytes = 2 * 1024 * 1024

abbrev pub edit_max_bytes : ℕ
edit_max_bytes = 8 * 1024 * 1024

-- The loop of `looksBinary` over the next `n` bytes.
unfoldable pub has_nul : ℕ → List ℕ → Bool
has_nul zero bytes = false
has_nul (suc n) [] = false
has_nul (suc n) (b ∷ bytes) = let rest = has_nul n bytes in if b == 0 then true else rest

unfoldable pub looks_binary : List ℕ → Bool
unfolding has_nul
looks_binary bytes = has_nul (min (length bytes) 8192) bytes
