-- ===== src/Files/Family.antt =====
-- `parentPath`, `baseName` and `joinPath` against the list of segments.
use embervm.Prelude.{
  true, List, [], ◌∷◌, ◌++◌, Text, Without, All, ◌≡◌, ◌≢◌, refl, ap, sym, ◌∙◌, arith, if◌then◌else◌,
  text_eq, text_eq_iff, codes, append_assoc, append-nil, before_last, after_last,
  before_last-append, after_last-append, Bool-cases, inl, inr, ends_with,
}
use embervm.Files.{
  slash, split, join, pop, visit, visit_all, segments, normalize_path, join_path, or_else,
  parent_path, base_name,
}
use embervm.Files.Split.{split-append}
use embervm.Files.Normal.{IsPlain, segments-IsPlain, visit_all-append}

-- Every segment with a slash before it.
abbrev rooted : List Text → Text
rooted [] = []
rooted (p ∷ ps) = slash ∷ p ++ rooted ps

rooted-cons : (p : Text) (ps : List Text) → slash ∷ join (p ∷ ps) ≡ rooted (p ∷ ps)
rooted-cons p [] = ap (slash ∷◌) (sym (append-nil p))
rooted-cons p (q ∷ ps) = ap (λ t. slash ∷ p ++ t) (rooted-cons q ps)

rooted-append : (ps : List Text) (l : Text) → rooted (ps ++ l ∷ []) ≡ rooted ps ++ slash ∷ l
rooted-append [] l = ap (slash ∷◌) (append-nil l)
rooted-append (p ∷ ps) l =
    ap (λ t. slash ∷ p ++ t) (rooted-append ps l)
    ∙ ap (slash ∷◌) (sym (append_assoc p (rooted ps) (slash ∷ l)))

-- A list seen from its end.
pub data Ends : List Text → Type 0 where
  nothing : Ends []
  ends : (ps : List Text) (l : Text) → Ends (ps ++ l ∷ [])

pub from_end : (ps : List Text) → Ends ps
from_end [] = nothing
from_end (p ∷ ps) = more p (from_end ps)
  where
    more : (p : Text) {ps : List Text} → Ends ps → Ends (p ∷ ps)
    more p nothing = ends [] p
    more p (ends qs l) = ends (p ∷ qs) l

pub pop-append : (ps : List Text) (l : Text) → pop (ps ++ l ∷ []) ≡ ps
pop-append [] l = refl
pop-append (p ∷ []) l = refl
pop-append (p ∷ q ∷ ps) l = ap (p ∷◌) (pop-append (q ∷ ps) l)

-- The last segment, and the empty text for the root.
abbrev pub last_or_empty : List Text → Text
last_or_empty [] = []
last_or_empty (p ∷ []) = p
last_or_empty (p ∷ q ∷ ps) = last_or_empty (q ∷ ps)

pub last_or_empty-append : (ps : List Text) (l : Text) → last_or_empty (ps ++ l ∷ []) ≡ l
last_or_empty-append [] l = refl
last_or_empty-append (p ∷ []) l = refl
last_or_empty-append (p ∷ q ∷ ps) l = last_or_empty-append (q ∷ ps) l

join-append : (ps : List Text) (l : Text) → slash ∷ join (ps ++ l ∷ []) ≡ rooted ps ++ slash ∷ l
join-append [] l = refl
join-append (p ∷ ps) l = rooted-cons p (ps ++ l ∷ []) ∙ rooted-append (p ∷ ps) l

or_else-rooted : (ps : List Text) → or_else (rooted ps) (codes "/") ≡ slash ∷ join ps
or_else-rooted [] = refl
or_else-rooted (p ∷ ps) = sym (rooted-cons p ps)

pub All_last : (P : Text → Type 0) (ps : List Text) (l : Text) → All P (ps ++ l ∷ []) → P l
All_last P [] l h = h.0
All_last P (p ∷ ps) l h = All_last P ps l h.1

-- What the two functions do to a normalized path.
parent_of : Text → Text
parent_of n = if text_eq n (codes "/") then codes "/" else or_else (before_last slash n) (codes "/")

parent_of-append :
    (a l : Text) → Without slash l → l ≢ [] → parent_of (a ++ slash ∷ l) ≡ or_else a (codes "/")
unfolding parent_of
parent_of-append a l h ne = elim (Bool-cases (text_eq (a ++ slash ∷ l) (codes "/"))) [
  | inl e ↦ absurd (
      ne (
        sym (after_last-append slash a l h)
        ∙ ap (after_last slash) ((text_eq_iff _ _).0 e)
        ∙ after_last-append slash [] [] tt))
  | inr e ↦ rw (e, before_last-append slash a l h)
]

parent_of-join :
    (ps : List Text) → All IsPlain ps → parent_of (slash ∷ join ps) ≡ slash ∷ join (pop ps)
parent_of-join ps h = by_end (from_end ps) h
  where
    by_end :
        {ps : List Text}
        → Ends ps
        → All IsPlain ps
        → parent_of (slash ∷ join ps) ≡ slash ∷ join (pop ps)
    by_end nothing h = unfold parent_of text_eq in refl
    by_end (ends ps l) h =
        let plain = All_last IsPlain ps l h in
        rw (join-append ps l, pop-append ps l)
          (parent_of-append (rooted ps) l plain.no_slash plain.not_empty ∙ or_else-rooted ps)

base_of-join :
    (ps : List Text) → All IsPlain ps → after_last slash (slash ∷ join ps) ≡ last_or_empty ps
base_of-join ps h = by_end (from_end ps) h
  where
    by_end :
        {ps : List Text}
        → Ends ps
        → All IsPlain ps
        → after_last slash (slash ∷ join ps) ≡ last_or_empty ps
    by_end nothing h = after_last-append slash [] [] tt
    by_end (ends ps l) h =
        rw (join-append ps l, last_or_empty-append ps l)
          (after_last-append slash (rooted ps) l (All_last IsPlain ps l h).no_slash)

-- `parentPath(p)` is the normalized path without its last segment, "/" for the root, and
-- `baseName(p)` is that segment, "" for the root.
pub parent_path-base_name :
    (p : Text)
    → (parent_path p ≡ slash ∷ join (pop (segments p))) × (base_name p ≡ last_or_empty (segments p))
unfolding parent_path base_name parent_of
parent_path-base_name p = (
  parent_of-join (segments p) (segments-IsPlain p),
  base_of-join (segments p) (segments-IsPlain p),
)

visit-nil : (out : List Text) → visit out [] ≡ out
unfolding visit text_eq
visit-nil out = refl

segments-append : (a b : Text) → segments (a ++ slash ∷ b) ≡ visit_all (segments a) (split b)
unfolding segments
segments-append a b = ap (visit_all []) (split-append a b) ∙ visit_all-append [] (split a) (split b)

-- A directory that ends with a slash.
slash_last : (d : Text) → ends_with slash d ≡ true → (a : Text) × (d ≡ a ++ slash ∷ [])
slash_last [] h = cc
slash_last (c ∷ []) h = ([], ground arith)
slash_last (c ∷ e ∷ d) h = let (a, same) = slash_last (e ∷ d) h in (c ∷ a, ap (c ∷◌) same)

segments-slash_last : (a : Text) → segments (a ++ slash ∷ []) ≡ segments a
unfolding split visit_all
segments-slash_last a = segments-append a [] ∙ visit-nil (segments a)

segments-join_path :
    (dir name : Text)
    → segments (if ends_with slash dir then dir ++ name else dir ++ slash ∷ name)
      ≡ visit_all (segments dir) (split name)
segments-join_path dir name = elim (Bool-cases (ends_with slash dir)) [
  | inl e ↦
      let (a, same) = slash_last dir e in
      rw (e, same, append_assoc, segments-slash_last a) (segments-append a name)
  | inr e ↦ rw e (segments-append dir name)
]

-- `joinPath(dir, name)` goes on from the segments of `dir` with the parts of `name`, whether or not
-- `dir` ends with a slash.
pub join_path_lem :
    (dir name : Text) → join_path dir name ≡ slash ∷ join (visit_all (segments dir) (split name))
unfolding join_path normalize_path
join_path_lem dir name = ap (λ ps. slash ∷ join ps) (segments-join_path dir name)
