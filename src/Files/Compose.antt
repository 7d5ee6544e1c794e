-- ===== src/Files/Compose.antt =====
-- Taking a path apart and putting it together again.
use embervm.Prelude.{
  List, [], ◌∷◌, ◌++◌, Text, codes, All, All-append, ◌≡◌, refl, ap, ap₂, sym, ◌∙◌, text_eq,
}
use embervm.Files.{
  slash, split, join, pop, visit, visit_all, segments, normalize_path, join_path, parent_path,
  base_name,
}
use embervm.Files.Split.{split-Without}
use embervm.Files.Normal.{IsPlain, All-pop, segments-IsPlain, visit_of_IsPlain, segments-join}
use embervm.Files.Family.{
  Ends, nothing, ends, from_end, All_last, pop-append, last_or_empty, last_or_empty-append,
  parent_path-base_name, join_path_lem,
}

visit_all-split_of_IsPlain :
    (out : List Text) (name : Text) → IsPlain name → visit_all out (split name) ≡ out ++ name ∷ []
unfolding visit_all
visit_all-split_of_IsPlain out name h =
    ap (visit_all out) (split-Without name h.no_slash) ∙ visit_of_IsPlain out name h

visit_all-split_last :
    (ps : List Text) → All IsPlain ps → visit_all (pop ps) (split (last_or_empty ps)) ≡ ps
visit_all-split_last ps h = by_end (from_end ps) h
  where
    by_end :
        {ps : List Text}
        → Ends ps
        → All IsPlain ps
        → visit_all (pop ps) (split (last_or_empty ps)) ≡ ps
    by_end nothing h = unfold visit_all visit split text_eq in refl
    by_end (ends ps l) h =
        ap₂ (λ out name. visit_all out (split name)) (pop-append ps l) (last_or_empty-append ps l)
        ∙ visit_all-split_of_IsPlain ps l (All_last IsPlain ps l h)

segments-parent_path : (p : Text) → segments (parent_path p) ≡ pop (segments p)
segments-parent_path p =
    ap segments (parent_path-base_name p).0
    ∙ segments-join (pop (segments p)) (All-pop IsPlain (segments p) (segments-IsPlain p))

pub normalize_path-parent_path : (p : Text) → normalize_path (parent_path p) ≡ parent_path p
unfolding normalize_path
normalize_path-parent_path p =
    ap (λ ps. slash ∷ join ps) (segments-parent_path p) ∙ sym (parent_path-base_name p).0

-- For every path, absolute or not and with any dots and slashes in it: joining `baseName(p)` to
-- `parentPath(p)` gives the normalized path.
pub join_path-parent_path : (p : Text) → join_path (parent_path p) (base_name p) ≡ normalize_path p
unfolding normalize_path
join_path-parent_path p =
    join_path_lem (parent_path p) (base_name p)
    ∙ ap (λ ps. slash ∷ join ps)
        (ap₂ (λ out name. visit_all out (split name)) (segments-parent_path p)
            (parent_path-base_name p).1
          ∙ visit_all-split_last (segments p) (segments-IsPlain p))

segments-join_path :
    (dir name : Text) → IsPlain name → segments (join_path dir name) ≡ segments dir ++ name ∷ []
segments-join_path dir name h =
    ap segments (
      join_path_lem dir name
      ∙ ap (λ ps. slash ∷ join ps) (visit_all-split_of_IsPlain (segments dir) name h))
    ∙ segments-join (segments dir ++ name ∷ [])
        (All-append IsPlain (segments dir) (name ∷ []) (segments-IsPlain dir) (h, tt))

-- For every directory and every plain name, such as an entry of a listing: the parent of the joined
-- path is the normalized directory, and its base name is the name.
pub parent_path-join_path :
    (dir name : Text)
    → IsPlain name
    → (parent_path (join_path dir name) ≡ normalize_path dir)
      × (base_name (join_path dir name) ≡ name)
unfolding normalize_path
parent_path-join_path dir name h = (
  (parent_path-base_name (join_path dir name)).0
      ∙ ap (λ ps. slash ∷ join (pop ps)) (segments-join_path dir name h)
      ∙ ap (λ ps. slash ∷ join ps) (pop-append (segments dir) name),
  (parent_path-base_name (join_path dir name)).1
      ∙ ap last_or_empty (segments-join_path dir name h)
      ∙ last_or_empty-append (segments dir) name,
)

-- Joining ".." is `parentPath`, at the root too.
pub join_path-dots : (dir : Text) → join_path dir (codes "..") ≡ parent_path dir
unfolding visit_all visit split text_eq
join_path-dots dir = join_path_lem dir (codes "..") ∙ sym (parent_path-base_name dir).0
