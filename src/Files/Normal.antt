-- ===== src/Files/Normal.antt =====
-- What `normalizePath` leaves: the segments are plain names, and a second pass changes nothing.
use embervm.Prelude.{
  List, [], ◌∷◌, ◌++◌, Text, Without, All, All-append, All-imp, ◌≡◌, ◌≢◌, refl, ap, sym, ◌∙◌, arith,
  text_eq, text_eq_iff, codes, append_assoc, append-nil,
}
use embervm.Files.{slash, split, join, pop, visit, visit_all, segments, normalize_path}
use embervm.Files.Split.{split-join, All-split}

-- A name that can be a segment of a normalized path.
pub record IsPlain (s : Text) : Type 0 where
  pub not_empty : s ≢ []
  pub not_dot : s ≢ codes "."
  pub not_dots : s ≢ codes ".."
  pub no_slash : Without slash s

pub All-pop : (P : Text → Type 0) (ps : List Text) → All P ps → All P (pop ps)
All-pop P [] h = h
All-pop P (p ∷ []) h = tt
All-pop P (p ∷ q ∷ ps) h = (h.0, All-pop P (q ∷ ps) h.1)

visit-IsPlain :
    (out : List Text) (part : Text)
    → All IsPlain out
    → Without slash part
    → All IsPlain (visit out part)
unfolding visit
visit-IsPlain out part h k = ground (
  arith,
  text_eq_iff part [],
  text_eq_iff part (codes "."),
  text_eq_iff part (codes ".."),
  All-pop IsPlain out h,
  λ (n : part ≢ []) (d : part ≢ codes ".") (e : part ≢ codes "..").
      All-append IsPlain out (part ∷ []) h
        (record { not_empty = n; not_dot = d; not_dots = e; no_slash = k }, tt),
)

visit_all-IsPlain :
    (out parts : List Text)
    → All IsPlain out
    → All (Without slash) parts
    → All IsPlain (visit_all out parts)
unfolding visit_all
visit_all-IsPlain out [] h k = h
visit_all-IsPlain out (part ∷ parts) h k =
    visit_all-IsPlain (visit out part) parts (visit-IsPlain out part h k.0) k.1

pub segments-IsPlain : (p : Text) → All IsPlain (segments p)
unfolding segments
segments-IsPlain p = visit_all-IsPlain [] (split p) tt (All-split p)

pub visit_of_IsPlain :
    (out : List Text) (part : Text) → IsPlain part → visit out part ≡ out ++ part ∷ []
unfolding visit
visit_of_IsPlain out part h =
    ground (arith, text_eq_iff part [], text_eq_iff part (codes "."), text_eq_iff part (codes ".."))

visit_all_of_IsPlain :
    (out parts : List Text) → All IsPlain parts → visit_all out parts ≡ out ++ parts
unfolding visit_all
visit_all_of_IsPlain out [] h = sym (append-nil out)
visit_all_of_IsPlain out (part ∷ parts) h =
    visit_all_of_IsPlain (visit out part) parts h.1
    ∙ ap (λ o. o ++ parts) (visit_of_IsPlain out part h.0)
    ∙ append_assoc out (part ∷ []) parts

pub visit_all-append :
    (out ps qs : List Text) → visit_all out (ps ++ qs) ≡ visit_all (visit_all out ps) qs
unfolding visit_all
visit_all-append out [] qs = refl
visit_all-append out (p ∷ ps) qs = visit_all-append (visit out p) ps qs

-- The segments of a path that was put together from plain names are these names.
pub segments-join : (ps : List Text) → All IsPlain ps → segments (slash ∷ join ps) ≡ ps
unfolding segments split visit_all visit text_eq
segments-join [] h = refl
segments-join (p ∷ ps) h =
    ap (visit_all []) (split-join p ps (All-imp (λ s g. g.no_slash) (p ∷ ps) h))
    ∙ visit_all_of_IsPlain [] (p ∷ ps) h

-- Every normalized path is "/" and segments joined by slashes, none of which is empty, ".", ".." or
-- has a slash in it; and normalizing it again gives the same path.
pub normalize_path_idem :
    (p : Text)
    → (ps : List Text) × All IsPlain ps
      × (normalize_path p ≡ slash ∷ join ps)
      × (normalize_path (normalize_path p) ≡ normalize_path p)
unfolding normalize_path
normalize_path_idem p = (
  segments p,
  segments-IsPlain p,
  refl,
  ap (λ ps. slash ∷ join ps) (segments-join (segments p) (segments-IsPlain p)),
)
