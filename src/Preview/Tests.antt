-- ===== src/Preview/Tests.antt =====
-- The recent ports on concrete numbers.
use embervm.Prelude.{none, List, [], ◌∷◌, take, ◌≡◌, refl, codes}
use embervm.Preview.{
  Asked, port_number, wrong, mount, open_port, load_recent, next_recent, strip, src,
}
use embervm.Preview.Recent.{recent-open_all, open_all, mru, ports}

-- The last one is opened first.
abbrev asked : List Asked
asked = port_number 8080 ∷ port_number 70000 ∷ port_number 3000 ∷ wrong ∷ port_number 8080 ∷ []

reopened : load_recent (open_all (mount none) asked).stored ≡ 8080 ∷ 3000 ∷ []
unfolding open_port mount load_recent next_recent
reopened = refl

strip-recent : strip (8080 ∷ 9000 ∷ []) ≡ 8080 ∷ 9000 ∷ 3000 ∷ 5173 ∷ 8000 ∷ []
unfolding strip
strip-recent = refl

no_cookie :
    src (λ p. codes "8080") (codes "sb1") (codes "/") (open_port (mount none) (port_number 8080))
    ≡ none
unfolding src open_port mount
no_cookie = refl

recent-open_all_example :
    load_recent (open_all (mount none) asked).stored ≡ take 5 (mru (ports asked))
recent-open_all_example = recent-open_all asked
