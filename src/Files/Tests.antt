-- ===== src/Files/Tests.antt =====
-- Guest paths and editor guards on concrete inputs.
use embervm.Prelude.{Text, codes, ◌≡◌, refl, text_eq, last_index_of, before_last, arith}
use embervm.Files.{split, visit, visit_all, normalize_path, join_path, parent_path, base_name}
use embervm.Files.Normal.{IsPlain}
use embervm.Files.Compose.{join_path-parent_path, parent_path-join_path}

abbrev messy : Text
messy = codes "/a/.././/etc/b/../hosts/"

normalize_path-messy : normalize_path messy ≡ codes "/etc/hosts"
unfolding normalize_path visit_all visit split text_eq
normalize_path-messy = refl

parent_path-messy : parent_path messy ≡ codes "/etc"
unfolding parent_path normalize_path before_last last_index_of visit_all visit split text_eq
parent_path-messy = refl

escape : join_path (codes "/srv/") (codes "../../x") ≡ codes "/x"
unfolding join_path visit_all visit split text_eq
escape = refl

join_path-parent_path_example :
    join_path (parent_path messy) (base_name messy) ≡ normalize_path messy
join_path-parent_path_example = join_path-parent_path messy

hosts-IsPlain : IsPlain (codes "hosts")
hosts-IsPlain = record {
  not_empty = λ e. cc;
  not_dot = λ e. ground arith;
  not_dots = λ e. ground arith;
  no_slash = omega arith;
}

parent_path-join_path_example :
    (parent_path (join_path (codes "/etc/.") (codes "hosts")) ≡ normalize_path (codes "/etc/."))
    × (base_name (join_path (codes "/etc/.") (codes "hosts")) ≡ codes "hosts")
parent_path-join_path_example = parent_path-join_path (codes "/etc/.") (codes "hosts") hosts-IsPlain
