-- ===== src/Geometry/Tests.antt =====
-- Geometry on concrete inputs.
use embervm.Prelude.{true, false, none, some, [], ◌∷◌, pos, ◌≡◌, ◌↔◌, refl}
use embervm.Geometry.{TFn, GeometryInput, slot_rounding_hint, validate_geometry}
use embervm.Geometry.Server.{
  create_check, is_accepted, geometry_ok, resolve_geometry, resolve_with, with_defaults, finish,
  ceilings_ok, ceiling_ok, stored_ceiling, round_up,
}
use embervm.Geometry.Mirror.{body_of, validate_geometry_of_create_check}
use embervm.Geometry.Exact.{validate_geometry-create_check}
use embervm.Geometry.Dialog.{Form, initial_form, Request, elastic, fixed, submit, geometry_of}
use embervm.Geometry.Reported.{says_elastic, says_elastic-create_check}
use embervm.Geometry.Submit.{no_defaults, submit_explicit}

abbrev english : TFn
english en zh = en

hint_shown : slot_rounding_hint 256 1000 ≡ some 1024
unfolding slot_rounding_hint
hint_shown = refl

abbrev explicit : GeometryInput
explicit = record {
  vcpus = some (pos 2);
  memory_mib = some (pos 512);
  data_disk_gib = none;
  max_vcpus = some (pos 4);
  max_memory_mib = some (pos 2048);
  autoscale = some true;
}

explicit_accepted : is_accepted (create_check no_defaults (body_of explicit)) ≡ true
unfolding create_check
explicit_accepted = refl

validate_geometry_of_create_check_example : validate_geometry explicit english ≡ none
validate_geometry_of_create_check_example =
    validate_geometry_of_create_check no_defaults explicit english explicit_accepted

validate_geometry-create_check_example :
    (validate_geometry explicit english ≡ none)
    ↔ (is_accepted (create_check no_defaults (body_of explicit)) ≡ true)
validate_geometry-create_check_example =
    validate_geometry-create_check no_defaults explicit english refl refl

abbrev sent_fixed : Request
sent_fixed = record {
  template_id = "tpl";
  egress = initial_form.egress;
  geometry = geometry_of fixed false initial_form;
}

sent_fixed_lem : submit fixed false initial_form english ("tpl" ∷ []) ≡ some sent_fixed
unfolding submit
sent_fixed_lem = refl

submit_explicit_example :
    is_accepted (create_check no_defaults (body_of (geometry_of fixed false initial_form))) ≡ true
submit_explicit_example =
    submit_explicit no_defaults fixed false initial_form english ("tpl" ∷ []) sent_fixed tt refl
      refl sent_fixed_lem

abbrev small_form : Form
small_form = record initial_form { preset = "small" }

abbrev sent_small : Request
sent_small = record {
  template_id = "tpl";
  egress = initial_form.egress;
  geometry = geometry_of elastic false small_form;
}

sent_small_lem : submit elastic false small_form english ("tpl" ∷ []) ≡ some sent_small
unfolding submit
sent_small_lem = refl

abbrev large_form : Form
large_form = record initial_form { preset = "large" }

says_elastic-create_check_example :
    says_elastic (create_check no_defaults (body_of (geometry_of elastic false large_form)))
    ≡ is_accepted (create_check no_defaults (body_of (geometry_of elastic false large_form)))
says_elastic-create_check_example =
    says_elastic-create_check no_defaults elastic large_form refl refl

large_accepted :
    is_accepted (create_check no_defaults (body_of (geometry_of elastic false large_form))) ≡ true
unfolding create_check geometry_ok resolve_geometry resolve_with with_defaults finish ceilings_ok
    ceiling_ok stored_ceiling geometry_of round_up
large_accepted = refl
