-- ===== src/Geometry/Exact.antt =====
-- Where the console's check and the control plane's agree exactly, and where they part.
use embervm.Prelude.{
  ℕ, ◌<◌, ◌≤◌, Bool, true, false, not, ◌&&◌, ◌||◌, none, some, ℤ, pos, is_zero, ◌≡◌, ◌↔◌, refl,
  arith, Bool-cases, inl, inr,
}
use embervm.Geometry.{
  TFn, GeometryInput, or_zero, or_false, out_of_range, positive, validate_fields, validate_geometry,
}
use embervm.Geometry.Mirror.{
  body_of, dim_ok, Fine, Fine-of_none, Checked, geometry_ok-InRange,
  validate_geometry_of_create_check,
}
use embervm.Geometry.Server.{
  Body, ElasticDefaults, bad_request, with_defaults, geometry_ok, ceiling_ok, ceilings_ok,
  base_given, max_given, with_disk, resolve_fixed, resolve_with, resolve_geometry, finish,
  finish_resolved, create_check, is_accepted,
}

-- With an explicit base the console's rule for a ceiling is the server's.
ceiling_of_dim :
    (base max : ℤ) (bound : ℕ)
    → dim_ok base max bound ≡ true
    → is_zero base ≡ false
    → ceiling_ok base max bound ≡ true
unfolding ceiling_ok dim_ok
ceiling_of_dim base max bound h k = ground arith

positive_of_InRange :
    (base : ℤ) (bound : ℕ)
    → out_of_range base bound ≡ false
    → is_zero base ≡ false
    → positive base ≡ true
positive_of_InRange base bound h k = ground arith

not_both_zero :
    (auto : Bool) (memory cpu : ℤ)
    → (auto && true && not (positive cpu || positive memory)) ≡ false
    → (auto && is_zero memory && is_zero cpu) ≡ false
not_both_zero auto memory cpu h = ground arith

and_true : (a : Bool) → (a && true && true) ≡ false → a ≡ false
and_true a h = ground arith

finish_of_Checked : (b : Body) → Checked b → is_accepted (finish b) ≡ true
unfolding finish ceilings_ok
finish_of_Checked b c = rw (c.memory, c.cpu, c.scaling)

-- With both bases given, whatever the other fields are.
module _ (d : ElasticDefaults) (b : Body) (f : Fine b) (m : is_zero b.memory_mib ≡ false)
    (c : is_zero b.vcpus ≡ false) where
  base_given-true : base_given b ≡ true
  base_given-true =
      let p = positive_of_InRange b.vcpus 64 (geometry_ok-InRange b f.ranges).cpu c in rw p refl

  Fine-Checked : (disk : ℤ) → Checked (record b { data_disk_gib = disk })
  Fine-Checked disk = record {
    memory = ceiling_of_dim b.memory_mib b.max_memory_mib 1048576 f.memory m;
    cpu = ceiling_of_dim b.vcpus b.max_vcpus 64 f.cpu c;
    scaling =
        not_both_zero (or_false b.autoscale) b.max_memory_mib b.max_vcpus
          (rw base_given-true at f.scaling);
  }

  resolve_fixed_same : with_disk d (resolve_fixed d b) ≡ with_disk d b
  resolve_fixed_same = rw (m, c)

  Fine-resolve_with : is_accepted (finish_resolved (resolve_with d b)) ≡ true
  unfolding resolve_with
  Fine-resolve_with = elim (Bool-cases d.disabled) [
    | inl e ↦ rw e (finish_of_Checked b (Fine-Checked b.data_disk_gib))
    | inr e ↦ elim (Bool-cases (max_given b)) [
      | inl q ↦ rw (e, base_given-true, q) (finish_of_Checked (with_disk d b) (Fine-Checked _))
      | inr q ↦
          rw (e, base_given-true, q, auto_off q, resolve_fixed_same)
            (finish_of_Checked (with_disk d b) (Fine-Checked _))
    ]
  ]
    where
      auto_off : max_given b ≡ false → or_false b.autoscale ≡ false
      auto_off q = and_true (or_false b.autoscale) (rw (base_given-true, q) at f.scaling)

-- The console's check mirrors the server's exactly where both bases are given, as the form's
-- explicit modes do: it refuses nothing exactly when the server accepts the geometry.
pub validate_geometry-create_check :
    (d : ElasticDefaults) (g : GeometryInput) (t : TFn)
    → is_zero (or_zero g.memory_mib) ≡ false
    → is_zero (or_zero g.vcpus) ≡ false
    → (validate_geometry g t ≡ none) ↔ (is_accepted (create_check d (body_of g)) ≡ true)
unfolding validate_geometry create_check resolve_geometry
validate_geometry-create_check d g t m c = (
  (λ e.
      let f = Fine-of_none t (body_of g) e in
      rw f.ranges (Fine-resolve_with (with_defaults d) (body_of g) f m c)),
  validate_geometry_of_create_check d g t,
)

abbrev pub half_base : ℕ → ℕ → GeometryInput
half_base cpus ceiling = record {
  vcpus = some (pos cpus);
  memory_mib = none;
  data_disk_gib = none;
  max_vcpus = none;
  max_memory_mib = some (pos ceiling);
  autoscale = none;
}

-- A ceiling for memory beside a base for vCPUs alone, both within their bounds: the console refuses
-- nothing, and the server refuses the request, whatever its defaults are.
pub create_check_of_half_base :
    (d : ElasticDefaults) (t : TFn) (cpus ceiling : ℕ)
    → 0 < cpus
    → cpus ≤ 64
    → 0 < ceiling
    → ceiling ≤ 1048576
    → (validate_geometry (half_base cpus ceiling) t ≡ none)
      × (create_check d (body_of (half_base cpus ceiling)) ≡ bad_request)
unfolding validate_geometry create_check resolve_geometry resolve_with finish ceilings_ok ceiling_ok
    validate_fields geometry_ok
create_check_of_half_base d t cpus ceiling a b c e = (ground arith, ground arith)
