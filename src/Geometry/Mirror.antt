-- ===== src/Geometry/Mirror.antt =====
-- The console's check against the control plane's.
use embervm.Prelude.{
  ℕ, Bool, true, false, not, ◌&&◌, ◌||◌, none, ℤ, pos, ltb_ℤ, is_zero, if◌then◌else◌, ◌≡◌, refl,
  arith, Bool-cases, inl, inr,
}
use embervm.Geometry.{
  TFn, GeometryInput, or_zero, or_false, out_of_range, non_zero, positive, validate_fields,
  validate_geometry,
}
use embervm.Geometry.Server.{
  Body, ElasticDefaults, with_defaults, geometry_ok, ceiling_ok, ceilings_ok, base_given, max_given,
  with_disk, resolve_simple, resolve_fixed, resolve_with, resolve_geometry, finish, finish_resolved,
  create_check, is_accepted,
}

-- The body that a form with these fields sends: JSON leaves out what is undefined.
abbrev pub body_of : GeometryInput → Body
body_of g = record {
  vcpus = or_zero g.vcpus;
  memory_mib = or_zero g.memory_mib;
  data_disk_gib = or_zero g.data_disk_gib;
  max_vcpus = or_zero g.max_vcpus;
  max_memory_mib = or_zero g.max_memory_mib;
  autoscale = g.autoscale;
}

-- What the console asks of a base and its ceiling.
unfoldable pub dim_ok : ℤ → ℤ → ℕ → Bool
dim_ok base max bound =
    not (non_zero max && non_zero base && ltb_ℤ max base)
    && not (non_zero max && ltb_ℤ (pos bound) max)

-- No rule refuses: in range, both ceilings right, and a ceiling where autoscale needs one.
pub record Fine (b : Body) : Type 0 where
  pub ranges : geometry_ok b ≡ true
  pub memory : dim_ok b.memory_mib b.max_memory_mib 1048576 ≡ true
  pub cpu : dim_ok b.vcpus b.max_vcpus 64 ≡ true
  pub scaling : (or_false b.autoscale && base_given b && not (max_given b)) ≡ false

pub none_of_Fine :
    (t : TFn) (b : Body)
    → Fine b
    → validate_fields t b.vcpus b.memory_mib b.data_disk_gib b.max_vcpus b.max_memory_mib
        (or_false b.autoscale)
      ≡ none
unfolding validate_fields geometry_ok dim_ok
none_of_Fine t b f = ground arith

pub Fine-of_none :
    (t : TFn) (b : Body)
    → validate_fields t b.vcpus b.memory_mib b.data_disk_gib b.max_vcpus b.max_memory_mib
        (or_false b.autoscale)
      ≡ none
    → Fine b
unfolding validate_fields geometry_ok dim_ok
Fine-of_none t b h = ground arith

module _ (base max : ℤ) (bound : ℕ) where
  dim_of_ceiling :
      ceiling_ok base max bound ≡ true
      → out_of_range base bound ≡ false
      → dim_ok base max bound ≡ true
  unfolding ceiling_ok dim_ok
  dim_of_ceiling h k = ground arith

  -- An empty base is not compared with the ceiling.
  dim_of_simple :
      (given : Bool) (d e : ℤ)
      → ceiling_ok d (if given then max else e) bound ≡ true
      → (given ≡ false → positive max ≡ false)
      → positive base ≡ false
      → out_of_range base bound ≡ false
      → dim_ok base max bound ≡ true
  unfolding ceiling_ok dim_ok
  dim_of_simple true d e h n p k = ground arith
  dim_of_simple false d e h n p k = ground (arith, n refl)

  dim_of_fixed :
      (d : ℤ)
      → ceiling_ok (if is_zero base then d else base) max bound ≡ true
      → positive max ≡ false
      → out_of_range base bound ≡ false
      → dim_ok base max bound ≡ true
  unfolding ceiling_ok dim_ok
  dim_of_fixed d h p k = ground arith

  dim_of_nonpos :
      positive max ≡ false
      → ceiling_ok base max bound ≡ true
      → out_of_range base bound ≡ false
      → (max ≡ pos 0) × (dim_ok base max bound ≡ true)
  unfolding ceiling_ok dim_ok
  dim_of_nonpos p h k = ground arith

-- What `finish` has checked when it accepts.
pub record Checked (b : Body) : Type 0 where
  pub memory : ceiling_ok b.memory_mib b.max_memory_mib 1048576 ≡ true
  pub cpu : ceiling_ok b.vcpus b.max_vcpus 64 ≡ true
  pub scaling : (or_false b.autoscale && is_zero b.max_memory_mib && is_zero b.max_vcpus) ≡ false

finish-Checked : (b : Body) → is_accepted (finish b) ≡ true → Checked b
unfolding finish ceilings_ok
finish-Checked b h = ground arith

pub record InRange (b : Body) : Type 0 where
  pub memory : out_of_range b.memory_mib 1048576 ≡ false
  pub cpu : out_of_range b.vcpus 64 ≡ false

pub geometry_ok-InRange : (b : Body) → geometry_ok b ≡ true → InRange b
unfolding geometry_ok
geometry_ok-InRange b h = ground arith

or-eq-false : (p q : Bool) → (p || q) ≡ false → (p ≡ false) × (q ≡ false)
or-eq-false p q h = ground arith

-- The four ways through the decision table, over defaults `d` that are filled in.
module _ (d : ElasticDefaults) (b : Body) (g : geometry_ok b ≡ true) where
  given-Fine : base_given b ≡ true → max_given b ≡ true → Checked b → Fine b
  given-Fine p q c =
      let r = geometry_ok-InRange b g in
      record {
        ranges = g;
        memory = dim_of_ceiling b.memory_mib b.max_memory_mib 1048576 c.memory r.memory;
        cpu = dim_of_ceiling b.vcpus b.max_vcpus 64 c.cpu r.cpu;
        scaling = rw (p, q) (ground arith);
      }

  disabled-Fine : Checked b → Fine b
  disabled-Fine c =
      let r = geometry_ok-InRange b g in
      let (memory, cpu) : (dim_ok b.memory_mib b.max_memory_mib 1048576 ≡ true)
          × (dim_ok b.vcpus b.max_vcpus 64 ≡ true) =
        (
          dim_of_ceiling b.memory_mib b.max_memory_mib 1048576 c.memory r.memory,
          dim_of_ceiling b.vcpus b.max_vcpus 64 c.cpu r.cpu,
        ) in
      record {
        ranges = g;
        memory = memory;
        cpu = cpu;
        scaling = ground (
          arith,
          dim_of_nonpos b.memory_mib b.max_memory_mib 1048576,
          dim_of_nonpos b.vcpus b.max_vcpus 64,
          c.memory,
          c.cpu,
          r.memory,
          r.cpu,
          c.scaling,
        );
      }

  simple-Fine : base_given b ≡ false → Checked (with_disk d (resolve_simple d b)) → Fine b
  simple-Fine p c =
      let r = geometry_ok-InRange b g in
      record {
        ranges = g;
        memory =
            dim_of_simple b.memory_mib b.max_memory_mib 1048576 (max_given b) _ _ c.memory
              (λ e. (or-eq-false _ _ e).1) (or-eq-false _ _ p).1 r.memory;
        cpu =
            dim_of_simple b.vcpus b.max_vcpus 64 (max_given b) _ _ c.cpu
              (λ e. (or-eq-false _ _ e).0) (or-eq-false _ _ p).0 r.cpu;
        scaling = rw p (ground arith);
      }

  fixed-Fine :
      base_given b ≡ true
      → max_given b ≡ false
      → or_false b.autoscale ≡ false
      → Checked (with_disk d (resolve_fixed d b))
      → Fine b
  fixed-Fine p q a c =
      let r = geometry_ok-InRange b g in
      record {
        ranges = g;
        memory =
            dim_of_fixed b.memory_mib b.max_memory_mib 1048576 _ c.memory (or-eq-false _ _ q).1
              r.memory;
        cpu = dim_of_fixed b.vcpus b.max_vcpus 64 _ c.cpu (or-eq-false _ _ q).0 r.cpu;
        scaling = rw a refl;
      }

  keep_disk : Checked (with_disk d b) → Checked b
  keep_disk c = record { memory = c.memory; cpu = c.cpu; scaling = c.scaling }

  resolve_with-Fine : is_accepted (finish_resolved (resolve_with d b)) ≡ true → Fine b
  unfolding resolve_with
  resolve_with-Fine h = elim (Bool-cases d.disabled) [
    | inl e ↦ disabled-Fine (finish-Checked b (rw e at h))
    | inr e ↦ elim (Bool-cases (base_given b)) [
      | inr p ↦ simple-Fine p (finish-Checked (with_disk d (resolve_simple d b)) (rw (e, p) at h))
      | inl p ↦ elim (Bool-cases (max_given b)) [
        | inl q ↦ given-Fine p q (keep_disk (finish-Checked (with_disk d b) (rw (e, p, q) at h)))
        | inr q ↦ elim (Bool-cases (or_false b.autoscale)) [
          | inl a ↦ cc (rw (e, p, q, a) at h)
          | inr a ↦
              fixed-Fine p q a
                (finish-Checked (with_disk d (resolve_fixed d b)) (rw (e, p, q, a) at h))
        ]
      ]
    ]
  ]

-- Whatever the platform's defaults are, and whether or not elastic defaults are enabled: a request
-- whose geometry the server accepts is not refused by the console's form.
pub validate_geometry_of_create_check :
    (d : ElasticDefaults) (g : GeometryInput) (t : TFn)
    → is_accepted (create_check d (body_of g)) ≡ true
    → validate_geometry g t ≡ none
unfolding validate_geometry create_check resolve_geometry
validate_geometry_of_create_check d g t h =
    none_of_Fine t (body_of g) (elim (Bool-cases (geometry_ok (body_of g))) [
      | inl e ↦ resolve_with-Fine (with_defaults d) (body_of g) e (rw e at h)
      | inr e ↦ absurd (cc (rw e at h))
    ])
