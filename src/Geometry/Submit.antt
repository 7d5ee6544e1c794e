-- ===== src/Geometry/Submit.antt =====
-- What the form sends passes the server's checks of the geometry.
use embervm.Prelude.{
  String, Bool, true, false, Option, none, some, List, ℤ, pos, is_zero, is_some, str_eq,
  if◌then◌else◌, ◌≡◌, refl, ap, subst, some-injective, arith, Bool-cases, inl, inr,
}
use embervm.Geometry.{TFn, GeometryInput, or_zero, out_of_range, validate_fields, validate_geometry}
use embervm.Geometry.Server.{ElasticDefaults, create_check, is_accepted}
use embervm.Geometry.Mirror.{body_of}
use embervm.Geometry.Exact.{validate_geometry-create_check}
use embervm.Geometry.Dialog.{
  Mode, elastic, fixed, Form, Request, disk_of, validation_error, geometry_of, template_of, submit,
  preset_memory, preset_vcpus, find_preset,
}

-- The modes that send explicit numbers.
abbrev pub IsExplicit : Mode → Bool → Type 0
IsExplicit fixed advanced = Unit
IsExplicit elastic true = Unit
IsExplicit elastic false = ⊥

module _ (t : TFn) (v m x y : ℤ) (a : Bool) where
  disk_in_range : (d : ℤ) → validate_fields t v m d x y a ≡ none → out_of_range d 4096 ≡ false
  unfolding validate_fields
  disk_in_range d h = ground arith

  other_disk :
      (d d' : ℤ)
      → validate_fields t v m d x y a ≡ none
      → out_of_range d' 4096 ≡ false
      → validate_fields t v m d' x y a ≡ none
  unfolding validate_fields
  other_disk d d' h k = ground arith

disk_of_in_range :
    (f : Form)
    → out_of_range f.data_disk_gib 4096 ≡ false
    → out_of_range (or_zero (disk_of f)) 4096 ≡ false
disk_of_in_range f h = ground arith

-- Leaving out the disk's size of 15 does not matter to the console's check.
sent_is_valid :
    (mode : Mode) (advanced : Bool) (f : Form) (t : TFn)
    → IsExplicit mode advanced
    → validation_error mode advanced f t ≡ none
    → validate_geometry (geometry_of mode advanced f) t ≡ none
unfolding validation_error geometry_of
sent_is_valid fixed advanced f t e h =
    let k = disk_in_range t f.vcpus f.memory_mib (pos 0) (pos 0) false f.data_disk_gib h in
    other_disk t f.vcpus f.memory_mib (pos 0) (pos 0) false f.data_disk_gib (or_zero (disk_of f)) h
      (disk_of_in_range f k)
sent_is_valid elastic true f t e h =
    let k =
      disk_in_range t f.vcpus f.memory_mib f.max_vcpus f.max_memory_mib f.autoscale f.data_disk_gib
        h in
    other_disk t f.vcpus f.memory_mib f.max_vcpus f.max_memory_mib f.autoscale f.data_disk_gib
      (or_zero (disk_of f)) h (disk_of_in_range f k)
sent_is_valid elastic false f t e h = absurd e

-- What is sent was validated, and has the geometry of the form.
submit-eq-some :
    (mode : Mode) (advanced : Bool) (f : Form) (t : TFn) (ready : List String) (r : Request)
    → submit mode advanced f t ready ≡ some r
    → (validation_error mode advanced f t ≡ none) × (geometry_of mode advanced f ≡ r.geometry)
unfolding submit
submit-eq-some mode advanced f t ready r h = by_error (validation_error mode advanced f t) h
  where
    by_error :
        (o : Option String)
        → (if is_some o
            then none
            else some (record {
              template_id = template_of f ready;
              egress = f.egress;
              geometry = geometry_of mode advanced f;
            }))
          ≡ some r
        → (o ≡ none) × (geometry_of mode advanced f ≡ r.geometry)
    by_error none e = (refl, ap (λ q. q.geometry) (some-injective _ _ e))
    by_error (some m) e = cc

explicit_base :
    (mode : Mode) (advanced : Bool) (f : Form)
    → IsExplicit mode advanced
    → (or_zero (geometry_of mode advanced f).memory_mib ≡ f.memory_mib)
      × (or_zero (geometry_of mode advanced f).vcpus ≡ f.vcpus)
unfolding geometry_of
explicit_base fixed advanced f e = (refl, refl)
explicit_base elastic true f e = (refl, refl)
explicit_base elastic false f e = absurd e

-- A request that the form sends in a mode with explicit numbers, the base not being 0, is accepted
-- by the server's checks of the geometry, whatever its defaults are.
pub submit_explicit :
    (d : ElasticDefaults) (mode : Mode) (advanced : Bool) (f : Form) (t : TFn) (ready : List String)
    (r : Request)
    → IsExplicit mode advanced
    → is_zero f.memory_mib ≡ false
    → is_zero f.vcpus ≡ false
    → submit mode advanced f t ready ≡ some r
    → is_accepted (create_check d (body_of r.geometry)) ≡ true
submit_explicit d mode advanced f t ready r e m c h =
    let (valid, same) = submit-eq-some mode advanced f t ready r h in
    let base = explicit_base mode advanced f e in
    let g : GeometryInput = geometry_of mode advanced f in
    subst (λ (x : GeometryInput). is_accepted (create_check d (body_of x)) ≡ true) same
      ((validate_geometry-create_check d g t (rw base.0 m) (rw base.1 c)).0
        (sent_is_valid mode advanced f t e valid))

-- The server as it is configured without any environment variable.
abbrev pub no_defaults : ElasticDefaults
no_defaults = record {
  disabled = false;
  base_vcpus = pos 0;
  base_memory_mib = pos 0;
  data_disk_gib = pos 0;
  max_vcpus = pos 0;
  max_memory_mib = pos 0;
}

abbrev simple_input : Option ℤ → Option ℤ → Option ℤ → GeometryInput
simple_input disk cpus memory = record {
  vcpus = none;
  memory_mib = none;
  data_disk_gib = disk;
  max_vcpus = cpus;
  max_memory_mib = memory;
  autoscale = none;
}

-- The three choices of the presets.
preset_cases :
    (P : Option ℤ → Option ℤ → Type 0) (key : String)
    → P none none
    → P (some (pos 1)) (some (pos 1024))
    → P (some (pos 8)) (some (pos 8192))
    → P (preset_vcpus (find_preset key)) (preset_memory (find_preset key))
preset_cases P key a b c = elim (Bool-cases (str_eq "standard" key)) [
  | inl e ↦ rw e a
  | inr e ↦ elim (Bool-cases (str_eq "small" key)) [
    | inl e2 ↦ rw (e, e2) b
    | inr e2 ↦ elim (Bool-cases (str_eq "large" key)) [
      | inl e3 ↦ rw (e, e2, e3) c
      | inr e3 ↦ rw (e, e2, e3) a
    ]
  ]
]

-- The server, as it is configured without any environment variable, on a request of the simple mode.
abbrev Accepts : Option ℤ → Option ℤ → Option ℤ → Type 0
Accepts disk cpus memory =
    is_accepted (create_check no_defaults (body_of (simple_input disk cpus memory))) ≡ true

module _ (disk : Option ℤ) (h : out_of_range (or_zero disk) 4096 ≡ false) where
  standard_accepted : Accepts disk none none
  unfolding create_check
  standard_accepted = ground arith

  small_accepted : Accepts disk (some (pos 1)) (some (pos 1024))
  unfolding create_check
  small_accepted = ground arith

  large_accepted : Accepts disk (some (pos 8)) (some (pos 8192))
  unfolding create_check
  large_accepted = ground arith

-- In the simple mode the server, configured without any environment variable, accepts the geometry
-- of every request whose disk is within its range, whatever preset is chosen, known or not, and
-- whatever the hidden fields hold.
pub submit_simple :
    (f : Form) (t : TFn) (ready : List String) (r : Request)
    → out_of_range f.data_disk_gib 4096 ≡ false
    → submit elastic false f t ready ≡ some r
    → is_accepted (create_check no_defaults (body_of r.geometry)) ≡ true
unfolding geometry_of
submit_simple f t ready r k h =
    let disk = disk_of_in_range f k in
    subst (λ (x : GeometryInput). is_accepted (create_check no_defaults (body_of x)) ≡ true)
      (submit-eq-some elastic false f t ready r h).1
      (preset_cases (Accepts (disk_of f)) f.preset (standard_accepted (disk_of f) disk)
        (small_accepted (disk_of f) disk) (large_accepted (disk_of f) disk))
