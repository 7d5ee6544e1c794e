-- ===== src/Geometry/Dialog.antt =====
-- The form of web/src/components/createSandbox.tsx: what it validates and what it sends.
use embervm.Prelude.{
  ℕ, String, Bool, true, false, Option, none, some, List, [], ◌∷◌, ℤ, pos, negsuc, is_some, find,
  str_eq, if◌then◌else◌, ◌==◌,
}
use embervm.Geometry.{TFn, GeometryInput, validate_geometry}

pub record ElasticPreset : Type 0 where
  pub key : String
  pub label : String
  pub zh : String
  pub max_memory_mib : Option ℕ
  pub max_vcpus : Option ℕ

abbrev pub standard : ElasticPreset
standard = record {
  key = "standard";
  label = "Standard";
  zh = "标准";
  max_memory_mib = none;
  max_vcpus = none;
}

abbrev pub small : ElasticPreset
small = record {
  key = "small";
  label = "Small";
  zh = "小型";
  max_memory_mib = some 1024;
  max_vcpus = some 1;
}

abbrev pub large : ElasticPreset
large = record {
  key = "large";
  label = "Large";
  zh = "大型";
  max_memory_mib = some 8192;
  max_vcpus = some 8;
}

abbrev pub elastic_presets : List ElasticPreset
elastic_presets = standard ∷ small ∷ large ∷ []

pub data Mode : Type 0 where
  elastic fixed : Mode

pub data Egress : Type 0 where
  nat no_egress : Egress

pub record Form : Type 0 where
  pub template_id : String
  pub preset : String
  pub vcpus : ℤ
  pub memory_mib : ℤ
  pub data_disk_gib : ℤ
  pub max_memory_mib : ℤ
  pub max_vcpus : ℤ
  pub autoscale : Bool
  pub egress : Egress

-- The form when the dialog opens, with `DEFAULT_BASE` and `DEFAULT_CEILING`.
abbrev pub initial_form : Form
initial_form = record {
  template_id = "";
  preset = "standard";
  vcpus = pos 1;
  memory_mib = pos 256;
  data_disk_gib = pos 15;
  max_memory_mib = pos 4096;
  max_vcpus = pos 4;
  autoscale = true;
  egress = nat;
}

-- The argument of `validateGeometry`, in the modes that call it.
abbrev pub fixed_input : Form → GeometryInput
fixed_input f = record {
  vcpus = some f.vcpus;
  memory_mib = some f.memory_mib;
  data_disk_gib = some f.data_disk_gib;
  max_vcpus = none;
  max_memory_mib = none;
  autoscale = none;
}

abbrev pub advanced_input : Form → GeometryInput
advanced_input f = record {
  vcpus = some f.vcpus;
  memory_mib = some f.memory_mib;
  data_disk_gib = some f.data_disk_gib;
  max_vcpus = some f.max_vcpus;
  max_memory_mib = some f.max_memory_mib;
  autoscale = some f.autoscale;
}

-- `validationError`, for the mode and whether the advanced fields are shown.
unfoldable pub validation_error : Mode → Bool → Form → TFn → Option String
unfolding validate_geometry
validation_error fixed advanced f t = validate_geometry (fixed_input f) t
validation_error elastic true f t = validate_geometry (advanced_input f) t
validation_error elastic false f t = none

-- `CreateSandboxRequest`
pub record Request : Type 0 where
  pub template_id : String
  pub egress : Egress
  pub geometry : GeometryInput

-- `if (form.data_disk_gib !== 15) body.data_disk_gib = …`
abbrev pub disk_of : Form → Option ℤ
disk_of f = elim f.data_disk_gib [
  | pos n ↦ if n == 15 then none else some (pos n)
  | negsuc n ↦ some (negsuc n)
]

-- A field of the preset that is found, if it is not 0.
abbrev pub truthy : Option ℕ → Option ℤ
truthy none = none
truthy (some n) = if n == 0 then none else some (pos n)

abbrev pub preset_memory : Option ElasticPreset → Option ℤ
preset_memory none = none
preset_memory (some p) = truthy p.max_memory_mib

abbrev pub preset_vcpus : Option ElasticPreset → Option ℤ
preset_vcpus none = none
preset_vcpus (some p) = truthy p.max_vcpus

abbrev pub find_preset : String → Option ElasticPreset
find_preset key = find (λ p. str_eq p.key key) elastic_presets

unfoldable pub geometry_of : Mode → Bool → Form → GeometryInput
geometry_of fixed advanced f = record (fixed_input f) { data_disk_gib = disk_of f }
geometry_of elastic true f = record (advanced_input f) { data_disk_gib = disk_of f }
geometry_of elastic false f = record {
  vcpus = none;
  memory_mib = none;
  data_disk_gib = disk_of f;
  max_vcpus = preset_vcpus (find_preset f.preset);
  max_memory_mib = preset_memory (find_preset f.preset);
  autoscale = none;
}

-- `form.template_id || ready[0]?.id || ""`, for the ids of the READY templates.
unfoldable pub template_of : Form → List String → String
template_of f ready =
    if str_eq f.template_id "" then elim ready [ [] ↦ "" | id ∷ _ ↦ id ] else f.template_id

-- `submit`: the request that is sent, if one is. The texts of `validateGeometry` are not empty, so
-- every error stops it.
unfoldable pub submit : Mode → Bool → Form → TFn → List String → Option Request
unfolding validation_error geometry_of template_of
submit mode advanced f t ready =
    if is_some (validation_error mode advanced f t)
    then none
    else some (record {
      template_id = template_of f ready;
      egress = f.egress;
      geometry = geometry_of mode advanced f;
    })
