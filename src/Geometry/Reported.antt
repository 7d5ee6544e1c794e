-- ===== src/Geometry/Reported.antt =====
-- What the dialog reports of a new sandbox against the mode that was chosen, for what the checks of
-- pkg/controlplane/server.go and the defaults of defaults.go make of the request.
use embervm.Prelude.{
  Bool, true, false, not, ◌&&◌, ◌||◌, Option, none, some, ℤ, pos, is_zero, ltb_ℤ, str_eq,
  if◌then◌else◌, ◌≡◌, refl, arith,
}
use embervm.Geometry.{positive, or_false, or_zero}
use embervm.Geometry.Dialog.{
  Mode, elastic, fixed, Form, geometry_of, preset_memory, preset_vcpus, ElasticPreset, standard,
  small, large,
}
use embervm.Geometry.Mirror.{body_of}
use embervm.Geometry.Server.{
  Body, Outcome, accepted, bad_request, ElasticDefaults, create_check, is_accepted, finish,
  finish_resolved, resolve_with, with_defaults, resolve_geometry, resolve_simple, resolve_fixed,
  base_given, max_given, with_disk, stored_ceiling, geometry_ok, round_up,
}
use embervm.Geometry.Created.{Created, up_to, fixed_at, on_created}

abbrev pub is_elastic : Created → Bool
is_elastic (up_to m n a) = true
is_elastic (fixed_at m c) = false

abbrev pub says_elastic : Outcome → Bool
says_elastic (accepted b) = is_elastic (on_created b)
says_elastic bad_request = false

positive-stored_ceiling :
    (base max : ℤ) → positive max ≡ true → positive (stored_ceiling base max) ≡ true
unfolding stored_ceiling round_up
positive-stored_ceiling base max h = ground (arith, h)

is_elastic-on_created :
    (b : Body) → positive b.max_memory_mib ≡ true → is_elastic (on_created b) ≡ true
unfolding on_created
is_elastic-on_created b h = ground (arith, h)

accepted_only :
    (c d e : Bool) (x : Body)
    → is_elastic (on_created x) ≡ e
    → says_elastic (if c then bad_request else if d then bad_request else accepted x)
      ≡ (e && is_accepted (if c then bad_request else if d then bad_request else accepted x))
accepted_only true d true x h = refl
accepted_only true d false x h = refl
accepted_only false true true x h = refl
accepted_only false true false x h = refl
accepted_only false false true x h = h
accepted_only false false false x h = h

says_elastic-finish :
    (b : Body) → positive b.max_memory_mib ≡ true → says_elastic (finish b) ≡ is_accepted (finish b)
unfolding finish
says_elastic-finish b h = accepted_only _ _ true _ (
    is_elastic-on_created
      (record b { max_memory_mib = stored_ceiling b.memory_mib b.max_memory_mib })
      (positive-stored_ceiling b.memory_mib b.max_memory_mib h))

stored_ceiling_none :
    (base max : ℤ)
    → ltb_ℤ base (pos 0) ≡ false
    → positive max ≡ false
    → positive (stored_ceiling base max) ≡ false
unfolding stored_ceiling
stored_ceiling_none base max h k = ground (arith, h, k)

is_elastic-on_created_fixed :
    (b : Body)
    → positive b.max_memory_mib ≡ false
    → positive b.max_vcpus ≡ false
    → is_elastic (on_created b) ≡ false
unfolding on_created
is_elastic-on_created_fixed b h k = rw (h, k) refl

says_elastic-finish_fixed :
    (b : Body)
    → ltb_ℤ b.memory_mib (pos 0) ≡ false
    → positive b.max_memory_mib ≡ false
    → positive b.max_vcpus ≡ false
    → says_elastic (finish b) ≡ false
unfolding finish
says_elastic-finish_fixed b n h k = accepted_only _ _ false _ (
    is_elastic-on_created_fixed
      (record b { max_memory_mib = stored_ceiling b.memory_mib b.max_memory_mib })
      (stored_ceiling_none b.memory_mib b.max_memory_mib n h) k)

-- The ceiling of a preset, or the default one where it gives none.
abbrev ceiling_of : Option ElasticPreset → ℤ → ℤ
ceiling_of p x =
    if positive (or_zero (preset_vcpus p)) || positive (or_zero (preset_memory p))
    then or_zero (preset_memory p)
    else x

positive-ceiling_of :
    (a b c : Bool) (x : ℤ)
    → positive x ≡ true
    → positive (
        ceiling_of
          (if a then some standard else if b then some small else if c then some large else none)
          x)
      ≡ true
positive-ceiling_of true b c x h = h
positive-ceiling_of false true c x h = refl
positive-ceiling_of false false true x h = refl
positive-ceiling_of false false false x h = h

default_ceiling : (d : ElasticDefaults) → positive (with_defaults d).max_memory_mib ≡ true
unfolding with_defaults
default_ceiling d = ground arith

simple_ceiling :
    (d : ElasticDefaults) (f : Form)
    → positive
        (resolve_simple (with_defaults d) (body_of (geometry_of elastic false f))).max_memory_mib
      ≡ true
unfolding geometry_of
simple_ceiling d f =
    positive-ceiling_of (str_eq "standard" f.preset) (str_eq "small" f.preset)
      (str_eq "large" f.preset) _ (default_ceiling d)

second :
    {A : Type 0} (b c : Bool) (x y z : A)
    → b ≡ false
    → c ≡ false
    → (if b then x else if not c then y else z) ≡ y
second b c x y z h k = rw (h, k) refl

resolve_geometry_simple :
    (d : ElasticDefaults) (b : Body)
    → d.disabled ≡ false
    → base_given b ≡ false
    → resolve_geometry b d ≡ some (with_disk (with_defaults d) (resolve_simple (with_defaults d) b))
unfolding resolve_geometry resolve_with with_defaults
resolve_geometry_simple d b h k = second d.disabled (base_given b) _ _ _ h k

checked :
    (e c : Bool) (o : Option Body) (r : Body)
    → o ≡ some r
    → says_elastic (finish r) ≡ (e && is_accepted (finish r))
    → says_elastic (if c then bad_request else finish_resolved o)
      ≡ (e && is_accepted (if c then bad_request else finish_resolved o))
checked true true o r h k = refl
checked false true o r h k = refl
checked e false o r h k = rw h k

says_elastic-create_check_simple :
    (d : ElasticDefaults) (f : Form)
    → d.disabled ≡ false
    → let o = create_check d (body_of (geometry_of elastic false f)) in
      says_elastic o ≡ is_accepted o
unfolding create_check geometry_of
says_elastic-create_check_simple d f h =
    let b : Body = body_of (geometry_of elastic false f) in
    let r : Body = with_disk (with_defaults d) (resolve_simple (with_defaults d) b) in
    checked true (not (geometry_ok b)) (resolve_geometry b d) r (resolve_geometry_simple d b h refl)
      (says_elastic-finish r (simple_ceiling d f))

fixed_end :
    (disabled base ceiling scaled : Bool) (p q r u : Option Body)
    → base ≡ true
    → ceiling ≡ false
    → scaled ≡ false
    → says_elastic (finish_resolved p) ≡ false
    → says_elastic (finish_resolved r) ≡ false
    → says_elastic (
        finish_resolved (
          if disabled
          then p
          else if not base
          then q
          else if not ceiling
          then (if scaled then none else r)
          else u))
      ≡ false
fixed_end true base ceiling scaled p q r u e f g h k = h
fixed_end false base ceiling scaled p q r u e f g h k = rw (e, f, g) k

base_or_default : (n x : ℤ) → positive n ≡ true → ltb_ℤ (if is_zero n then x else n) (pos 0) ≡ false
base_or_default n x h = ground (arith, h)

-- A base of some memory and no ceilings.
module _ (d : ElasticDefaults) (b : Body) (m : positive b.memory_mib ≡ true)
    (h : positive b.max_memory_mib ≡ false) (k : positive b.max_vcpus ≡ false)
    (a : or_false b.autoscale ≡ false) where
  says_elastic_fixed : says_elastic (finish_resolved (resolve_geometry b d)) ≡ false
  unfolding resolve_geometry resolve_with
  says_elastic_fixed =
      fixed_end (with_defaults d).disabled (base_given b) (max_given b) (or_false b.autoscale)
        (some b) _ (some (with_disk (with_defaults d) (resolve_fixed (with_defaults d) b))) _
        (ground (arith, m)) (rw (h, k) refl) a (says_elastic-finish_fixed b (ground (arith, m)) h k)
        (says_elastic-finish_fixed (with_disk (with_defaults d) (resolve_fixed (with_defaults d) b))
          (base_or_default b.memory_mib _ m) h k)

says_elastic-create_check_fixed :
    (d : ElasticDefaults) (f : Form)
    → positive f.memory_mib ≡ true
    → says_elastic (create_check d (body_of (geometry_of fixed false f))) ≡ false
unfolding create_check geometry_of
says_elastic-create_check_fixed d f h =
    refused_or (not (geometry_ok (body_of (geometry_of fixed false f))))
      (resolve_geometry (body_of (geometry_of fixed false f)) d)
      (says_elastic_fixed d (body_of (geometry_of fixed false f)) h refl refl refl)
  where
    refused_or :
        (c : Bool) (o : Option Body)
        → says_elastic (finish_resolved o) ≡ false
        → says_elastic (if c then bad_request else finish_resolved o) ≡ false
    refused_or true o h = refl
    refused_or false o h = h

abbrev pub is_elastic_mode : Mode → Bool
is_elastic_mode elastic = true
is_elastic_mode fixed = false

-- Without the advanced fields, and with some memory in the fixed mode: where the server accepts what the
-- dialog sends and its elastic defaults are on, the toast calls the sandbox elastic exactly if that mode
-- was chosen, with whatever preset, disk and defaults.
pub says_elastic-create_check :
    (d : ElasticDefaults) (mode : Mode) (f : Form)
    → d.disabled ≡ false
    → positive f.memory_mib ≡ true
    → let o = create_check d (body_of (geometry_of mode false f)) in
      says_elastic o ≡ (is_elastic_mode mode && is_accepted o)
says_elastic-create_check d elastic f h k = says_elastic-create_check_simple d f h
says_elastic-create_check d fixed f h k = says_elastic-create_check_fixed d f k
