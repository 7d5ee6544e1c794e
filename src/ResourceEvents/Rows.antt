-- ===== src/ResourceEvents/Rows.antt =====
-- What the rows of resource events show.
use embervm.Prelude.{
  ℕ, String, true, false, ◌||◌, Option, none, some, List, str_eq, str_eq_iff, ◌≡◌, ◌↔◌, ◌≢◌, ◌⊎◌,
  refl, ap, arith, some-injective, subst, Bool-cases, inl, inr,
}
use embervm.ResourceEvents.{
  ResourceEventDetail, ResourceEventView, grow, migrate, config, warn, is_resource_kind, parse_kind,
  parse_resource_event, pair_grew, describe_resize, describe_resource_event, or_nothing,
}

module _ (fmt_mib fmt_vcpus : ℕ → List String) (t : String → String → String) where
  abbrev view : ResourceEventDetail → ResourceEventView
  view d = describe_resource_event fmt_mib fmt_vcpus t d

  abbrev pub IsRow : ResourceEventDetail → Type 0
  IsRow d =
      ((view d).tone ≡ warn ↔ ((d.kind ≡ some "resize") × (d.reason ≡ some "deferred")))
      × ((view d).icon ≡ grow ↔ (
          (d.kind ≡ some "resize")
          × (str_eq (or_nothing d.reason) "deferred" ≡ false)
          × ((pair_grew d.memory_mib || pair_grew d.vcpus) ≡ true)))
      × ((view d).icon ≡ migrate ↔ (d.kind ≡ some "migrate"))
      × ((view d).icon ≡ config ↔ (d.kind ≡ some "autoscale_config"))

  parse_kind-cases :
      (kind : Option String)
      → parse_kind kind ≡ true
      → (kind ≡ some "resize") ⊎ (kind ≡ some "migrate") ⊎ (kind ≡ some "autoscale_config")
  unfolding parse_kind is_resource_kind
  parse_kind-cases none h = absurd (cc h)
  parse_kind-cases (some k) h =
      ground (arith, str_eq_iff k "resize", str_eq_iff k "migrate", str_eq_iff k "autoscale_config")

  or_nothing-deferred :
      (reason : Option String)
      → (str_eq (or_nothing reason) "deferred" ≡ true) ↔ (reason ≡ some "deferred")
  or_nothing-deferred none = ground arith
  or_nothing-deferred (some r) = ground (arith, str_eq_iff r "deferred")

  some-distinct : (a b : String) → str_eq a b ≡ false → some a ≢ some b
  some-distinct a b f e = cc (f, (str_eq_iff a b).1 (some-injective _ _ e))

  is_row : (d : ResourceEventDetail) → parse_kind d.kind ≡ true → IsRow d
  unfolding describe_resource_event describe_resize parse_kind is_resource_kind
  is_row d h =
      let rm = some-distinct "resize" "migrate" refl in
      let ra = some-distinct "resize" "autoscale_config" refl in
      let mr = some-distinct "migrate" "resize" refl in
      let ma = some-distinct "migrate" "autoscale_config" refl in
      let ar = some-distinct "autoscale_config" "resize" refl in
      let am = some-distinct "autoscale_config" "migrate" refl in
      elim (parse_kind-cases d.kind h) [
        | inl e ↦
            let r = or_nothing-deferred d.reason in
            elim (Bool-cases (str_eq (or_nothing d.reason) "deferred")) [
              | inl q ↦ let why = r.0 q in rw (e, q) (ground arith)
              | inr q ↦
                  let why : d.reason ≢ some "deferred" = λ x. cc (q, r.1 x) in
                  elim (Bool-cases (pair_grew d.memory_mib || pair_grew d.vcpus)) [
                    | inl g ↦ rw (e, q, g) (ground arith)
                    | inr g ↦ rw (e, q, g) (ground arith)
                  ]
            ]
        | inr (inl e) ↦ rw e (ground arith)
        | inr (inr e) ↦ rw e (ground arith)
      ]

  -- Of every event that the parser accepts: its row warns exactly for a deferred resize; it shows growth
  -- exactly for another resize in which memory or vCPUs grew, a migration exactly for a migrate and the
  -- configuration exactly for an autoscale_config; no other event reaches the formatter.
  pub describe_parsed :
      (detail : Option ResourceEventDetail) (d : ResourceEventDetail)
      → parse_resource_event detail ≡ some d
      → (detail ≡ some d) × IsRow d
  unfolding parse_resource_event
  describe_parsed none d h = absurd (cc h)
  describe_parsed (some x) d h = elim (Bool-cases (parse_kind x.kind)) [
    | inl e ↦
        let same = some-injective _ _ (rw e at h) in
        (
          ap some same,
          is_row d (subst (λ (y : ResourceEventDetail). parse_kind y.kind ≡ true) same e),
        )
    | inr e ↦ absurd (cc (rw e at h))
  ]
