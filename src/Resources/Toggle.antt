-- ===== src/Resources/Toggle.antt =====
-- The autoscale toggle: `flipAutoscale` changes the cached sandbox by hand, since the optimistic change
-- of `useSandboxAction` does not see the value that is set, and takes it back by hand.
use embervm.Prelude.{String, Bool, Option, none, some, ◌≡◌, refl, ap, ◌∙◌}
use embervm.Api.{Sandbox}
use embervm.Api.Optimistic.{
  QueryClient, on_mutate, on_error, set_one_if, patched, get_one-restored, get_one-set_one_if_other,
  get_list-set_one_if,
}

module _ {C : Type 0} (q : QueryClient C Sandbox) where
  -- `(p) => (p ? { ...p, autoscale: on } : p)`
  abbrev pub with_autoscale : Bool → Sandbox → Sandbox
  with_autoscale on sb = record sb { autoscale = some on }

  -- `flipAutoscale` up to the answer, with the sandbox that it keeps; the mutation has no optimistic
  -- change of its own.
  unfoldable pub flip_autoscale : C → String → Bool → C × Option Sandbox
  unfolding on_mutate
  flip_autoscale c id on =
      let prev = q.get_one c id in
      let c1 = set_one_if q (λ s. s.id) c id (patched q (λ s. s.id) (with_autoscale on) prev) in
      ((on_mutate q (λ s. s.id) c1 none).0, prev)

  -- The failure of the mutation: its own `onError`, then the `catch`.
  unfoldable pub flip_failed : C → String → Option Sandbox → C
  unfolding on_error
  flip_failed c id prev =
      set_one_if q (λ s. s.id)
        (on_error q (λ s. s.id) c (some id) (record { prev_one = none; prev_list = none })) id prev

  -- A toggle that fails leaves every cached sandbox and the cached list as they were before the click.
  pub flip_failed-flip_autoscale :
      (c : C) (id : String) (on : Bool)
      → let r = flip_autoscale c id on in
        ((j : String) → q.get_one (flip_failed r.0 id r.1) j ≡ q.get_one c j)
        × (q.get_list (flip_failed r.0 id r.1) ≡ q.get_list c)
  unfolding flip_autoscale flip_failed on_mutate on_error
  flip_failed-flip_autoscale c id on =
      let prev : Option Sandbox = q.get_one c id in
      let key : Sandbox → String = λ s. s.id in
      let c1 : C = set_one_if q key c id (patched q key (with_autoscale on) prev) in
      (
        λ j.
            get_one-restored q key c c1 id prev j refl
              (λ n. get_one-set_one_if_other q key c id j _ n) (λ e. same e j),
        get_list-set_one_if q key c1 id prev ∙ get_list-set_one_if q key c id _,
      )
    where
      same :
          q.get_one c id ≡ none
          → (j : String)
          → q.get_one
              (set_one_if q
                (λ s. s.id)
                c
                id
                (patched q (λ s. s.id) (with_autoscale on) (q.get_one c id)))
              j
            ≡ q.get_one c j
      same e j =
          ap
            (λ o.
              q.get_one
                (set_one_if q (λ s. s.id) c id (patched q (λ s. s.id) (with_autoscale on) o)) j)
            e
