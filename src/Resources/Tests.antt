-- ===== src/Resources/Tests.antt =====
-- The resize panel on a concrete sandbox.
use embervm.Prelude.{
  String, true, false, Option, none, some, List, [], ◌∷◌, pos, ◌≡◌, ◌⊎◌, ◌↔◌, inr, refl, str_eq,
  if◌then◌else◌, arith, is_some, not, ◌==◌, ◌&&◌,
}
use embervm.Api.{Sandbox}
use embervm.Api.Samples.{elastic}
use embervm.Api.Optimistic.{QueryClient}
use embervm.Resources.{
  Failure, Panel, mount, resize_body, apply_disabled, dirty, on_resize_error, has_slider, base,
  max_mem, max_cpu,
}
use embervm.Resources.Server.{
  bind, resize_sandbox, failure_of, set_autoscale, not_running, no_capacity, resized,
}
use embervm.Resources.Requests.{resize_sandbox-resize_body, no_capacity_iff}
use embervm.Term.{running}
use embervm.Lifecycle.{state_eq}
use embervm.Lifecycle.Writes.{Answers, migrate_sandbox}
use embervm.Resources.Retry.{migrate, resize, retried, migrate_retry, retried-succeeded}
use embervm.Resources.Toggle.{flip_autoscale, flip_failed, flip_failed-flip_autoscale}

abbrev slid : Panel
slid = record (mount (elastic 512)) { mem = 1024; cpu = pos 2 }

grows : resize_sandbox true true (elastic 512) (bind (resize_body (elastic 512) slid)) ≡ resized
unfolding resize_sandbox resize_body mount
grows = refl

enabling_again : (set_autoscale true (elastic 512) true).0 ≡ 200
unfolding set_autoscale
enabling_again = refl

resize_sandbox-resize_body_example :
    resize_sandbox false true (elastic 512) (bind (resize_body (elastic 512) slid)) ≡ no_capacity
unfolding has_slider base max_mem max_cpu apply_disabled dirty mount
resize_sandbox-resize_body_example =
    resize_sandbox-resize_body false true (elastic 512) slid refl (omega arith)
      (inr (refl, omega arith, omega arith)) (inr (omega arith, omega arith)) refl

-- A failure without an answer.
abbrev offline : Failure
offline = record { is_api = false; status = 0; names_ceiling = false }

abbrev refused : Failure
refused = record { is_api = true; status = 409; names_ceiling = false }

no_capacity_iff_example :
    (((on_resize_error (mount (elastic 512)) refused).0.no_capacity ≡ true)
      ↔ ((not_running ≡ no_capacity) ⊎ (not_running ≡ not_running)))
    × (((on_resize_error (mount (elastic 512)) refused).1 ≡ false)
        ↔ ((not_running ≡ no_capacity) ⊎ (not_running ≡ not_running)))
unfolding failure_of mount
no_capacity_iff_example =
    no_capacity_iff (mount (elastic 512)) offline not_running refused refl refl refl

-- A cache that is a function and a list.
abbrev Cache : Type 0
Cache = (String → Option Sandbox) × Option (List Sandbox)

abbrev client : QueryClient Cache Sandbox
client = record {
  get_one = λ c id. c.0 id;
  set_one = λ c id s. (λ j. if str_eq id j then some s else c.0 j, c.1);
  get_list = λ c. c.1;
  set_list = λ c l. (c.0, some l);
  get_one-set_one = λ c id j s. refl;
  get_one-set_list = λ c l j. refl;
  get_list-set_one = λ c id s. refl;
  get_list-set_list = λ c l. refl;
}

abbrev cache : Cache
cache = (λ j. if str_eq "sb1" j then some (elastic 512) else none, some (elastic 512 ∷ []))

flip_failed-flip_autoscale_example :
    let r = flip_autoscale client cache "sb1" false in
    ((j : String) → (flip_failed client r.0 "sb1" r.1).0 j ≡ cache.0 j)
    × ((flip_failed client r.0 "sb1" r.1).1 ≡ cache.1)
flip_failed-flip_autoscale_example = flip_failed-flip_autoscale client cache "sb1" false

-- Every call of the migration succeeds, and the target's agent brings the sandbox up.
abbrev migrated : Answers
migrated = record {
  admitted = true;
  known = true;
  claimed = true;
  placed = true;
  moved = true;
  acted = some running;
  recorded = true;
  noted = true;
  paused = true;
  pause_recorded = true;
  warm_claimed = true;
  released = true;
  target_known = true;
  resume_claimed = true;
}

retried-succeeded_example :
    let r = retried offline migrated true true (elastic 512) (elastic 512) slid in
    let refused = is_some (
      failure_of offline
        (resize_sandbox true true (elastic 512) (bind (resize_body (elastic 512) slid)))) in
    (r.succeeded ≡ ((migrate_sandbox running migrated).0 == 200 && not refused))
    × ((r.succeeded && not (state_eq running running)) ≡ false)
    × (r.panel.no_capacity ≡ (slid.no_capacity && not r.succeeded))
    × (r.sent
        ≡ migrate
          ∷ (if (migrate_sandbox running migrated).0 == 200
              then resize (resize_body (elastic 512) slid) ∷ []
              else []))
retried-succeeded_example =
    retried-succeeded offline migrated true true (elastic 512) (elastic 512) slid refl

retry_grows : (retried offline migrated true true (elastic 512) (elastic 512) slid).succeeded ≡ true
unfolding migrate_retry migrate_sandbox failure_of resize_sandbox resize_body mount
retry_grows = refl
