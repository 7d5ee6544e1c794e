-- ===== src/Lifecycle/Paths.antt =====
-- The paths that the legal transitions allow.
use embervm.Prelude.{
  is_true, Bool, true, not, List, [], ◌∷◌, ◌≡◌, ◌≢◌, ◌↔◌, refl, if-intro, subst, sym, arith,
}
use embervm.Term.{
  SandboxState, pending, starting, running, pausing, paused_hot, paused_warm, archived_cold,
  resuming, stopping, stopped, recycled, failed,
}
use embervm.Lifecycle.{
  Call, to_called, cas_called, call, run, validate, to_state, cas, state_eq, state_eq_iff,
  transitions, is_active,
}

-- One state after another along legal transitions.
pub data Reaches : SandboxState → SandboxState → Type 0 where
  here : {s : SandboxState} → Reaches s s
  then_to :
      {s u : SandboxState} (t : SandboxState) → validate s t ≡ true → Reaches t u → Reaches s u

pub Reaches-trans : {s t u : SandboxState} → Reaches s t → Reaches t u → Reaches s u
Reaches-trans here k = k
Reaches-trans (then_to t e h) k = then_to t e (Reaches-trans h k)

call-Reaches : (s : SandboxState) (c : Call) → Reaches s (call s c).1
unfolding call to_state cas
call-Reaches s (to_called to) =
    if-intro (λ (r : Bool × SandboxState). Reaches s r.1) (not (validate s to)) (λ _. here)
      (λ e. then_to to (is_true _ e) here)
call-Reaches s (cas_called from to) =
    if-intro (λ (r : Bool × SandboxState). Reaches s r.1) (not (state_eq s from)) (λ _. here)
      λ n.
        if-intro (λ (r : Bool × SandboxState). Reaches s r.1) (not (validate from to)) (λ _. here)
          λ e.
            then_to to
              (subst (λ f. validate f to ≡ true) (sym ((state_eq_iff s from).0 (is_true _ n)))
                (is_true _ e))
              here

-- However a machine is called, the state that it is in is one that legal transitions lead to from the
-- state in which it started: `To` and `CAS` never leave the graph.
pub run-Reaches : (s : SandboxState) (cs : List Call) → Reaches s (run s cs)
unfolding run
run-Reaches s [] = here
run-Reaches s (c ∷ cs) = Reaches-trans (call-Reaches s c) (run-Reaches (call s c).1 cs)

leaves_stopped : (s t : SandboxState) → s ≡ stopped → Reaches s t → t ≡ stopped
unfolding validate transitions is_active
leaves_stopped s t e here = e
leaves_stopped s t e (then_to u v h) = absurd (none_left u (rw e at v))
  where
    none_left : (u : SandboxState) → validate stopped u ≢ true
    none_left u v = ground arith

resumed : {s : SandboxState} → validate s resuming ≡ true → Reaches s running
unfolding validate transitions is_active
resumed e = then_to resuming e (then_to running refl here)

-- A state can lead to RUNNING along legal transitions exactly if it is not STOPPED: also RECYCLED can,
-- by a stop that fails and the recovery of a FAILED sandbox.
pub Reaches_running_iff : (s : SandboxState) → Reaches s running ↔ (s ≢ stopped)
unfolding validate transitions is_active
Reaches_running_iff s =
    (λ h e. let k : running ≡ stopped = leaves_stopped s running e h in cc, back s)
  where
    back : (s : SandboxState) → s ≢ stopped → Reaches s running
    back pending n = then_to starting refl (then_to running refl here)
    back starting n = then_to running refl here
    back running n = here
    back pausing n = then_to running refl here
    back paused_hot n = resumed refl
    back paused_warm n = resumed refl
    back archived_cold n = resumed refl
    back resuming n = then_to running refl here
    back stopping n = then_to failed refl (resumed refl)
    back stopped n = absurd (n refl)
    back recycled n = then_to stopping refl (then_to failed refl (resumed refl))
    back failed n = resumed refl
