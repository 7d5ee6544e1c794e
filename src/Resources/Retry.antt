-- ===== src/Resources/Retry.antt =====
-- `migrateRetry` of web/src/pages/workspace/OverviewTab.tsx, which moves the sandbox to another node and
-- asks for the size again, against `migrateSandbox` and `resizeSandbox` of pkg/controlplane/server.go.
use embervm.Prelude.{
  ℕ, Bool, true, false, not, ◌&&◌, Option, none, some, List, [], ◌∷◌, ℤ, ◌==◌, is_some,
  if◌then◌else◌, ◌≡◌, refl, arith, Bool-cases, inl, inr,
}
use embervm.Term.{SandboxState, running}
use embervm.Lifecycle.{state_eq}
use embervm.Lifecycle.Writes.{Answers, migrate_sandbox}
use embervm.Lifecycle.Writes.Legal.{final, IsRunning}
use embervm.Api.{Sandbox}
use embervm.Resources.{Panel, Failure, resize_body, on_resized}
use embervm.Resources.Server.{Body, bind, resize_sandbox, failure_of}

-- The requests `verbs.migrate` and `verbs.resize`.
pub data Sent : Type 0 where
  migrate : Sent
  resize : Option ℕ × Option ℤ → Sent

-- What was sent, the panel at the end, and whether the toast is the one of success.
pub record Retried : Type 0 where
  pub sent : List Sent
  pub panel : Panel
  pub succeeded : Bool

abbrev after_resize : Panel → Option ℕ × Option ℤ → Option Failure → Retried
after_resize p body none = record {
  sent = migrate ∷ resize body ∷ [];
  panel = on_resized p;
  succeeded = true;
}
after_resize p body (some e) = record {
  sent = migrate ∷ resize body ∷ [];
  panel = p;
  succeeded = false;
}

-- `migrated` is whether the migration is answered without an error; `resized` is the answer to a body.
unfoldable pub migrate_retry :
    (migrated : Bool) (resized : Option ℕ × Option ℤ → Option Failure) → Sandbox → Panel → Retried
unfolding resize_body on_resized
migrate_retry migrated resized sb p =
    if not migrated
    then record { sent = migrate ∷ []; panel = p; succeeded = false }
    else after_resize p (resize_body sb p) (resized (resize_body sb p))

-- The row that the second request finds.
abbrev moved_row : Sandbox → Answers → Sandbox
moved_row row a = record row { state = final row.state (migrate_sandbox row.state a).1 }

-- The retry against the server: `row` is the row that the migration finds, `other` the
-- error of any other failure, `fits` and `stored` are what the
-- scheduler and the rest answer to the resize on the target node.
abbrev pub retried :
    (other : Failure) → Answers → (fits stored : Bool) → (row sb : Sandbox) → Panel → Retried
retried other a fits stored row sb p =
    migrate_retry ((migrate_sandbox row.state a).0 == 200)
      (λ b. failure_of other (resize_sandbox fits stored (moved_row row a) (bind b))) sb p

-- A migration that succeeds leaves a running sandbox running, and no other one.
running-migrate_sandbox :
    (s : SandboxState) (a : Answers)
    → IsRunning a.acted
    → ((migrate_sandbox s a).0 == 200) ≡ true
    → state_eq (final s (migrate_sandbox s a).1) running ≡ state_eq s running
unfolding migrate_sandbox
running-migrate_sandbox s a h k = ground arith

resize_sandbox-state :
    (fits stored : Bool) (row : Sandbox) (t : SandboxState) (b : Body)
    → state_eq t running ≡ state_eq row.state running
    → resize_sandbox fits stored (record row { state = t }) b ≡ resize_sandbox fits stored row b
unfolding resize_sandbox
resize_sandbox-state fits stored row t b e = rw e refl

resized-running :
    (other : Failure) (fits stored : Bool) (row : Sandbox) (b : Body)
    → (not (is_some (failure_of other (resize_sandbox fits stored row b)))
        && not (state_eq row.state running))
      ≡ false
unfolding resize_sandbox failure_of
resized-running other fits stored row b = ground arith

after_resized :
    (p : Panel) (b : Option ℕ × Option ℤ) (o : Option Failure) (is_running : Bool)
    → (not (is_some o) && not is_running) ≡ false
    → let r = after_resize p b o in
      (r.succeeded ≡ not (is_some o))
      × ((r.succeeded && not is_running) ≡ false)
      × (r.panel.no_capacity ≡ (p.no_capacity && not r.succeeded))
      × (r.sent ≡ migrate ∷ resize b ∷ [])
unfolding on_resized
after_resized p b none is_running h = (refl, h, ground arith, refl)
after_resized p b (some e) is_running h = (refl, refl, ground arith, refl)

-- If the agent that the migration starts the sandbox on reports it as RUNNING, where it reports anything:
-- the retry succeeds exactly if the server answers the migration with 200, would have answered the resize
-- of the row as it was before without an error, given what the scheduler answers for the target, and the
-- sandbox was running; only then does the note that the node is full go away. The resize is sent exactly
-- if the migration is answered with 200.
pub retried-succeeded :
    (other : Failure) (a : Answers) (fits stored : Bool) (row sb : Sandbox) (p : Panel)
    → IsRunning a.acted
    → let r = retried other a fits stored row sb p in
      let refused =
        is_some (failure_of other (resize_sandbox fits stored row (bind (resize_body sb p)))) in
      (r.succeeded ≡ ((migrate_sandbox row.state a).0 == 200 && not refused))
      × ((r.succeeded && not (state_eq row.state running)) ≡ false)
      × (r.panel.no_capacity ≡ (p.no_capacity && not r.succeeded))
      × (r.sent
          ≡ migrate
            ∷ (if (migrate_sandbox row.state a).0 == 200
                then resize (resize_body sb p) ∷ []
                else []))
unfolding migrate_retry
retried-succeeded other a fits stored row sb p h =
    elim (Bool-cases ((migrate_sandbox row.state a).0 == 200)) [
      | inl e ↦
          rw
            (
              e,
              resize_sandbox-state fits stored row _ (bind (resize_body sb p))
                  (running-migrate_sandbox row.state a h e),
            )
            (after_resized p (resize_body sb p) _ _
              (resized-running other fits stored row (bind (resize_body sb p))))
      | inr n ↦ rw n (refl, refl, ground arith, refl)
    ]
