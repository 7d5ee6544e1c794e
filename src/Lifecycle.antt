-- ===== src/Lifecycle.antt =====
-- The lifecycle of a sandbox, pkg/lifecycle/machine.go: the legal transitions and the machine that the
-- node agent keeps for each of its sandboxes. Its lock makes every method one step.
pub mod Paths
pub mod Verbs
pub mod Writes
pub mod Tests
use embervm.Prelude.{
  ℕ, Bool, true, false, not, ◌&&◌, ◌||◌, Option, none, some, List, [], ◌∷◌, ◌==◌, ==_iff, ==_refl,
  if◌then◌else◌, ◌≡◌, ◌↔◌, refl, ap, subst, sym, ◌∙◌, arith,
}
use embervm.Term.{
  SandboxState, pending, starting, running, pausing, paused_hot, paused_warm, archived_cold,
  resuming, stopping, stopped, recycled, failed,
}

-- A number for each state, by which states are compared.
abbrev number : SandboxState → ℕ
number pending = 0
number starting = 1
number running = 2
number pausing = 3
number paused_hot = 4
number paused_warm = 5
number archived_cold = 6
number resuming = 7
number stopping = 8
number stopped = 9
number recycled = 10
number failed = 11

abbrev pub state_eq : SandboxState → SandboxState → Bool
state_eq a b = number a == number b

abbrev of_number : ℕ → SandboxState
of_number n =
    if n == 0
    then pending
    else if n == 1
    then starting
    else if n == 2
    then running
    else if n == 3
    then pausing
    else if n == 4
    then paused_hot
    else if n == 5
    then paused_warm
    else if n == 6
    then archived_cold
    else if n == 7
    then resuming
    else if n == 8
    then stopping
    else if n == 9
    then stopped
    else if n == 10
    then recycled
    else failed

of_number-number : (s : SandboxState) → of_number (number s) ≡ s
of_number-number pending = refl
of_number-number starting = refl
of_number-number running = refl
of_number-number pausing = refl
of_number-number paused_hot = refl
of_number-number paused_warm = refl
of_number-number archived_cold = refl
of_number-number resuming = refl
of_number-number stopping = refl
of_number-number stopped = refl
of_number-number recycled = refl
of_number-number failed = refl

pub state_eq_iff : (a b : SandboxState) → (state_eq a b ≡ true) ↔ (a ≡ b)
state_eq_iff a b = (
  λ h.
      sym (of_number-number a)
      ∙ ap of_number ((==_iff (number a) (number b)).0 h)
      ∙ of_number-number b,
  λ e. subst (λ c. state_eq a c ≡ true) e (==_refl (number a)),
)

abbrev pub one_of : List SandboxState → SandboxState → Bool
one_of [] s = false
one_of (t ∷ ts) s = state_eq t s || one_of ts s

-- Two tests that agree on every state, decided by running them on all of them.
abbrev same : Bool → Bool → Bool
same true b = b
same false b = not b

same-≡ : (a b : Bool) → same a b ≡ true → a ≡ b
same-≡ true b e = sym e
same-≡ false true e = e
same-≡ false false e = refl

abbrev everywhere : (SandboxState → Bool) → Bool
everywhere f =
    f pending
    && f starting
    && f running
    && f pausing
    && f paused_hot
    && f paused_warm
    && f archived_cold
    && f resuming
    && f stopping
    && f stopped
    && f recycled
    && f failed

everywhere-holds : (f : SandboxState → Bool) → everywhere f ≡ true → (s : SandboxState) → f s ≡ true
everywhere-holds f e pending = ground arith
everywhere-holds f e starting = ground arith
everywhere-holds f e running = ground arith
everywhere-holds f e pausing = ground arith
everywhere-holds f e paused_hot = ground arith
everywhere-holds f e paused_warm = ground arith
everywhere-holds f e archived_cold = ground arith
everywhere-holds f e resuming = ground arith
everywhere-holds f e stopping = ground arith
everywhere-holds f e stopped = ground arith
everywhere-holds f e recycled = ground arith
everywhere-holds f e failed = ground arith

pub agree :
    (f g : SandboxState → Bool)
    → everywhere (λ s. same (f s) (g s)) ≡ true
    → (s : SandboxState) → f s ≡ g s
agree f g e s = same-≡ (f s) (g s) (everywhere-holds (λ t. same (f t) (g t)) e s)

-- The keys of `transitions[from]`.
unfoldable pub transitions : SandboxState → List SandboxState
transitions pending = starting ∷ []
transitions starting = running ∷ []
transitions running = pausing ∷ stopping ∷ []
transitions pausing = paused_hot ∷ running ∷ []
transitions paused_hot = resuming ∷ stopping ∷ paused_warm ∷ []
transitions paused_warm = resuming ∷ archived_cold ∷ stopping ∷ []
transitions archived_cold = resuming ∷ recycled ∷ stopping ∷ []
transitions recycled = stopping ∷ []
transitions resuming = running ∷ []
transitions stopping = stopped ∷ []
transitions failed = resuming ∷ stopping ∷ []
transitions stopped = []

-- `activeStates[s]`
unfoldable pub is_active : SandboxState → Bool
is_active s =
    one_of
      (starting ∷ running ∷ pausing ∷ paused_hot ∷ paused_warm ∷ archived_cold ∷ resuming ∷ stopping
        ∷ [])
      s

unfoldable pub terminal : SandboxState → Bool
terminal s = state_eq s stopped

unfoldable pub paused : SandboxState → Bool
paused s = state_eq s paused_hot || state_eq s paused_warm || state_eq s archived_cold

-- `Validate(from, to) == nil`
unfoldable pub validate : SandboxState → SandboxState → Bool
unfolding transitions is_active
validate from to =
    if state_eq to failed && is_active from then true else one_of (transitions from) to

-- A method of `Machine`: whether it returned nil, and the state that it leaves.
unfoldable pub to_state : SandboxState → SandboxState → Bool × SandboxState
unfolding validate
to_state state to = if not (validate state to) then (false, state) else (true, to)

unfoldable pub cas : SandboxState → SandboxState → SandboxState → Bool × SandboxState
unfolding validate
cas state from to =
    if not (state_eq state from)
    then (false, state)
    else if not (validate from to)
    then (false, state)
    else (true, to)

-- The calls that change a machine.
pub data Call : Type 0 where
  to_called : SandboxState → Call
  cas_called : SandboxState → SandboxState → Call

unfoldable pub call : SandboxState → Call → Bool × SandboxState
unfolding to_state cas
call s (to_called to) = to_state s to
call s (cas_called from to) = cas s from to

unfoldable pub run : SandboxState → List Call → SandboxState
unfolding call
run s [] = s
run s (c ∷ cs) = run (call s c).1 cs
