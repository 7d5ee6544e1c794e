-- ===== src/Shell/Tests.antt =====
-- Signing in and out on concrete responses.
use embervm.Prelude.{
  String, true, false, Option, none, some, List, [], ◌∷◌, is_some, ◌≡◌, refl, codes, text_eq,
  if◌then◌else◌, arith,
}
use embervm.Api.Client.{Response, api, refuse_token, clear_token}
use embervm.Shell.{
  Shell, Event, connected, probed, answered, loaded, run, step, connect, finish, receive,
  on_refused,
}
use embervm.Shell.Routed.{Boundary, navigated, step as routed, in_workspace, step-navigated}
use embervm.Shell.Signed.{run-token}

abbrev refused : Response
refused = record { status = 401; text = "" }

abbrev fine : Response
fine = record { status = 200; text = "[]" }

-- A parser for which no body has a member `error`.
abbrev parse : String → Option String
parse text = some text

abbrev session : List Event
session = answered fine ∷ answered refused ∷ connected "new" ∷ probed fine ∷ []

session-authed : (run parse (λ j. none) (λ j. true) (loaded (some "old")) session).authed ≡ true
unfolding run step connect finish receive on_refused loaded api refuse_token clear_token
session-authed = refl

run-token_example :
    is_some (run parse (λ j. none) (λ j. true) (loaded (some "old")) session).session.token ≡ true
unfolding step connect finish receive on_refused loaded api refuse_token clear_token
run-token_example =
    run-token parse (λ j. none) (λ j. true) (some "old") session (refl, (refl, (tt, (tt, tt))))
      session-authed

-- The console of a signed-in user with one query's data.
abbrev shown : Shell
shown = record (loaded (some "old")) { authed = true; busy = false; cached = some "old" ∷ [] }

-- The terminal tab of the sandbox a has thrown; then its files tab is shown.
abbrev broken : Boundary
broken = record { path = in_workspace (codes "a") (codes "terminal"); error = some (codes "x") }

step-navigated_example :
    (routed broken (navigated (in_workspace (codes "a") (codes "files")))).error
    ≡ (if text_eq (codes "a") (codes "a") then some (codes "x") else none)
step-navigated_example =
    step-navigated broken 97 97 [] [] (codes "terminal") (codes "files") refl (omega arith, tt)
      (omega arith, tt)
