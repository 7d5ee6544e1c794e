-- ===== src/Shell/Routed.antt =====
-- The page that App.tsx shows for an address, and the error boundary of web/src/components/ui.tsx around
-- it, whose key is cut from the address.
use embervm.Prelude.{
  ℕ, Bool, true, false, not, ◌==◌, ◌&&◌, Option, none, some, [], ◌∷◌, ◌++◌, Text, codes, text_eq,
  take, Without, is_some, if◌then◌else◌, ◌≡◌, ◌≢◌, refl, ap, ap₂, ◌∙◌, arith,
}
use embervm.Files.{slash, split, join}
use embervm.Files.Split.{split-append, split-Without}

-- `/^\/sandboxes\/[^/]+/.test(loc.pathname)`
unfoldable pub is_workspace : Text → Bool
is_workspace path = after (codes "/sandboxes/") path
  where
    after : Text → Text → Bool
    after [] [] = false
    after [] (c ∷ s) = not (c == slash)
    after (d ∷ t) [] = false
    after (d ∷ t) (c ∷ s) = c == d && after t s

-- The key of the boundary.
unfoldable pub key_of : Text → Text
unfolding is_workspace split
key_of path = if is_workspace path then join (take 3 (split path)) else path

-- The boundary with the address that it stands at: the message of the error that it has caught.
pub record Boundary : Type 0 where
  pub path : Text
  pub error : Option Text

pub data Event : Type 0 where
  navigated : Text → Event
  thrown : Text → Event
  retried : Event

-- React mounts a component afresh when its key changes; below the boundary nothing throws while the
-- error is shown.
unfoldable pub step : Boundary → Event → Boundary
unfolding key_of
step b (navigated path) = record {
  path = path;
  error = if text_eq (key_of path) (key_of b.path) then b.error else none;
}
step b (thrown message) = if is_some b.error then b else record b { error = some message }
step b retried = record b { error = none }

-- The address of a place in a workspace.
abbrev pub in_workspace : (id rest : Text) → Text
in_workspace id rest = codes "/sandboxes/" ++ id ++ slash ∷ rest

abbrev of_sandbox : Text → Text
of_sandbox id = codes "/sandboxes/" ++ id

is_workspace-of_sandbox :
    (c : ℕ) (id rest : Text) → c ≢ slash → is_workspace (of_sandbox (c ∷ id) ++ rest) ≡ true
unfolding is_workspace
is_workspace-of_sandbox c id rest h = ground (arith, h)

split-of_sandbox : (s : Text) → split (of_sandbox s) ≡ [] ∷ codes "sandboxes" ∷ split s
unfolding split
split-of_sandbox s = refl

-- The key of a workspace is the same in all its tabs.
key_of-in_workspace :
    (c : ℕ) (id rest : Text)
    → Without slash (c ∷ id)
    → key_of (in_workspace (c ∷ id) rest) ≡ of_sandbox (c ∷ id)
unfolding key_of
key_of-in_workspace c id rest h =
    let parts : split (in_workspace (c ∷ id) rest)
        ≡ [] ∷ codes "sandboxes" ∷ (c ∷ id) ∷ split rest =
      split-of_sandbox ((c ∷ id) ++ slash ∷ rest)
      ∙ ap (λ z. [] ∷ codes "sandboxes" ∷ z)
          (split-append (c ∷ id) rest ∙ ap (λ z. z ++ split rest) (split-Without (c ∷ id) h)) in
    rw (is_workspace-of_sandbox c id (slash ∷ rest) h.0) (ap (λ z. join (take 3 z)) parts)

text_eq-of_sandbox : (s t : Text) → text_eq (of_sandbox s) (of_sandbox t) ≡ text_eq s t
unfolding text_eq
text_eq-of_sandbox s t = refl

-- An error that a tab of a workspace has thrown is still shown in the other tabs of this workspace, and
-- goes with the workspace: it is not shown for another sandbox.
pub step-navigated :
    (b : Boundary) (c d : ℕ) (id other rest next : Text)
    → b.path ≡ in_workspace (c ∷ id) rest
    → Without slash (c ∷ id)
    → Without slash (d ∷ other)
    → (step b (navigated (in_workspace (d ∷ other) next))).error
      ≡ (if text_eq (d ∷ other) (c ∷ id) then b.error else none)
unfolding step
step-navigated b c d id other rest next e h k =
    let here : key_of b.path ≡ of_sandbox (c ∷ id) =
      ap (λ p. key_of p) e ∙ key_of-in_workspace c id rest h in
    let there : key_of (in_workspace (d ∷ other) next) ≡ of_sandbox (d ∷ other) =
      key_of-in_workspace d other next k in
    let same : text_eq (key_of (in_workspace (d ∷ other) next)) (key_of b.path)
        ≡ text_eq (d ∷ other) (c ∷ id) =
      ap₂ text_eq there here ∙ text_eq-of_sandbox (d ∷ other) (c ∷ id) in
    ap (λ t. if t then b.error else none) same
