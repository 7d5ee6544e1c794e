-- ===== src/Preview.antt =====
-- The preview of a guest port, web/src/pages/workspace/PreviewTab.tsx: which port is shown, the recent
-- ports of a sandbox in localStorage, and the strip of ports to pick from.
pub mod Recent
pub mod Tests
use embervm.Prelude.{
  ℕ, suc, ◌≤◌, String, Bool, true, false, not, ◌&&◌, ◌||◌, Option, none, some, List, [], ◌∷◌, ◌++◌,
  keep, take, ltb, ◌==◌, if◌then◌else◌, Text, codes,
}
use embervm.Proxy.{proxy_url}

-- A number that `open` can be called with: what the form makes of its digits, or a port of the strip;
-- `wrong` is a number that is no integer or below 1.
pub data Asked : Type 0 where
  port_number : ℕ → Asked
  wrong : Asked

-- The state of the tab, with the sandbox's recent ports as they are stored, `none` where nothing that
-- parses to an array is there; an element that is no integer is `none`.
pub record Preview : Type 0 where
  pub port : Option ℕ
  pub session_ready : Bool
  pub generation : ℕ
  pub stored : Option (List (Option ℕ))

abbrev pub quick_ports : List ℕ
quick_ports = 3000 ∷ 5173 ∷ 8000 ∷ 8080 ∷ []

abbrev integers : List (Option ℕ) → List ℕ
integers [] = []
integers (none ∷ raw) = integers raw
integers (some n ∷ raw) = n ∷ integers raw

-- `loadRecent`; the integers are taken to be natural numbers.
unfoldable pub load_recent : Option (List (Option ℕ)) → List ℕ
load_recent none = []
load_recent (some raw) = integers raw

abbrev first : List ℕ → Option ℕ
first [] = none
first (p ∷ ps) = some p

-- The tab when it is mounted.
unfoldable pub mount : Option (List (Option ℕ)) → Preview
unfolding load_recent
mount stored = record {
  port = first (load_recent stored);
  session_ready = false;
  generation = 0;
  stored = stored;
}

abbrev pub is_port : ℕ → Bool
is_port p = ltb 0 p && ltb p 65536

-- `JSON.stringify(next)`, as `load_recent` finds it.
abbrev pub written : List ℕ → List (Option ℕ)
written [] = []
written (p ∷ ps) = some p ∷ written ps

-- `next`
unfoldable pub next_recent : ℕ → List ℕ → List ℕ
next_recent p recent = take 5 (p ∷ keep (λ x. not (x == p)) recent)

-- `open`
unfoldable pub open_port : Preview → Asked → Preview
unfolding next_recent load_recent
open_port w wrong = w
open_port w (port_number p) = if not (is_port p) then w else record w {
  port = some p;
  generation = suc w.generation;
  stored = some (written (next_recent p (load_recent w.stored)));
}

-- `[...new Set(ps)]`
abbrev pub distinct : List ℕ → List ℕ
distinct [] = []
distinct (p ∷ ps) = p ∷ keep (λ x. not (x == p)) (distinct ps)

-- The strip, for the ports that were recent when the tab was mounted.
unfoldable pub strip : List ℕ → List ℕ
strip recent = take 6 (distinct (recent ++ quick_ports))

-- `src`, with the port's digits.
unfoldable pub src : (ℕ → Text) → Text → Text → Preview → Option Text
unfolding proxy_url
src digits sandbox_id path w = elim w.port [
  | none ↦ none
  | some p ↦
      if not (p == 0) && w.session_ready then some (proxy_url sandbox_id (digits p) path) else none
]
