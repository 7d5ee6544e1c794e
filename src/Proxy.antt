-- ===== src/Proxy.antt =====
-- The session of the guest proxy, web/src/lib/proxy.ts: the promise that the module keeps for every
-- caller, and the requests that it makes.
pub mod Session
pub mod Tests
use embervm.Prelude.{
  ℕ, suc, ◌+◌, Bool, true, false, not, Option, none, some, List, [], ◌∷◌, keep, ◌==◌, if◌then◌else◌,
  Text, codes, starts_with, ◌++◌,
}

-- `session` is `sessionPromise`, by the number of its POST; `pending` are the POSTs that have not been
-- answered, and `posts` and `deletes` count the requests made.
pub record World : Type 0 where
  pub session : Option ℕ
  pub pending : List ℕ
  pub posts : ℕ
  pub deletes : ℕ

pub data Event : Type 0 where
  ensured : Event
  ended : Event
  unauthorized : Event
  answered : ℕ → Bool → Event

abbrev pub loaded : World
loaded = record { session = none; pending = []; posts = 0; deletes = 0 }

-- `ensureProxySession`; the result is the promise that the caller awaits.
unfoldable pub ensure_proxy_session : World → World × ℕ
ensure_proxy_session w = elim w.session [
  | some n ↦ (w, n)
  | none ↦ (
    record w { session = some w.posts; pending = w.posts ∷ w.pending; posts = suc w.posts },
    w.posts,
  )
]

unfoldable pub end_proxy_session : World → World
end_proxy_session w = record w { session = none; deletes = suc w.deletes }

-- The listener of "embervm:unauthorized".
unfoldable pub on_unauthorized : World → World
on_unauthorized w = record w { session = none }

abbrev pub is_pending : ℕ → List ℕ → Bool
is_pending n [] = false
is_pending n (m ∷ ms) = if m == n then true else is_pending n ms

-- The answer to a POST, if it is pending; a failed one runs the `catch`.
unfoldable pub answer : World → ℕ → Bool → World
answer w n success =
    let settled : World = record w { pending = keep (λ m. not (m == n)) w.pending } in
    if not (is_pending n w.pending)
    then w
    else if success
    then settled
    else record settled { session = none }

unfoldable pub step : World → Event → World
step w ensured = (ensure_proxy_session w).0
step w ended = end_proxy_session w
step w unauthorized = on_unauthorized w
step w (answered n success) = answer w n success

unfoldable pub run : World → List Event → World
run w [] = w
run w (e ∷ es) = run (step w e) es

-- `proxyURL`; the port is given as its decimal digits.
unfoldable pub proxy_url : Text → Text → Text → Text
proxy_url sandbox_id port path =
    let p : Text = if starts_with 47 path then path else 47 ∷ path in
    codes "/v0/sandboxes/" ++ sandbox_id ++ codes "/proxy/" ++ port ++ p
