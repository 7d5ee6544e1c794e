-- ===== src/Proxy/Session.antt =====
-- How many cookies the console asks for.
use embervm.Prelude.{
  ℕ, suc, ◌+◌, ◌≤◌, true, false, Option, none, some, List, [], ◌∷◌, arith, ◌≡◌, Option-cases, inl,
  inr,
}
use embervm.Proxy.{
  World, Event, ensured, ended, unauthorized, answered, loaded, ensure_proxy_session,
  end_proxy_session, on_unauthorized, is_pending, answer, step, run,
}

-- What ends a session, or keeps it from coming about.
abbrev pub breaks : List Event → ℕ
breaks [] = 0
breaks (ensured ∷ es) = breaks es
breaks (ended ∷ es) = suc (breaks es)
breaks (unauthorized ∷ es) = suc (breaks es)
breaks (answered n true ∷ es) = breaks es
breaks (answered n false ∷ es) = suc (breaks es)

-- A POST is to come for each of the events that end a session, and one for the first session.
abbrev due : Option ℕ → ℕ
due none = 1
due (some n) = 0

due_le : (o : Option ℕ) → due o ≤ 1
due_le none = omega arith
due_le (some n) = omega arith

posts-step :
    (w : World) (e : Event)
    → (step w e).posts + due (step w e).session ≤ w.posts + due w.session + breaks (e ∷ [])
unfolding step ensure_proxy_session end_proxy_session on_unauthorized answer
posts-step w ensured = elim (Option-cases w.session) [
  | inl e ↦ rw e (omega arith)
  | inr (n, e) ↦ rw e (omega arith)
]
posts-step w ended = omega arith
posts-step w unauthorized = omega arith
posts-step w (answered n true) = ground arith
posts-step w (answered n false) = let h = due_le w.session in ground arith

posts-run :
    (w : World) (es : List Event)
    → (run w es).posts + due (run w es).session ≤ w.posts + due w.session + breaks es
unfolding run
posts-run w [] = omega arith
posts-run w (e ∷ es) = omega (arith, posts-run (step w e) es, posts-step w e, breaks_cons e es)
  where
    breaks_cons : (e : Event) (es : List Event) → breaks (e ∷ es) ≡ breaks (e ∷ []) + breaks es
    breaks_cons ensured es = omega arith
    breaks_cons ended es = omega arith
    breaks_cons unauthorized es = omega arith
    breaks_cons (answered n true) es = omega arith
    breaks_cons (answered n false) es = omega arith

-- The console asks for at most one cookie, and for one more at most each time that a session ends, that
-- the token expires or that a request for a cookie fails, however many callers there are.
pub posts-run-loaded : (es : List Event) → (run loaded es).posts ≤ 1 + breaks es
posts-run-loaded es = omega (arith, posts-run loaded es)

-- A cookie is asked for, the session is ended, and a second cookie is asked for, all before the first
-- request fails: then the next caller asks for a third cookie, although the second request is under
-- way.
pub stale_failure :
    (posts deletes : ℕ) (pending : List ℕ)
    → let w : World = record {
      session = none;
      pending = pending;
      posts = posts;
      deletes = deletes;
    } in
      let (v, promise) =
        ensure_proxy_session (run w (ensured ∷ ended ∷ ensured ∷ answered posts false ∷ [])) in
      (promise ≡ 2 + posts) × (v.posts ≡ 3 + posts) × (is_pending (1 + posts) v.pending ≡ true)
unfolding step run ensure_proxy_session end_proxy_session answer
stale_failure posts deletes pending = ground arith
