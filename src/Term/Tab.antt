-- ===== src/Term/Tab.antt =====
-- The terminal tab of a workspace, web/src/pages/workspace/TerminalTab.tsx: which session it shows, the
-- session that it opens unasked, and its buttons.
use embervm.Prelude.{
  ℕ, String, Bool, true, false, not, ◌&&◌, Option, none, some, List, [], ◌∷◌, find, get_last?,
  length, ◌==◌, ==_refl, ==_iff, if◌then◌else◌, if-intro, keep, get, get-put, get_or_else, map,
  ◌++◌, ◌≡◌, refl, ap, ◌∙◌, str_eq_refl, leb,
}
use embervm.Term.{World, TermSession, listed, publish, max_sessions, fresh}
use embervm.Term.Connect.{connect}
use embervm.Term.Manager.{sessions_of, open_session, close, close_found, retire, unlist, enlist}
use embervm.Term.Frame.{connect-Frame}

-- `active`, for `activeID` and the sessions.
abbrev last_or : Option TermSession → List TermSession → Option TermSession
last_or (some s) sessions = some s
last_or none sessions = get_last? sessions

abbrev by_id : Option ℕ → List TermSession → Option TermSession
by_id none sessions = none
by_id (some id) sessions = find (λ s. s.id == id) sessions

unfoldable pub active : Option ℕ → List TermSession → Option TermSession
active active_id sessions = last_or (by_id active_id sessions) sessions

abbrev pub kept : Option ℕ → Option ℕ → Option ℕ
kept none active_id = active_id
kept (some id) active_id = some id

-- The button +, with the new `activeID`.
unfoldable pub press_new : World → String → Option ℕ → World × Option ℕ
unfolding open_session
press_new w sandbox_id active_id =
    ((open_session w sandbox_id).0, kept (open_session w sandbox_id).1 active_id)

-- The effect that runs when the tab is mounted, and when the sandbox begins or ceases to run or the
-- number of sessions changes.
unfoldable pub effect : Bool → World → String → Option ℕ → World × Option ℕ
unfolding press_new
effect running w sandbox_id active_id =
    if running && length (sessions_of w sandbox_id) == 0
    then press_new w sandbox_id active_id
    else (w, active_id)

abbrev is_id : Option ℕ → ℕ → Bool
is_id none id = false
is_id (some a) id = a == id

-- The button that closes a session.
unfoldable pub press_close : World → String → ℕ → Option ℕ → World × Option ℕ
unfolding close
press_close w sandbox_id id active_id =
    (close w sandbox_id id, if is_id active_id id then none else active_id)

sessions_of-publish :
    (w : World) (sandbox_id : String)
    → sessions_of (publish w sandbox_id) sandbox_id
      ≡ map (λ r. (w.heap r).session) (listed w sandbox_id)
unfolding publish
sessions_of-publish w s = rw (get-put s s, str_eq_refl s) refl

listed-enlist :
    (w : World) (sandbox_id : String)
    → listed (enlist w sandbox_id) sandbox_id ≡ listed w sandbox_id ++ w.seq ∷ []
listed-enlist w s = rw (get-put s s, str_eq_refl s) refl

-- The world in which the first session of a sandbox has been opened and not yet published.
abbrev begun : World → String → World
begun w sandbox_id = connect (enlist w sandbox_id) w.seq

open_session-first :
    (w : World) (sandbox_id : String)
    → listed w sandbox_id ≡ []
    → open_session w sandbox_id ≡ (publish (begun w sandbox_id) sandbox_id, some w.seq)
unfolding open_session
open_session-first w sandbox_id e =
    ap
      (λ l.
        if leb max_sessions (length l)
        then (w, none)
        else (publish (begun w sandbox_id) sandbox_id, some w.seq))
      e

listed-begun :
    (w : World) (sandbox_id : String)
    → listed w sandbox_id ≡ []
    → listed (begun w sandbox_id) sandbox_id ≡ w.seq ∷ []
listed-begun w sandbox_id e =
    ap (λ m. get_or_else (get sandbox_id m) []) (connect-Frame (enlist w sandbox_id) w.seq).lists
    ∙ listed-enlist w sandbox_id
    ∙ ap (λ l. l ++ w.seq ∷ []) e

-- The session that is shown after the first one was opened.
abbrev opened_of : World → String → TermSession
opened_of w sandbox_id = ((begun w sandbox_id).heap w.seq).session

id-opened_of : (w : World) (sandbox_id : String) → (opened_of w sandbox_id).id ≡ w.seq
id-opened_of w sandbox_id =
    (connect-Frame (enlist w sandbox_id) w.seq).ids w.seq
    ∙ ap (λ b. (if b then fresh sandbox_id w.seq else w.heap w.seq).session.id) (==_refl w.seq)

active_one : (id : Option ℕ) (s : TermSession) → active id (s ∷ []) ≡ some s
unfolding active
active_one none s = refl
active_one (some id) s =
    if-intro (λ (o : Option TermSession). last_or o (s ∷ []) ≡ some s) (s.id == id) (λ _. refl)
      (λ _. refl)

effect-first :
    (w : World) (sandbox_id : String) (active_id : Option ℕ)
    → listed w sandbox_id ≡ []
    → sessions_of w sandbox_id ≡ []
    → effect true w sandbox_id active_id ≡ (publish (begun w sandbox_id) sandbox_id, some w.seq)
unfolding effect press_new
effect-first w sandbox_id active_id e n =
    ap (λ l. if length l == 0 then press_new w sandbox_id active_id else (w, active_id)) n
    ∙ ap (λ (r : World × Option ℕ). (r.0, kept r.1 active_id)) (open_session-first w sandbox_id e)

-- The tab of a running sandbox that has no session opens one unasked, and shows it: it is the only
-- session of the sandbox, under a number of its own.
pub effect-opens :
    (w : World) (sandbox_id : String) (active_id : Option ℕ)
    → listed w sandbox_id ≡ []
    → sessions_of w sandbox_id ≡ []
    → let r = effect true w sandbox_id active_id in
      (s : TermSession) × (sessions_of r.0 sandbox_id ≡ s ∷ [])
      × (s.id ≡ w.seq)
      × (active r.1 (sessions_of r.0 sandbox_id) ≡ some s)
effect-opens w sandbox_id active_id e n =
    let first : effect true w sandbox_id active_id
        ≡ (publish (begun w sandbox_id) sandbox_id, some w.seq) =
      effect-first w sandbox_id active_id e n in
    let shown : sessions_of (effect true w sandbox_id active_id).0 sandbox_id
        ≡ opened_of w sandbox_id ∷ [] =
      ap (λ (r : World × Option ℕ). sessions_of r.0 sandbox_id) first
      ∙ sessions_of-publish (begun w sandbox_id) sandbox_id
      ∙ ap (λ l. map (λ r. ((begun w sandbox_id).heap r).session) l)
          (listed-begun w sandbox_id e) in
    (
      opened_of w sandbox_id,
      shown,
      id-opened_of w sandbox_id,
      ap (λ l. active (effect true w sandbox_id active_id).1 l) shown ∙ active_one _ _,
    )

-- The world in which a session has been taken off the list and not yet published.
abbrev ended : World → String → ℕ → World
ended w sandbox_id r = unlist (retire "user closed" w r) sandbox_id r

listed-ended :
    (w : World) (sandbox_id : String) (r : ℕ)
    → listed w sandbox_id ≡ r ∷ []
    → listed (ended w sandbox_id r) sandbox_id ≡ []
unfolding retire
listed-ended w sandbox_id r e =
    rw (get-put sandbox_id sandbox_id, str_eq_refl sandbox_id)
      (ap (λ l. keep (λ x. not (x == r)) l) e ∙ rw (==_refl r) refl)

close_found-last :
    (w : World) (sandbox_id : String) (r : ℕ)
    → listed w sandbox_id ≡ r ∷ []
    → (listed (close_found w sandbox_id r) sandbox_id ≡ [])
      × (sessions_of (close_found w sandbox_id r) sandbox_id ≡ [])
unfolding close_found publish
close_found-last w sandbox_id r e = (
  listed-ended w sandbox_id r e,
  sessions_of-publish (ended w sandbox_id r) sandbox_id
      ∙ ap (λ l. map (λ x. ((ended w sandbox_id r).heap x).session) l)
          (listed-ended w sandbox_id r e),
)

close-last :
    (w : World) (sandbox_id : String) (r id : ℕ)
    → listed w sandbox_id ≡ r ∷ []
    → (w.heap r).session.id ≡ id
    → close w sandbox_id id ≡ close_found w sandbox_id r
unfolding close
close-last w sandbox_id r id e i =
    ap (λ (o : Option ℕ). elim o [ none ↦ w | some x ↦ close_found w sandbox_id x ])
      (ap (λ l. find (λ x. (w.heap x).session.id == id) l) e
        ∙ ap (λ b. if b then some r else none) ((==_iff _ id).1 i))

-- Closing the only session of a running sandbox leaves none for a moment, and the effect of the tab at
-- once opens another one, with a number of its own.
pub effect-press_close :
    (w : World) (sandbox_id : String) (r id : ℕ) (active_id : Option ℕ)
    → listed w sandbox_id ≡ r ∷ []
    → (w.heap r).session.id ≡ id
    → let closed = press_close w sandbox_id id active_id in
      let r = effect true closed.0 sandbox_id closed.1 in
      (sessions_of closed.0 sandbox_id ≡ [])
      × ((s : TermSession) × (sessions_of r.0 sandbox_id ≡ s ∷ [])
          × (s.id ≡ closed.0.seq)
          × (active r.1 (sessions_of r.0 sandbox_id) ≡ some s))
unfolding press_close
effect-press_close w sandbox_id r id active_id e i =
    let c : close w sandbox_id id ≡ close_found w sandbox_id r = close-last w sandbox_id r id e i in
    let l : listed (close w sandbox_id id) sandbox_id ≡ [] =
      ap (λ v. listed v sandbox_id) c ∙ (close_found-last w sandbox_id r e).0 in
    let n : sessions_of (close w sandbox_id id) sandbox_id ≡ [] =
      ap (λ v. sessions_of v sandbox_id) c ∙ (close_found-last w sandbox_id r e).1 in
    (n, effect-opens (close w sandbox_id id) sandbox_id _ l n)
