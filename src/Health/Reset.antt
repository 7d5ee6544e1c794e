-- ===== src/Health/Reset.antt =====
-- The timeout of an entry that was forgotten at logout.
use embervm.Prelude.{
  ℕ, String, none, some, List, [], ◌∷◌, get, put, remove, ◌≡◌, arith, str_eq_refl,
}
use embervm.Health.{Event, subscribed, unsubscribed, unauthorized, step, run, loaded, collect}

-- The events of a logout, of leaving the workspace, and of opening it again after a login.
abbrev pub relogin : (H : Type 0) → String → ℕ → ℕ → List (Event H)
relogin H id before after =
    subscribed id before ∷ unauthorized ∷ unsubscribed id 0 before ∷ subscribed id after ∷ []

-- A workspace is open at a logout, is left, and is opened again after the login before the timeout that
-- it left has fired: then the new workspace has its entry until that timeout, which drops it although
-- the new workspace still listens to it.
pub relogin_loses_entry :
    (H : Type 0) (id : String) (before after : ℕ)
    → (get id (run (loaded {H = H}) (relogin H id before after)).entries ≡ some 1)
      × (((run (loaded {H = H}) (relogin H id before after)).heap 1).listeners ≡ after ∷ [])
      × (get id (collect (run (loaded {H = H}) (relogin H id before after)) 1).entries ≡ none)
      × (((collect (run (loaded {H = H}) (relogin H id before after)) 1).heap 1).listeners
          ≡ after ∷ [])
unfolding step collect get put remove
relogin_loses_entry H id before after = ground (arith, str_eq_refl id)
