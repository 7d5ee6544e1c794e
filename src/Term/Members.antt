-- ===== src/Term/Members.antt =====
-- The map of sessions: at most six for a sandbox, each existing, open, and of that sandbox.
use embervm.Prelude.{
  ℕ, ◌≤◌, ◌<◌, String, false, not, Option, List, [], ◌∷◌, ◌++◌, get, put, remove, ◌==◌,
  if◌then◌else◌, get_or_else, ◌≡◌, ◌≢◌, refl, sym, subst, All-zip, ◌∙◌, arith, Bool-cases, if-intro,
  inl, inr, All, All-append, All-imp, All-keep, length, length-append, length-keep, keep, get-put,
  get-remove, str_eq, str_eq_iff,
}
use embervm.Term.{World, listed, publish, loaded, max_sessions}
use embervm.Term.Manager.{enlist, retire, retire_all, close_found, dispose_sandbox}
use embervm.Term.Frame.{Frame}

abbrev pub IsMember : World → String → ℕ → Type 0
IsMember w sandbox_id r =
    (r < w.seq)
    × ((w.heap r).session.sandbox_id ≡ sandbox_id)
    × ((w.heap r).user_closed ≡ false)
    × ((w.heap r).session.id ≡ r)

pub record MembersAgree (w : World) : Type 0 where
  pub members : (sandbox_id : String) → All (IsMember w sandbox_id) (listed w sandbox_id)
  pub capacity : (sandbox_id : String) → length (listed w sandbox_id) ≤ max_sessions

pub loaded-MembersAgree : (token : Option String) → MembersAgree (loaded token)
unfolding get
loaded-MembersAgree token = record { members = λ s. tt; capacity = λ s. omega arith }

pub Frame-MembersAgree : {w w' : World} → Frame w w' → MembersAgree w → MembersAgree w'
Frame-MembersAgree {w} {w'} f v = record {
  members = λ s.
      subst (λ (m : List (String × List ℕ)). All (IsMember w' s) (get_or_else (get s m) []))
        (sym f.lists)
        (All-imp
          (λ r h. (ground (arith, f.numbers), f.homes r ∙ h.1, f.closings r ∙ h.2, f.ids r ∙ h.3))
          (listed w s) (v.members s));
  capacity = λ s.
      subst (λ (m : List (String × List ℕ)). length (get_or_else (get s m) []) ≤ max_sessions)
        (sym f.lists) (v.capacity s);
}

-- The list of a sandbox after `put` and `remove`.
listed-put :
    (k s : String) (rs : List ℕ) (m : List (String × List ℕ))
    → get_or_else (get s (put k rs m)) [] ≡ (if str_eq k s then rs else get_or_else (get s m) [])
listed-put k s rs m = ground (arith, get-put k s rs m)

listed-remove :
    (k s : String) (m : List (String × List ℕ))
    → get_or_else (get s (remove k m)) [] ≡ (if str_eq k s then [] else get_or_else (get s m) [])
listed-remove k s m = ground (arith, get-remove k s m)

module _ (w : World) (v : MembersAgree w) (sandbox_id : String) where
  enlist-IsMember : (s : String) (r : ℕ) → IsMember w s r → IsMember (enlist w sandbox_id) s r
  enlist-IsMember s r h = (ground arith, ground arith, ground arith, ground arith)

  pub enlist-MembersAgree :
      length (listed w sandbox_id) < max_sessions → MembersAgree (enlist w sandbox_id)
  enlist-MembersAgree room = record {
    members = λ s. rw (listed-put sandbox_id s (listed w sandbox_id ++ w.seq ∷ []) w.by_sandbox) (
        if-intro (All (IsMember (enlist w sandbox_id) s)) (str_eq sandbox_id s)
          (λ e.
            let same : sandbox_id ≡ s = (str_eq_iff sandbox_id s).0 e in
            All-append _ (listed w sandbox_id) (w.seq ∷ [])
              (All-imp (λ r h. enlist-IsMember s r (h.0, h.1 ∙ same, h.2, h.3))
                (listed w sandbox_id) (v.members sandbox_id))
              ((ground arith, ground arith, ground arith, ground arith), tt))
          λ e. All-imp (enlist-IsMember s) (listed w s) (v.members s));
    capacity = λ s. rw (listed-put sandbox_id s (listed w sandbox_id ++ w.seq ∷ []) w.by_sandbox) (
        if-intro (λ rs. length rs ≤ max_sessions) (str_eq sandbox_id s)
          (λ e. omega (arith, length-append (listed w sandbox_id) (w.seq ∷ []))) λ e. v.capacity s);
  }

-- Another object is not touched when `r` is closed.
retire-IsMember :
    (w : World) (reason : String) (r x : ℕ) (s : String)
    → x ≢ r
    → IsMember w s x
    → IsMember (retire reason w r) s x
unfolding retire
retire-IsMember w reason r x s ne h = (h.0, ground arith, ground arith, ground arith)

All-ne-keep : (r : ℕ) (xs : List ℕ) → All (λ x. x ≢ r) (keep (λ x. not (x == r)) xs)
All-ne-keep r [] = tt
All-ne-keep r (x ∷ xs) = elim (Bool-cases (x == r)) [
  | inl e ↦ rw e (All-ne-keep r xs)
  | inr e ↦ rw e (ground arith, All-ne-keep r xs)
]

module _ (w : World) (v : MembersAgree w) (sandbox_id : String) where
  -- A member of another sandbox's list is another object.
  other_member :
      (r x : ℕ) (s : String)
      → IsMember w sandbox_id r
      → IsMember w s x
      → str_eq sandbox_id s ≡ false
      → x ≢ r
  other_member r x s h k e = ground (arith, str_eq_iff sandbox_id s)

  pub close_found-MembersAgree :
      (r : ℕ) → IsMember w sandbox_id r → MembersAgree (close_found w sandbox_id r)
  unfolding close_found publish retire
  close_found-MembersAgree r h =
      let rest : List ℕ = keep (λ x. not (x == r)) (listed w sandbox_id) in
      let w' : World = retire "user closed" w r in
      record {
        members = λ s. rw (listed-put sandbox_id s rest w.by_sandbox) (
            if-intro (All (IsMember w' s)) (str_eq sandbox_id s)
              (λ e.
                let same : sandbox_id ≡ s = (str_eq_iff sandbox_id s).0 e in
                All-zip
                  (λ x k ne. retire-IsMember w "user closed" r x s ne (k.0, k.1 ∙ same, k.2, k.3))
                  rest
                  (All-keep (IsMember w sandbox_id) _ (listed w sandbox_id) (v.members sandbox_id))
                  (All-ne-keep r (listed w sandbox_id)))
              λ e.
                All-imp (λ x k. retire-IsMember w "user closed" r x s (other_member r x s h k e) k)
                  (listed w s) (v.members s));
        capacity = λ s. rw (listed-put sandbox_id s rest w.by_sandbox) (
            if-intro (λ rs. length rs ≤ max_sessions) (str_eq sandbox_id s) {x = rest}
              (λ e. omega (
                arith,
                length-keep (λ x. not (x == r)) (listed w sandbox_id),
                v.capacity sandbox_id,
              ))
              λ e. v.capacity s);
      }

retire_all-IsMember :
    (w : World) (rs : List ℕ) (x : ℕ) (s : String)
    → All (λ r. x ≢ r) rs
    → IsMember w s x
    → IsMember (retire_all w rs) s x
unfolding retire_all
retire_all-IsMember w [] x s ne h = h
retire_all-IsMember w (r ∷ rs) x s ne h =
    retire_all-IsMember (retire "sandbox gone" w r) rs x s ne.1
      (retire-IsMember w "sandbox gone" r x s ne.0 h)

retire_all-by_sandbox : (w : World) (rs : List ℕ) → (retire_all w rs).by_sandbox ≡ w.by_sandbox
unfolding retire_all retire
retire_all-by_sandbox w [] = refl
retire_all-by_sandbox w (r ∷ rs) = retire_all-by_sandbox (retire "sandbox gone" w r) rs

pub dispose_sandbox-MembersAgree :
    (w : World) (sandbox_id : String) → MembersAgree w → MembersAgree (dispose_sandbox w sandbox_id)
unfolding dispose_sandbox publish
dispose_sandbox-MembersAgree w sandbox_id v =
    let rs : List ℕ = listed w sandbox_id in
    let w' : World = retire_all w rs in
    record {
      members = λ s.
          rw (retire_all-by_sandbox w rs, listed-remove sandbox_id s w.by_sandbox)
            (if-intro (All (IsMember w' s)) (str_eq sandbox_id s) (λ e. tt)
              λ e.
                All-imp
                  (λ x k.
                    retire_all-IsMember w rs x s
                      (All-imp (λ r h. other_member w v sandbox_id r x s h k e) rs
                        (v.members sandbox_id))
                      k)
                  (listed w s) (v.members s));
      capacity = λ s.
          rw (retire_all-by_sandbox w rs, listed-remove sandbox_id s w.by_sandbox)
            (if-intro (λ xs. length xs ≤ max_sessions) (str_eq sandbox_id s) {x = []}
              (λ e. omega arith) λ e. v.capacity s);
    }
