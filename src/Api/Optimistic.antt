-- ===== src/Api/Optimistic.antt =====
-- The optimistic change of `useSandboxAction` in web/src/api/hooks.ts: a mutation shows its effect on
-- the cached sandbox at once, and takes it back if the server refuses. The query cache is TanStack's;
-- what the code relies on is that a query's data is what was set last under its key.
use embervm.Prelude.{
  String, false, Option, none, some, List, map, ◌≡◌, refl, ◌∙◌, str_eq, str_eq_refl, str_eq_iff,
  Bool-cases, inl, inr, if◌then◌else◌, sym, ap,
}

-- The part of `QueryClient` that the hook uses, on the keys ["sandboxes", id] and ["sandboxes"].
pub record QueryClient (C S : Type 0) : Type 0 where
  pub get_one : C → String → Option S
  pub set_one : C → String → S → C
  pub get_list : C → Option (List S)
  pub set_list : C → List S → C
  pub get_one-set_one :
      (c : C) (id j : String) (s : S)
      → get_one (set_one c id s) j ≡ (if str_eq id j then some s else get_one c j)
  pub get_one-set_list : (c : C) (l : List S) (j : String) → get_one (set_list c l) j ≡ get_one c j
  pub get_list-set_one : (c : C) (id : String) (s : S) → get_list (set_one c id s) ≡ get_list c
  pub get_list-set_list : (c : C) (l : List S) → get_list (set_list c l) ≡ some l

-- What `onMutate` hands to `onError`.
pub record Context (S : Type 0) : Type 0 where
  pub prev_one : Option S
  pub prev_list : Option (List S)

module _ {C S : Type 0} (q : QueryClient C S) (id_of : S → String) where
  -- `prevList.map((sb) => (sb.id === id ? patch(sb) : sb))`
  abbrev pub patch_rows : String → (S → S) → List S → List S
  patch_rows id patch rows = map (λ sb. if str_eq (id_of sb) id then patch sb else sb) rows

  abbrev pub set_one_if : C → String → Option S → C
  set_one_if c id none = c
  set_one_if c id (some s) = q.set_one c id s

  abbrev set_list_if : C → Option (List S) → C
  set_list_if c none = c
  set_list_if c (some l) = q.set_list c l

  abbrev pub patched : (S → S) → Option S → Option S
  patched patch none = none
  patched patch (some s) = some (patch s)

  abbrev pub patched_rows : String → (S → S) → Option (List S) → Option (List S)
  patched_rows id patch none = none
  patched_rows id patch (some l) = some (patch_rows id patch l)

  -- `onMutate`, with the options' id and patch where both are given.
  unfoldable pub on_mutate : C → Option (String × (S → S)) → C × Context S
  on_mutate c none = (c, record { prev_one = none; prev_list = none })
  on_mutate c (some (id, patch)) =
      let prev_one = q.get_one c id in
      let prev_list = q.get_list c in
      (
        set_list_if (set_one_if c id (patched patch prev_one)) (patched_rows id patch prev_list),
        record { prev_one = prev_one; prev_list = prev_list },
      )

  -- The part of `onError` that concerns the cache; the id is that of the options.
  unfoldable pub on_error : C → Option String → Context S → C
  on_error c none ctx = set_list_if c ctx.prev_list
  on_error c (some id) ctx = set_list_if (set_one_if c id ctx.prev_one) ctx.prev_list

  pub get_list-set_one_if :
      (c : C) (id : String) (o : Option S) → q.get_list (set_one_if c id o) ≡ q.get_list c
  get_list-set_one_if c id none = refl
  get_list-set_one_if c id (some s) = q.get_list-set_one c id s

  get_one-set_list_if :
      (c : C) (l : Option (List S)) (j : String) → q.get_one (set_list_if c l) j ≡ q.get_one c j
  get_one-set_list_if c none j = refl
  get_one-set_list_if c (some l) j = q.get_one-set_list c l j

  get_one-set_one_if :
      (c : C) (id : String) (o : Option S) (patch : S → S)
      → q.get_one c id ≡ o
      → q.get_one (set_one_if c id (patched patch o)) id ≡ patched patch o
  get_one-set_one_if c id none patch e = e
  get_one-set_one_if c id (some s) patch e =
      q.get_one-set_one c id id (patch s)
      ∙ ap (λ b. if b then some (patch s) else q.get_one c id) (str_eq_refl id)

  pub get_one-set_one_if_other :
      (c : C) (id j : String) (o : Option S)
      → str_eq id j ≡ false
      → q.get_one (set_one_if c id o) j ≡ q.get_one c j
  get_one-set_one_if_other c id j none e = refl
  get_one-set_one_if_other c id j (some s) e =
      q.get_one-set_one c id j s ∙ ap (λ b. if b then some s else q.get_one c j) e

  get_list-set_list_if :
      (c : C) (id : String) (patch : S → S) (l : Option (List S))
      → q.get_list c ≡ l
      → q.get_list (set_list_if c (patched_rows id patch l)) ≡ patched_rows id patch l
  get_list-set_list_if c id patch none e = e
  get_list-set_list_if c id patch (some l) e = q.get_list-set_list c (patch_rows id patch l)

  -- Setting the data that a query had before brings it back under its own key and leaves the others.
  pub get_one-restored :
      (c d : C) (id : String) (o : Option S) (j : String)
      → q.get_one c id ≡ o
      → (str_eq id j ≡ false → q.get_one d j ≡ q.get_one c j)
      → (o ≡ none → q.get_one d j ≡ q.get_one c j)
      → q.get_one (set_one_if d id o) j ≡ q.get_one c j
  get_one-restored c d id none j e f g = g refl
  get_one-restored c d id (some s) j e f g = elim (Bool-cases (str_eq id j)) [
    | inl t ↦
        q.get_one-set_one d id j s
        ∙ ap (λ b. if b then some s else q.get_one d j) t
        ∙ sym e
        ∙ ap (q.get_one c) ((str_eq_iff id j).0 t)
    | inr n ↦ get_one-set_one_if_other d id j (some s) n ∙ f n
  ]

  get_list-restored :
      (c d : C) (id : String) (patch : S → S) (l : Option (List S)) (o : Option S)
      → q.get_list c ≡ l
      → q.get_list d ≡ l
      → q.get_list (set_list_if (set_one_if (set_list_if d (patched_rows id patch l)) id o) l)
        ≡ q.get_list c
  get_list-restored c d id patch none o e f = get_list-set_one_if d id o ∙ f ∙ sym e
  get_list-restored c d id patch (some l) o e f = q.get_list-set_list _ l ∙ sym e

  -- The cache while the mutation is under way: the sandbox's own query and its rows of the list show
  -- the patched sandbox, every other query and row what it showed; nothing is made up for a query that
  -- has no data.
  pub on_mutate-shows :
      (c : C) (id : String) (patch : S → S)
      → ((j : String)
          → q.get_one (on_mutate c (some (id, patch))).0 j
            ≡ (if str_eq id j then patched patch (q.get_one c id) else q.get_one c j))
        × (q.get_list (on_mutate c (some (id, patch))).0 ≡ patched_rows id patch (q.get_list c))
  unfolding on_mutate
  on_mutate-shows c id patch =
      let mid : C = set_one_if c id (patched patch (q.get_one c id)) in
      (
        λ j. get_one-set_list_if mid _ j ∙ shown j,
        get_list-set_list_if mid id patch (q.get_list c) (get_list-set_one_if c id _),
      )
    where
      shown :
          (j : String)
          → q.get_one (set_one_if c id (patched patch (q.get_one c id))) j
            ≡ (if str_eq id j then patched patch (q.get_one c id) else q.get_one c j)
      shown j = elim (Bool-cases (str_eq id j)) [
        | inl t ↦ rw t (
            ap (q.get_one (set_one_if c id (patched patch (q.get_one c id))))
              (sym ((str_eq_iff id j).0 t))
            ∙ get_one-set_one_if c id (q.get_one c id) patch refl)
        | inr n ↦ rw n (get_one-set_one_if_other c id j _ n)
      ]

  -- A refused mutation takes its change back: if nothing else wrote to the cache meanwhile, every
  -- query shows what it showed before, whatever the options are.
  pub on_error-on_mutate :
      (c : C) (id : String) (patch : S → S)
      → ((j : String)
          → q.get_one
              (on_error
                (on_mutate c (some (id, patch))).0
                (some id)
                (on_mutate c (some (id, patch))).1)
              j
            ≡ q.get_one c j)
        × (q.get_list (
              on_error
                (on_mutate c (some (id, patch))).0
                (some id)
                (on_mutate c (some (id, patch))).1)
            ≡ q.get_list c)
  unfolding on_mutate on_error
  on_error-on_mutate c id patch =
      let mid : C = set_one_if c id (patched patch (q.get_one c id)) in
      (
        λ j.
            get_one-set_list_if _ (q.get_list c) j
            ∙ get_one-restored c (set_list_if mid (patched_rows id patch (q.get_list c))) id
                (q.get_one c id) j refl
                (λ n. get_one-set_list_if mid _ j ∙ get_one-set_one_if_other c id j _ n)
                (λ e. get_one-set_list_if mid _ j ∙ same e j),
        get_list-restored c mid id patch (q.get_list c) (q.get_one c id) refl
            (get_list-set_one_if c id _),
      )
    where
      same :
          q.get_one c id ≡ none
          → (j : String)
          → q.get_one (set_one_if c id (patched patch (q.get_one c id))) j ≡ q.get_one c j
      same e j = ap (λ o. q.get_one (set_one_if c id (patched patch o)) j) e
