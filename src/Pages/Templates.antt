-- ===== src/Pages/Templates.antt =====
-- The page of templates, web/src/pages/Templates.tsx: its form, its drawer and the question before a
-- template is deleted. `trim` is JavaScript's.
use embervm.Prelude.{
  String, Bool, true, false, not, ◌&&◌, Option, none, some, List, [], ◌∷◌, keep, str_eq,
  str_eq_refl, is_among, All, All-imp, if◌then◌else◌, Bool-cases, inl, inr, ◌≡◌, refl, arith,
}
use embervm.Api.{Sandbox}

pub data TemplateState : Type 0 where
  building ready error : TemplateState

pub record Template : Type 0 where
  pub id : String
  pub name : String
  pub image : String
  pub state : TemplateState

-- The state of the component with the requests that it has sent.
pub record Page : Type 0 where
  pub name : String
  pub image : String
  pub detail : Option Template
  pub confirm_del : Option Template
  pub builds : List (String × String)
  pub deletes : List String

abbrev pub initial : Page
initial = record {
  name = "";
  image = "";
  detail = none;
  confirm_del = none;
  builds = [];
  deletes = [];
}

-- The fields are typed into, the form is sent, a build has succeeded, a template's name is clicked, the
-- drawer is closed, a button Delete is pressed, and the question is answered.
pub data Event : Type 0 where
  named imaged : String → Event
  submitted built drawer_closed confirmed declined : Event
  shown asked : Template → Event

abbrev empty : String → Bool
empty s = str_eq s ""

-- `if (confirmDel) del.mutate(confirmDel.id)`
abbrev deleting : Option Template → List String → List String
deleting none deletes = deletes
deleting (some tpl) deletes = tpl.id ∷ deletes

module _ (trim : String → String) where
  -- `onSubmit`
  unfoldable pub submit : Page → Page
  submit p =
      if not (empty (trim p.name)) && not (empty (trim p.image))
      then record p { builds = (trim p.name, trim p.image) ∷ p.builds }
      else p

  -- `onConfirm`
  unfoldable pub confirm : Page → Page
  confirm p = record p {
    confirm_del = none;
    detail = none;
    deletes = deleting p.confirm_del p.deletes;
  }

  unfoldable pub step : Page → Event → Page
  unfolding submit confirm
  step p (named s) = record p { name = s }
  step p (imaged s) = record p { image = s }
  step p submitted = submit p
  step p built = record p { name = ""; image = "" }
  step p (shown tpl) = record p { detail = some tpl }
  step p drawer_closed = record p { detail = none }
  step p (asked tpl) = record p { confirm_del = some tpl }
  step p confirmed = confirm p
  step p declined = record p { confirm_del = none }

  unfoldable pub run : Page → List Event → Page
  unfolding step
  run p [] = p
  run p (e ∷ es) = run (step p e) es

  -- `usedBy`
  unfoldable pub used_by : Template → List Sandbox → List Sandbox
  used_by tpl sandboxes = keep (λ (sb : Sandbox). str_eq sb.template_id tpl.id) sandboxes

-- The ids of the templates that a button Delete was pressed for.
abbrev pub asked_of : List Event → List String
asked_of [] = []
asked_of (asked tpl ∷ es) = tpl.id ∷ asked_of es
asked_of (_ ∷ es) = asked_of es

abbrev asked_about : (String → Bool) → Option Template → Bool
asked_about K none = true
asked_about K (some tpl) = K tpl.id

-- What was sent is not empty, and what is deleted or asked about is in K.
abbrev Sent : (String → Bool) → Page → Type 0
Sent K p =
    All (λ (b : String × String). (str_eq b.0 "" ≡ false) × (str_eq b.1 "" ≡ false)) p.builds
    × All (λ id. K id ≡ true) p.deletes
    × (asked_about K p.confirm_del ≡ true)

module _ (trim : String → String) (K : String → Bool) where
  submit-Sent : (p : Page) → Sent K p → Sent K (submit trim p)
  unfolding submit
  submit-Sent p h = elim (Bool-cases (not (empty (trim p.name)) && not (empty (trim p.image)))) [
    | inl e ↦ rw e (((ground arith, ground arith), h.0), h.1, h.2)
    | inr n ↦ rw n h
  ]

  confirm-Sent : (p : Page) → Sent K p → Sent K (confirm trim p)
  unfolding confirm
  confirm-Sent p h = (h.0, deleting-All p.confirm_del p.deletes h.2 h.1, refl)
    where
      deleting-All :
          (c : Option Template) (ids : List String)
          → asked_about K c ≡ true
          → All (λ id. K id ≡ true) ids
          → All (λ id. K id ≡ true) (deleting c ids)
      deleting-All none ids e h = h
      deleting-All (some tpl) ids e h = (e, h)

  step-Sent :
      (p : Page) (e : Event) (es : List Event)
      → Sent K p
      → All (λ id. K id ≡ true) (asked_of (e ∷ es))
      → Sent K (step trim p e) × All (λ id. K id ≡ true) (asked_of es)
  unfolding step
  step-Sent p (named s) es h k = (h, k)
  step-Sent p (imaged s) es h k = (h, k)
  step-Sent p submitted es h k = (submit-Sent p h, k)
  step-Sent p built es h k = (h, k)
  step-Sent p (shown tpl) es h k = (h, k)
  step-Sent p drawer_closed es h k = (h, k)
  step-Sent p (asked tpl) es h k = ((h.0, h.1, k.0), k.1)
  step-Sent p confirmed es h k = (confirm-Sent p h, k)
  step-Sent p declined es h k = ((h.0, h.1, refl), k)

  run-Sent :
      (p : Page) (es : List Event)
      → Sent K p
      → All (λ id. K id ≡ true) (asked_of es)
      → Sent K (run trim p es)
  unfolding run
  run-Sent p [] h k = h
  run-Sent p (e ∷ es) h k = let (h', k') = step-Sent p e es h k in run-Sent (step trim p e) es h' k'

All-is_among : (ids : List String) → All (λ id. is_among ids id ≡ true) ids
All-is_among [] = tt
All-is_among (id ∷ ids) =
    (ground (arith, str_eq_refl id), All-imp (λ j e. ground (arith, e)) ids (All-is_among ids))

-- Whatever happens on the page, each template that it has asked the server to delete is one whose button
-- Delete was pressed, and each template that it has asked to build has a name and an image that are not
-- empty.
pub run-builds_deletes :
    (trim : String → String) (es : List Event)
    → let page = run trim initial es in
      All (λ (b : String × String). (str_eq b.0 "" ≡ false) × (str_eq b.1 "" ≡ false)) page.builds
      × All (λ id. is_among (asked_of es) id ≡ true) page.deletes
run-builds_deletes trim es =
    let h : Sent (λ id. is_among (asked_of es) id) (run trim initial es) =
      run-Sent trim (λ id. is_among (asked_of es) id) initial es (tt, tt, refl)
        (All-is_among (asked_of es)) in
    (h.0, h.1)
