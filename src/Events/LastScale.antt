-- ===== src/Events/LastScale.antt =====
-- The newest scaling event of each sandbox.
use embervm.Prelude.{
  String, Bool, ◌&&◌, Option, none, some, List, [], ◌∷◌, find, get, put, get-put, str_eq,
  str_eq_iff, ◌≡◌, arith,
}
use embervm.Events.{SandboxEvent, is_resource, scale_from, last_scale}

-- `a ?? b`
abbrev first_of : Option SandboxEvent → Option SandboxEvent → Option SandboxEvent
first_of none b = b
first_of (some ev) b = some ev

abbrev pub is_scale_of : String → SandboxEvent → Bool
is_scale_of id ev = str_eq ev.sandbox_id id && is_resource ev

get-scale_from :
    (m : List (String × SandboxEvent)) (evs : List SandboxEvent) (id : String)
    → get id (scale_from m evs) ≡ first_of (get id m) (find (is_scale_of id) evs)
unfolding scale_from
get-scale_from m [] id = ground arith
get-scale_from m (ev ∷ evs) id = ground (
  arith,
  get-scale_from m evs id,
  get-scale_from (put ev.sandbox_id ev m) evs id,
  get-put ev.sandbox_id id ev m,
  str_eq_iff ev.sandbox_id id,
)

-- The event that the column shows for a sandbox is the first event of that sandbox in the feed that
-- describes a change of its resources: the newest, as the server lists the newest first.
pub get-last_scale :
    (events : List SandboxEvent) (id : String)
    → get id (last_scale events) ≡ find (is_scale_of id) events
unfolding last_scale get
get-last_scale events id = get-scale_from [] events id
