-- ===== src/Api/Calls.antt =====
-- The requests that the console sends: the queries and verbs of web/src/api/hooks.ts, the guest files of
-- web/src/lib/files.ts, the proxy session of web/src/lib/proxy.ts, the poll of web/src/lib/health.ts and
-- the connection of web/src/lib/term.ts, whose address begins with /v0 too. A path is given by its segments
-- after /v0, so an id or a tag is taken to have no slash; `encode` is `encodeURIComponent`.
use embervm.Prelude.{ℕ, String, Bool, Option, none, some, List, [], ◌∷◌, ◌++◌}

pub data Method : Type 0 where
  get_method post_method put_method delete_method : Method

-- A member of a JSON body; `number_text` is a number as it is printed.
pub data Value : Type 0 where
  text : String → Value
  number : ℕ → Value
  flag : Bool → Value
  texts : List String → Value

abbrev pub Fields : Type 0
Fields = List (String × Value)

pub record Request : Type 0 where
  pub method : Method
  pub path : List String
  pub query : List (String × String)
  pub body : Option Fields

-- A call that names one sandbox, template or nothing; the queries that poll, then the verbs.
pub data Call : Type 0 where
  sandboxes nodes templates storage_report : Call
  fleet_events : String → Call
  sandbox checkpoints sandbox_events storage : String → Call
  directory : String → String → Call
  pause resume kill restore_artifacts : String → Call
  snapshot rollback : String → String → Call
  resize : String → Option ℕ → Option ℕ → Call
  set_autoscale : String → Bool → Call
  migrate checkpoint fork : String → Option String → Call
  exec : String → String → List String → Fields → Call
  create_sandbox : Fields → Call
  create_template : String → String → Call
  delete_template : String → Call
  read_guest_file write_guest_file : String → String → Call
  start_proxy_session end_proxy_session : Call
  health : String → Call
  terminal : String → (cols rows : String) → Call

abbrev plain : Method → List String → Request
plain method path = record { method = method; path = path; query = []; body = none }

abbrev with_body : List String → Fields → Request
with_body path fields = record { method = post_method; path = path; query = []; body = some fields }

-- `x ? { name: x } : {}`; an empty string counts as none here.
abbrev optional : String → Option String → Fields
optional name none = []
optional name (some String.[]) = []
optional name (some (String.◌∷◌ c value)) = (name, text (String.◌∷◌ c value)) ∷ []

-- A member that is left out where it is undefined.
abbrev given : String → Option ℕ → Fields
given name none = []
given name (some n) = (name, number n) ∷ []

abbrev of_sandbox : String → String → List String
of_sandbox id verb = "sandboxes" ∷ id ∷ verb ∷ []

module _ (encode : String → String) where
  unfoldable pub request_of : Call → Request
  request_of sandboxes = plain get_method ("sandboxes" ∷ [])
  request_of nodes = plain get_method ("nodes" ∷ [])
  request_of templates = plain get_method ("templates" ∷ [])
  request_of storage_report = plain get_method ("storage-report" ∷ [])
  request_of (fleet_events limit) = record {
    method = get_method;
    path = "events" ∷ [];
    query = ("limit", limit) ∷ [];
    body = none;
  }
  request_of (sandbox id) = plain get_method ("sandboxes" ∷ id ∷ [])
  request_of (checkpoints id) = plain get_method (of_sandbox id "checkpoints")
  request_of (sandbox_events id) = plain get_method (of_sandbox id "events")
  request_of (storage id) = plain get_method (of_sandbox id "storage")
  request_of (directory id path) = record {
    method = get_method;
    path = of_sandbox id "files";
    query = ("op", "list") ∷ ("path", encode path) ∷ [];
    body = none;
  }
  request_of (pause id) = plain post_method (of_sandbox id "pause")
  request_of (resume id) = plain post_method (of_sandbox id "resume")
  request_of (kill id) = plain delete_method ("sandboxes" ∷ id ∷ [])
  request_of (restore_artifacts id) = plain post_method (of_sandbox id "restore-artifacts")
  request_of (snapshot id tag) = with_body (of_sandbox id "snapshot") (("tag", text tag) ∷ [])
  request_of (rollback id point) =
      with_body (of_sandbox id "rollback") (("checkpoint", text point) ∷ [])
  request_of (resize id memory_mib vcpus) =
      with_body (of_sandbox id "resize") (given "memory_mib" memory_mib ++ given "vcpus" vcpus)
  request_of (set_autoscale id on) =
      with_body (of_sandbox id "autoscale") (("autoscale", flag on) ∷ [])
  request_of (migrate id node_id) = with_body (of_sandbox id "migrate") (optional "node_id" node_id)
  request_of (checkpoint id tag) = with_body (of_sandbox id "checkpoints") (optional "tag" tag)
  request_of (fork id point) = with_body (of_sandbox id "fork") (optional "checkpoint" point)
  request_of (exec id cmd args opts) =
      with_body (of_sandbox id "exec") (("cmd", text cmd) ∷ ("args", texts args) ∷ opts)
  request_of (create_sandbox body) = with_body ("sandboxes" ∷ []) body
  request_of (create_template name image) =
      with_body ("templates" ∷ []) (("name", text name) ∷ ("image", text image) ∷ [])
  request_of (delete_template id) = plain delete_method ("templates" ∷ id ∷ [])
  request_of (read_guest_file id path) = record {
    method = get_method;
    path = of_sandbox id "files";
    query = ("path", encode path) ∷ [];
    body = none;
  }
  request_of (write_guest_file id path) = record {
    method = put_method;
    path = of_sandbox id "files";
    query = ("path", encode path) ∷ [];
    body = none;
  }
  request_of start_proxy_session = plain post_method ("proxy-session" ∷ [])
  request_of end_proxy_session = plain delete_method ("proxy-session" ∷ [])
  request_of (health id) = plain get_method (of_sandbox id "health")
  request_of (terminal id cols rows) = record {
    method = get_method;
    path = of_sandbox id "term";
    query = ("cols", cols) ∷ ("rows", rows) ∷ [];
    body = none;
  }
