-- ===== src/Api/Routes.antt =====
-- The routes of the control plane, `Handler` of pkg/controlplane/server.go, and the console's requests.
use embervm.Prelude.{
  String, Bool, true, false, not, ◌&&◌, List, [], ◌∷◌, map, keep, str_eq, ◌≡◌, refl,
}
use embervm.Api.Calls.{
  Method, get_method, post_method, put_method, delete_method, Request, Call, request_of, sandboxes,
  nodes, templates, storage_report, fleet_events, sandbox, checkpoints, sandbox_events, storage,
  directory, pause, resume, kill, restore_artifacts, snapshot, rollback, resize, set_autoscale,
  migrate, checkpoint, fork, exec, create_sandbox, create_template, delete_template,
  read_guest_file, write_guest_file, start_proxy_session, end_proxy_session, health, terminal,
}

abbrev pub is_empty : String → Bool
is_empty String.[] = true
is_empty (String.◌∷◌ c s) = false

-- A part of a route: a literal, or a parameter such as `:id`, which takes one segment that is not
-- empty.
pub data Part : Type 0 where
  lit : String → Part
  param : Part

pub data Handler : Type 0 where
  create_proxy_session delete_proxy_session list_events : Handler
  post_template list_templates get_template remove_template : Handler
  post_sandbox list_sandboxes get_sandbox pause_sandbox resume_sandbox snapshot_sandbox : Handler
  resize_sandbox autoscale_sandbox migrate_sandbox kill_sandbox create_checkpoint : Handler
  list_checkpoints fork_sandbox rollback_sandbox sandbox_storage storage_report_all : Handler
  list_nodes restore_sandbox_artifacts exec_sandbox read_file write_file sandbox_health : Handler
  term_sandbox sandbox_event_list : Handler

pub record Route : Type 0 where
  pub method : Method
  pub parts : List Part
  pub handler : Handler

abbrev on : Method → List Part → Handler → Route
on method parts handler = record { method = method; parts = parts; handler = handler }

abbrev verb : Method → String → Handler → Route
verb method name handler = on method (lit "sandboxes" ∷ param ∷ lit name ∷ []) handler

-- The routes of the group /v0 in their order, without the proxy's, whose paths have five segments or
-- more.
abbrev pub routes : List Route
routes =
    on post_method (lit "proxy-session" ∷ []) create_proxy_session
    ∷ on delete_method (lit "proxy-session" ∷ []) delete_proxy_session
    ∷ on get_method (lit "events" ∷ []) list_events
    ∷ on post_method (lit "templates" ∷ []) post_template
    ∷ on get_method (lit "templates" ∷ []) list_templates
    ∷ on get_method (lit "templates" ∷ param ∷ []) get_template
    ∷ on delete_method (lit "templates" ∷ param ∷ []) remove_template
    ∷ on post_method (lit "sandboxes" ∷ []) post_sandbox
    ∷ on get_method (lit "sandboxes" ∷ []) list_sandboxes
    ∷ on get_method (lit "sandboxes" ∷ param ∷ []) get_sandbox
    ∷ verb post_method "pause" pause_sandbox
    ∷ verb post_method "resume" resume_sandbox
    ∷ verb post_method "snapshot" snapshot_sandbox
    ∷ verb post_method "resize" resize_sandbox
    ∷ verb post_method "autoscale" autoscale_sandbox
    ∷ verb post_method "migrate" migrate_sandbox
    ∷ on delete_method (lit "sandboxes" ∷ param ∷ []) kill_sandbox
    ∷ verb post_method "checkpoints" create_checkpoint
    ∷ verb get_method "checkpoints" list_checkpoints
    ∷ verb post_method "fork" fork_sandbox
    ∷ verb post_method "rollback" rollback_sandbox
    ∷ verb get_method "storage" sandbox_storage
    ∷ on get_method (lit "storage-report" ∷ []) storage_report_all
    ∷ on get_method (lit "nodes" ∷ []) list_nodes
    ∷ verb post_method "restore-artifacts" restore_sandbox_artifacts
    ∷ verb post_method "exec" exec_sandbox
    ∷ verb get_method "files" read_file
    ∷ verb put_method "files" write_file
    ∷ verb get_method "health" sandbox_health
    ∷ verb get_method "term" term_sandbox
    ∷ verb get_method "events" sandbox_event_list
    ∷ []

abbrev same_method : Method → Method → Bool
same_method get_method get_method = true
same_method post_method post_method = true
same_method put_method put_method = true
same_method delete_method delete_method = true
same_method _ _ = false

abbrev fits : Part → String → Bool
fits (lit name) segment = str_eq name segment
fits param segment = not (is_empty segment)

abbrev fit : List Part → List String → Bool
fit [] [] = true
fit [] (s ∷ path) = false
fit (p ∷ parts) [] = false
fit (p ∷ parts) (s ∷ path) = fits p s && fit parts path

-- The handlers whose route a request fits.
unfoldable pub handlers : Request → List Handler
handlers r =
    map (λ t. t.handler) (keep (λ t. same_method t.method r.method && fit t.parts r.path) routes)

-- What a call is meant to reach.
abbrev pub meant : Call → Handler
meant sandboxes = list_sandboxes
meant nodes = list_nodes
meant templates = list_templates
meant storage_report = storage_report_all
meant (fleet_events limit) = list_events
meant (sandbox id) = get_sandbox
meant (checkpoints id) = list_checkpoints
meant (sandbox_events id) = sandbox_event_list
meant (storage id) = sandbox_storage
meant (directory id path) = read_file
meant (pause id) = pause_sandbox
meant (resume id) = resume_sandbox
meant (kill id) = kill_sandbox
meant (restore_artifacts id) = restore_sandbox_artifacts
meant (snapshot id tag) = snapshot_sandbox
meant (rollback id point) = rollback_sandbox
meant (resize id memory_mib vcpus) = resize_sandbox
meant (set_autoscale id state) = autoscale_sandbox
meant (migrate id node_id) = migrate_sandbox
meant (checkpoint id tag) = create_checkpoint
meant (fork id point) = fork_sandbox
meant (exec id cmd args opts) = exec_sandbox
meant (create_sandbox body) = post_sandbox
meant (create_template name image) = post_template
meant (delete_template id) = remove_template
meant (read_guest_file id path) = read_file
meant (write_guest_file id path) = write_file
meant start_proxy_session = create_proxy_session
meant end_proxy_session = delete_proxy_session
meant (health id) = sandbox_health
meant (terminal id cols rows) = term_sandbox

-- The sandbox or template that a call names.
abbrev pub subject : Call → String
subject (sandbox id) = id
subject (checkpoints id) = id
subject (sandbox_events id) = id
subject (storage id) = id
subject (directory id path) = id
subject (pause id) = id
subject (resume id) = id
subject (kill id) = id
subject (restore_artifacts id) = id
subject (snapshot id tag) = id
subject (rollback id point) = id
subject (resize id memory_mib vcpus) = id
subject (set_autoscale id state) = id
subject (migrate id node_id) = id
subject (checkpoint id tag) = id
subject (fork id point) = id
subject (exec id cmd args opts) = id
subject (delete_template id) = id
subject (read_guest_file id path) = id
subject (write_guest_file id path) = id
subject (health id) = id
subject (terminal id cols rows) = id
subject _ = "none"

-- Every request that the console's code sends to the server under /v0, apart from what the frame of the
-- preview loads through the proxy: if its id is not empty, it fits exactly one route of the server, that of the
-- handler it is meant for.
pub handlers-request_of :
    (encode : String → String) (c : Call)
    → is_empty (subject c) ≡ false
    → handlers (request_of encode c) ≡ meant c ∷ []
unfolding handlers request_of
handlers-request_of encode sandboxes h = refl
handlers-request_of encode nodes h = refl
handlers-request_of encode templates h = refl
handlers-request_of encode storage_report h = refl
handlers-request_of encode (fleet_events limit) h = refl
handlers-request_of encode (sandbox String.[]) h = absurd (cc h)
handlers-request_of encode (sandbox (String.◌∷◌ c s)) h = refl
handlers-request_of encode (checkpoints String.[]) h = absurd (cc h)
handlers-request_of encode (checkpoints (String.◌∷◌ c s)) h = refl
handlers-request_of encode (sandbox_events String.[]) h = absurd (cc h)
handlers-request_of encode (sandbox_events (String.◌∷◌ c s)) h = refl
handlers-request_of encode (storage String.[]) h = absurd (cc h)
handlers-request_of encode (storage (String.◌∷◌ c s)) h = refl
handlers-request_of encode (directory String.[] path) h = absurd (cc h)
handlers-request_of encode (directory (String.◌∷◌ c s) path) h = refl
handlers-request_of encode (pause String.[]) h = absurd (cc h)
handlers-request_of encode (pause (String.◌∷◌ c s)) h = refl
handlers-request_of encode (resume String.[]) h = absurd (cc h)
handlers-request_of encode (resume (String.◌∷◌ c s)) h = refl
handlers-request_of encode (kill String.[]) h = absurd (cc h)
handlers-request_of encode (kill (String.◌∷◌ c s)) h = refl
handlers-request_of encode (restore_artifacts String.[]) h = absurd (cc h)
handlers-request_of encode (restore_artifacts (String.◌∷◌ c s)) h = refl
handlers-request_of encode (snapshot String.[] tag) h = absurd (cc h)
handlers-request_of encode (snapshot (String.◌∷◌ c s) tag) h = refl
handlers-request_of encode (rollback String.[] point) h = absurd (cc h)
handlers-request_of encode (rollback (String.◌∷◌ c s) point) h = refl
handlers-request_of encode (resize String.[] memory_mib vcpus) h = absurd (cc h)
handlers-request_of encode (resize (String.◌∷◌ c s) memory_mib vcpus) h = refl
handlers-request_of encode (set_autoscale String.[] state) h = absurd (cc h)
handlers-request_of encode (set_autoscale (String.◌∷◌ c s) state) h = refl
handlers-request_of encode (migrate String.[] node_id) h = absurd (cc h)
handlers-request_of encode (migrate (String.◌∷◌ c s) node_id) h = refl
handlers-request_of encode (checkpoint String.[] tag) h = absurd (cc h)
handlers-request_of encode (checkpoint (String.◌∷◌ c s) tag) h = refl
handlers-request_of encode (fork String.[] point) h = absurd (cc h)
handlers-request_of encode (fork (String.◌∷◌ c s) point) h = refl
handlers-request_of encode (exec String.[] cmd args opts) h = absurd (cc h)
handlers-request_of encode (exec (String.◌∷◌ c s) cmd args opts) h = refl
handlers-request_of encode (create_sandbox body) h = refl
handlers-request_of encode (create_template name image) h = refl
handlers-request_of encode (delete_template String.[]) h = absurd (cc h)
handlers-request_of encode (delete_template (String.◌∷◌ c s)) h = refl
handlers-request_of encode (read_guest_file String.[] path) h = absurd (cc h)
handlers-request_of encode (read_guest_file (String.◌∷◌ c s) path) h = refl
handlers-request_of encode (write_guest_file String.[] path) h = absurd (cc h)
handlers-request_of encode (write_guest_file (String.◌∷◌ c s) path) h = refl
handlers-request_of encode start_proxy_session h = refl
handlers-request_of encode end_proxy_session h = refl
handlers-request_of encode (health String.[]) h = absurd (cc h)
handlers-request_of encode (health (String.◌∷◌ c s)) h = refl
handlers-request_of encode (terminal String.[] cols rows) h = absurd (cc h)
handlers-request_of encode (terminal (String.◌∷◌ c s) cols rows) h = refl
