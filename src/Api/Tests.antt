-- ===== src/Api/Tests.antt =====
-- The calls of the control plane on concrete values.
use embervm.Prelude.{
  String, ◌≡◌, refl, some, none, ◌⊎◌, Option, List, [], ◌∷◌, str_eq, if◌then◌else◌, arith, ◌≤◌, ◌*◌,
  ◌+◌, leb,
}
use embervm.Api.Polling.{refetch_interval}
use embervm.Api.Optimistic.{QueryClient, on_mutate, on_error, on_error-on_mutate}
use embervm.Api.Client.{Response}
use embervm.Api.Calls.{request_of, snapshot, pause, text as text_value}
use embervm.Api.Routes.{handlers, handlers-request_of, pause_sandbox}
use embervm.Api.Format.{fmt_bytes, bytes_of, byte, kibibyte, byte_unit, fmt_bytes-bounds}
use embervm.Api.Token.{b64url, strip_padding, IsData}

interval-unknown : refetch_interval none ≡ 5000
unfolding refetch_interval
interval-unknown = refl

-- A cache that is a function and a list; a row is an id and a state.
abbrev Row : Type 0
Row = String × String

abbrev Cache : Type 0
Cache = (String → Option Row) × Option (List Row)

abbrev client : QueryClient Cache Row
client = record {
  get_one = λ c id. c.0 id;
  set_one = λ c id s. (λ j. if str_eq id j then some s else c.0 j, c.1);
  get_list = λ c. c.1;
  set_list = λ c l. (c.0, some l);
  get_one-set_one = λ c id j s. refl;
  get_one-set_list = λ c l j. refl;
  get_list-set_one = λ c id s. refl;
  get_list-set_list = λ c l. refl;
}

abbrev cache : Cache
cache = (
  λ j. if str_eq "b" j then some ("b", "RUNNING") else none,
  some (("a", "RUNNING") ∷ ("b", "RUNNING") ∷ []),
)

abbrev paused : Row → Row
paused r = (r.0, "PAUSING")

rows-paused :
    (on_mutate client (λ r. r.0) cache (some ("b", paused))).0.1
    ≡ some (("a", "RUNNING") ∷ ("b", "PAUSING") ∷ [])
unfolding on_mutate
rows-paused = refl

on_error-on_mutate_example :
    ((j : String)
      → (on_error client
            (λ r. r.0)
            (on_mutate client (λ r. r.0) cache (some ("b", paused))).0
            (some "b")
            (on_mutate client (λ r. r.0) cache (some ("b", paused))).1).0
          j
        ≡ cache.0 j)
    × ((on_error client
          (λ r. r.0)
          (on_mutate client (λ r. r.0) cache (some ("b", paused))).0
          (some "b")
          (on_mutate client (λ r. r.0) cache (some ("b", paused))).1).1
        ≡ cache.1)
on_error-on_mutate_example = on_error-on_mutate client (λ r. r.0) cache "b" paused

abbrev gone : Response
gone = record { status = 410; text = "{\"error\":\"gone\"}" }

body-snapshot :
    (request_of (λ path. path) (snapshot "sb1" "console")).body
    ≡ some (("tag", text_value "console") ∷ [])
unfolding request_of
body-snapshot = refl

handlers-request_of_example :
    handlers (request_of (λ path. path) (pause "sb1")) ≡ pause_sandbox ∷ []
handlers-request_of_example = handlers-request_of (λ path. path) (pause "sb1") refl

-- "a+/=" becomes "a-_".
b64url-symbols : b64url (97 ∷ 43 ∷ 47 ∷ 61 ∷ []) ≡ 97 ∷ 45 ∷ 95 ∷ []
unfolding b64url strip_padding
b64url-symbols = refl

not_padding : IsData 43
not_padding =
    ((λ e. absurd (omega arith)), (λ e. absurd (omega arith)), (λ e. absurd (omega arith)))

fmt_bytes-bounds_example :
    let (t, u) = fmt_bytes 1536 in
    let d = bytes_of u in
    (2 * (t * d) ≤ 20 * 1536 + (if leb (100 * d) 1536 then 10 * d else d))
    × (20 * 1536 ≤ 2 * (t * d) + (if leb (100 * d) 1536 then 10 * d else d))
    × ((d ≤ 1536) ⊎ (u ≡ byte))
fmt_bytes-bounds_example = fmt_bytes-bounds 1536

bytes-kibibytes : fmt_bytes 1536 ≡ (15, kibibyte)
unfolding fmt_bytes byte_unit
bytes-kibibytes = refl
