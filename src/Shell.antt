-- ===== src/Shell.antt =====
-- Signing in and out: the component `App` of web/src/App.tsx and the form of web/src/pages/Login.tsx, with
-- what the client of web/src/api/client.ts does to the token when any request is answered by 401.
pub mod Signed
pub mod Routed
pub mod Tests
use embervm.Prelude.{
  String, Bool, true, false, Option, none, some, List, [], ◌∷◌, if◌then◌else◌, ◌==◌, ◌||◌,
}
use embervm.Api.Client.{Session, Response, Result, returned, thrown, clear_token, api}
use embervm.Proxy.{end_proxy_session, on_unauthorized}
use embervm.Proxy

-- `busy` is the login form's, while its probe is under way. `cached` lists the tokens with which the data
-- of the query cache was fetched, newest first.
-- The terminals, which go at a 401 and at signing out, have their own model.
pub record Shell : Type 0 where
  pub session : Session
  pub authed : Bool
  pub busy : Bool
  pub cached : List (Option String)
  pub proxy : Proxy.World

-- What can happen: the form is sent with a trimmed token, its probe is answered, another request is, a
-- query has data that was asked for with a token, or the user signs out.
pub data Event : Type 0 where
  connected : String → Event
  probed : Response → Event
  answered : Response → Event
  fetched : Option String → Event
  signed_out : Event

-- `Boolean(getToken())`
abbrev has_text : Option String → Bool
has_text none = false
has_text (some String.[]) = false
has_text (some (String.◌∷◌ c s)) = true

-- The page when it is loaded.
unfoldable pub loaded : Option String → Shell
loaded token = record {
  session = record { token = token; unauthorized = 0 };
  authed = has_text token;
  busy = false;
  cached = [];
  proxy = Proxy.loaded;
}

-- The listeners of "embervm:unauthorized": those of `App`, of the terminals and of the proxy's session.
unfoldable pub on_refused : Shell → Shell
unfolding on_unauthorized
on_refused w = record w { authed = false; proxy = on_unauthorized w.proxy }

-- `connect` up to the probe, which the form sends while it is shown and not busy.
unfoldable pub connect : Shell → String → Shell
connect w token =
    if w.authed || w.busy
    then w
    else record w { session = record w.session { token = some token }; busy = true }

-- The button Sign out.
unfoldable pub sign_out : Shell → Shell
unfolding end_proxy_session clear_token
sign_out w = record w {
  proxy = end_proxy_session w.proxy;
  session = clear_token w.session;
  cached = [];
  authed = false;
}

module _ {J : Type 0} (parse : String → Option J) (error_of : J → Option String)
    (truthy : J → Bool) where
  -- What any call of `api` does to the page.
  unfoldable pub receive : Shell → Response → Shell
  unfolding api on_refused
  receive w resp =
      let told : Shell = record w { session = (api parse error_of truthy w.session resp).0 } in
      if resp.status == 401 then on_refused told else told

  abbrev pub is_returned : {A : Type 0} → Result A → Bool
  is_returned (returned a) = true
  is_returned (thrown e) = false

  -- The rest of `connect`, with the answer to the probe: `onDone`, and `finally`.
  unfoldable pub finish : Shell → Response → Shell
  unfolding receive
  finish w resp =
      let told : Shell = receive w resp in
      if is_returned (api parse error_of truthy w.session resp).1
      then record told { authed = true; busy = false }
      else record told { busy = false }

  unfoldable pub step : Shell → Event → Shell
  unfolding connect finish receive sign_out
  step w (connected token) = connect w token
  step w (probed resp) = if w.busy then finish w resp else w
  step w (answered resp) = receive w resp
  step w (fetched token) = record w { cached = token ∷ w.cached }
  step w signed_out = if w.authed then sign_out w else w

  unfoldable pub run : Shell → List Event → Shell
  unfolding step
  run w [] = w
  run w (e ∷ es) = run (step w e) es
