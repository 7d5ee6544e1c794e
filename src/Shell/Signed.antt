-- ===== src/Shell/Signed.antt =====
-- Who is signed in, and with which token.
use embervm.Prelude.{
  String, Bool, true, false, not, Option, none, some, List, [], ◌∷◌, if◌then◌else◌, ◌==◌, is_some,
  ◌≡◌, refl, arith, if-intro, ◌||◌, ◌&&◌,
}
use embervm.Api.Client.{Response, refuse_token, clear_token, api, ok}
use embervm.Shell.{
  Shell, Event, connected, probed, answered, fetched, signed_out, loaded, connect, finish, receive,
  on_refused, sign_out, step, run,
}

module _ {J : Type 0} (parse : String → Option J) (error_of : J → Option String)
    (truthy : J → Bool) where
  -- A request other than the probe is answered by 401 while the form waits for its probe.
  abbrev pub IsTimely : Shell → Event → Type 0
  IsTimely w (answered resp) = (w.busy && resp.status == 401) ≡ false
  IsTimely w _ = Unit

  abbrev pub IsOrderly : Shell → List Event → Type 0
  IsOrderly w [] = Unit
  IsOrderly w (e ∷ es) = IsTimely w e × IsOrderly (step parse error_of truthy w e) es

  abbrev is_signed : Shell → Bool
  is_signed w = (not (w.authed || w.busy) || is_some w.session.token) && not (w.authed && w.busy)

  -- A response, told by its status alone.
  receive-token :
      (w : Shell) (resp : Response)
      → (receive parse error_of truthy w resp).session.token
        ≡ (if resp.status == 401 then none else w.session.token)
  unfolding receive on_refused api refuse_token clear_token
  receive-token w resp = ground arith

  receive-form :
      (w : Shell) (resp : Response)
      → ((receive parse error_of truthy w resp).authed
          ≡ (if resp.status == 401 then false else w.authed))
        × ((receive parse error_of truthy w resp).busy ≡ w.busy)
        × ((receive parse error_of truthy w resp).cached ≡ w.cached)
  unfolding receive on_refused
  receive-form w resp = (ground arith, ground arith, ground arith)

  finish-signed :
      (w : Shell) (resp : Response)
      → w.busy ≡ true
      → is_signed w ≡ true
      → is_signed (finish parse error_of truthy w resp) ≡ true
  unfolding finish receive on_refused api refuse_token clear_token
  finish-signed w resp b h = ground arith

  step-signed :
      (w : Shell) (e : Event)
      → IsTimely w e
      → is_signed w ≡ true
      → is_signed (step parse error_of truthy w e) ≡ true
  unfolding step connect sign_out
  step-signed w (connected token) k h = ground arith
  step-signed w (probed resp) k h =
      if-intro (λ v. is_signed v ≡ true) w.busy (λ b. finish-signed w resp b h) (λ n. h)
  step-signed w (answered resp) k h =
      let (a, b, c) = receive-form w resp in ground (arith, receive-token w resp)
  step-signed w (fetched token) k h = h
  step-signed w signed_out k h = ground arith

  run-signed_from :
      (w : Shell) (es : List Event)
      → IsOrderly w es
      → is_signed w ≡ true
      → is_signed (run parse error_of truthy w es) ≡ true
  unfolding run
  run-signed_from w [] k h = h
  run-signed_from w (e ∷ es) k h =
      run-signed_from (step parse error_of truthy w e) es k.1 (step-signed w e k.0 h)

  loaded-signed : (token : Option String) → is_signed (loaded token) ≡ true
  unfolding loaded
  loaded-signed none = refl
  loaded-signed (some String.[]) = refl
  loaded-signed (some (String.◌∷◌ c s)) = refl

  token_of_signed :
      (w : Shell) → is_signed w ≡ true → w.authed ≡ true → is_some w.session.token ≡ true
  token_of_signed w h a = ground arith

  -- However the page is used, while it shows the console and not the form it has a token, if no request
  -- but the probe is answered by 401 while the form waits for its probe.
  pub run-token :
      (token : Option String) (es : List Event)
      → IsOrderly (loaded token) es
      → (run parse error_of truthy (loaded token) es).authed ≡ true
      → is_some (run parse error_of truthy (loaded token) es).session.token ≡ true
  run-token token es k a =
      token_of_signed (run parse error_of truthy (loaded token) es)
        (run-signed_from (loaded token) es k (loaded-signed token)) a

  -- A request that was sent with the expired token and is answered by 401 only after the form was sent
  -- takes the new token away: the probe succeeds, the console is shown, and no token is left.
  pub late_refusal :
      (old : Option String) (new : String) (refused fine : Response)
      → refused.status ≡ 401
      → ok fine ≡ true
      → let w =
          run parse error_of truthy
            (loaded old)
            (answered refused ∷ connected new ∷ answered refused ∷ probed fine ∷ []) in
        (w.authed ≡ true) × (w.session.token ≡ none)
  unfolding run step connect finish receive on_refused loaded api refuse_token clear_token
  late_refusal old new refused fine r f = (ground arith, ground arith)

  -- What the queries have fetched outlives a 401: whoever signs in next in the same page finds it in the
  -- cache, while signing out empties it.
  pub cached-sign_in :
      (w : Shell) (new : String) (refused fine : Response)
      → w.authed ≡ true
      → w.busy ≡ false
      → refused.status ≡ 401
      → ok fine ≡ true
      → let after_401 =
          run parse error_of truthy w (answered refused ∷ connected new ∷ probed fine ∷ []) in
        let after_out =
          run parse error_of truthy w (signed_out ∷ connected new ∷ probed fine ∷ []) in
        (after_401.session.token ≡ some new)
        × (after_401.cached ≡ w.cached)
        × (after_out.session.token ≡ some new)
        × (after_out.cached ≡ [])
  unfolding run step connect finish receive on_refused sign_out api refuse_token clear_token
  cached-sign_in w new refused fine a b r f =
      (ground arith, ground arith, ground arith, ground arith)
