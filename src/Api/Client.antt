-- ===== src/Api/Client.antt =====
-- The client of web/src/api/client.ts: what `api` and `apiRaw` make of a response, and what becomes of
-- the token. `fetch` and `JSON.parse` are parameters.
use embervm.Prelude.{
  ℕ, String, Bool, true, false, not, ◌&&◌, ◌≡◌, ◌≢◌, refl, ◌==◌, leb, if◌then◌else◌, Option, none,
  some, inl, inr, arith, Bool-cases, ◌+◌, ap, sym, ◌∙◌, Option-cases,
}

-- A response whose body has been read. `ok` is a status from 200 to 299.
pub record Response : Type 0 where
  pub status : ℕ
  pub text : String

abbrev pub ok : Response → Bool
ok resp = leb 200 resp.status && leb resp.status 299

-- The part of localStorage and of the event bus that a call can change: the token, and how often
-- "embervm:unauthorized" was dispatched.
pub record Session : Type 0 where
  pub token : Option String
  pub unauthorized : ℕ

unfoldable pub clear_token : Session → Session
clear_token s = record s { token = none }

-- The message of an `ApiError`: a literal, the text made of the status, or what the body says.
pub data Message : Type 0 where
  expired : Message
  http : ℕ → Message
  said : String → Message

pub record ApiError : Type 0 where
  pub status : ℕ
  pub message : Message

pub data Result (A : Type 0) : Type 0 where
  returned : A → Result A
  thrown : ApiError → Result A

unfoldable pub refuse_token : {A : Type 0} → Session → Session × Result A
unfolding clear_token
refuse_token s =
    let cleared = clear_token s in
    (
      record cleared { unauthorized = 1 + cleared.unauthorized },
      thrown (record { status = 401; message = expired }),
    )

-- `J` is the type of parsed JSON, `parse` is `JSON.parse`, `none` where it throws; `error_of` is
-- `String(data.error)` where the value is an object with a member of that name, and `truthy` tells
-- whether that member is truthy.
module _ {J : Type 0} (parse : String → Option J) (error_of : J → Option String)
    (truthy : J → Bool) where
  abbrev is_empty : String → Bool
  is_empty String.[] = true
  is_empty (String.◌∷◌ c s) = false

  -- `data`: `undefined` for an empty text and for one that is no JSON.
  unfoldable pub body_of : Response → Option J
  body_of resp = if is_empty resp.text then none else parse resp.text

  abbrev said_by : ℕ → Option String → Message
  said_by status none = http status
  said_by status (some m) = said m

  abbrev error_in : Option J → Option String
  error_in none = none
  error_in (some j) = error_of j

  -- `api`
  unfoldable pub api : Session → Response → Session × Result (Option J)
  unfolding body_of
  api s resp =
      if resp.status == 401
      then refuse_token s
      else if resp.status == 204
      then (s, returned none)
      else let found = body_of resp in
        if not (ok resp)
        then (
          s,
          thrown (record { status = resp.status; message = said_by resp.status (error_in found) }),
        )
        else (s, returned found)

  -- `data && data.error`
  abbrev truthy_error_in : Option J → Option String
  truthy_error_in none = none
  truthy_error_in (some j) = if truthy j then error_of j else none

  -- `apiRaw`; `resp.json()` throws for an empty text too.
  unfoldable pub api_raw : Session → Response → Session × Result Response
  api_raw s resp =
      if resp.status == 401
      then refuse_token s
      else if not (ok resp)
      then (
        s,
        thrown (record {
          status = resp.status;
          message = said_by resp.status (truthy_error_in (parse resp.text));
        }),
      )
      else (s, returned resp)

  -- The error of a result.
  abbrev pub error : {A : Type 0} → Result A → Option ApiError
  error (returned a) = none
  error (thrown e) = some e

  abbrev pub status_of : {A : Type 0} → Result A → Option ℕ
  status_of (returned a) = none
  status_of (thrown e) = some e.status

  -- A call of `api` fails exactly for the responses that are not ok, with the status of the response;
  -- it takes the token away exactly for a 401, then once tells the console so, and leaves the session
  -- alone otherwise.
  pub api-throws :
      (s : Session) (resp : Response)
      → (status_of (api s resp).1 ≡ (if ok resp then none else some resp.status))
        × ((api s resp).0 ≡ (
            if resp.status == 401
            then record { token = none; unauthorized = 1 + s.unauthorized }
            else s))
  unfolding api refuse_token clear_token
  api-throws s resp = (ground arith, ground arith)

  same_error :
      (o : Option J)
      → ((j : J) → o ≡ some j → error_of j ≢ none → truthy j ≡ true)
      → error_in o ≡ truthy_error_in o
  same_error none h = refl
  same_error (some j) h = elim (Bool-cases (truthy j)) [
    | inl t ↦ ap (λ b. if b then error_of j else none) (sym t)
    | inr f ↦ elim (Option-cases (error_of j)) [
      | inl e ↦ e ∙ sym (ap (λ b. if b then error_of j else none) f)
      | inr (m, e) ↦ absurd (cc (f, h j refl (λ n. cc (e, n))))
    ]
  ]

  same_body :
      (text : String)
      → parse "" ≡ none
      → ((j : J) → parse text ≡ some j → error_of j ≢ none → truthy j ≡ true)
      → error_in (if is_empty text then none else parse text) ≡ truthy_error_in (parse text)
  same_body String.[] p h = ap truthy_error_in (sym p)
  same_body (String.◌∷◌ c s) p h = same_error (parse (String.◌∷◌ c s)) h

  -- `api` and `apiRaw` refuse the same responses and leave the same session; they throw the same error
  -- unless the body has an `error` that is falsy, the empty string say.
  pub api-api_raw :
      (s : Session) (resp : Response)
      → parse "" ≡ none
      → ((j : J) → parse resp.text ≡ some j → error_of j ≢ none → truthy j ≡ true)
      → ((api s resp).0 ≡ (api_raw s resp).0) × (error (api s resp).1 ≡ error (api_raw s resp).1)
  unfolding api api_raw refuse_token clear_token body_of
  api-api_raw s resp p h = let same = same_body resp.text p h in (ground arith, ground arith)
