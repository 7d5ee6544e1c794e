-- ===== src/Api/Token.antt =====
-- The encoding of the token for the WebSocket, `b64url` of web/src/api/client.ts, of what `btoa` made of
-- its bytes.
use embervm.Prelude.{
  ℕ, Bool, true, false, [], ◌∷◌, ◌++◌, map, Text, All, ◌==◌, if◌then◌else◌, ◌≡◌, ◌≢◌, refl, ap₂,
  arith,
}

abbrev is_nil : Text → Bool
is_nil [] = true
is_nil (c ∷ s) = false

-- `s.replace(/\+/g, "-").replace(/\//g, "_")`
abbrev pub url_safe : ℕ → ℕ
url_safe c = if c == 43 then 45 else if c == 47 then 95 else c

-- `s.replace(/=+$/, "")`
unfoldable pub strip_padding : Text → Text
strip_padding [] = []
strip_padding (c ∷ s) =
    let rest = strip_padding s in if c == 61 then if is_nil rest then [] else c ∷ rest else c ∷ rest

unfoldable pub b64url : Text → Text
b64url encoded = strip_padding (map url_safe encoded)

-- What a decoder of base64url makes of a character.
abbrev pub standard : ℕ → ℕ
standard c = if c == 45 then 43 else if c == 95 then 47 else c

-- A character that base64 uses for data: it is not the padding, nor one of the two that only base64url
-- has.
abbrev pub IsData : ℕ → Type 0
IsData c = (c ≢ 61) × (c ≢ 45) × (c ≢ 95)

abbrev pub IsPadding : ℕ → Type 0
IsPadding c = c ≡ 61

strip_padding-padding : (pad : Text) → All IsPadding pad → strip_padding (map url_safe pad) ≡ []
unfolding strip_padding
strip_padding-padding [] h = refl
strip_padding-padding (c ∷ pad) h = rw (h.0, strip_padding-padding pad h.1) refl

url_safe_data :
    (c : ℕ)
    → IsData c
    → (url_safe c ≢ 61) × (url_safe c ≢ 43) × (url_safe c ≢ 47) × (standard (url_safe c) ≡ c)
url_safe_data c h = (ground arith, ground arith, ground arith, ground arith)

b64url-append :
    (s pad : Text) → All IsData s → All IsPadding pad → b64url (s ++ pad) ≡ map url_safe s
unfolding b64url strip_padding
b64url-append [] pad h k = strip_padding-padding pad k
b64url-append (c ∷ s) pad h k =
    let rest = b64url-append s pad h.1 k in
    let (safe, plus, slash, back) = url_safe_data c h.0 in ground arith

map-standard : (s : Text) → All IsData s → map standard (map url_safe s) ≡ s
map-standard [] h = refl
map-standard (c ∷ s) h =
    let (safe, plus, slash, back) = url_safe_data c h.0 in ap₂ ◌∷◌ back (map-standard s h.1)

All-url_safe :
    (s : Text) → All IsData s → All (λ c. (c ≢ 61) × (c ≢ 43) × (c ≢ 47)) (map url_safe s)
All-url_safe [] h = tt
All-url_safe (c ∷ s) h =
    let (safe, plus, slash, back) = url_safe_data c h.0 in ((safe, plus, slash), All-url_safe s h.1)

-- Whatever `btoa` gives, data of its alphabet and then padding: the encoded token has neither "+" nor
-- "/" nor "=" in it, which no subprotocol may have, and the base64 data can be had back from it.
pub standard-b64url :
    (s pad : Text)
    → All IsData s
    → All IsPadding pad
    → All (λ c. (c ≢ 61) × (c ≢ 43) × (c ≢ 47)) (b64url (s ++ pad))
      × (map standard (b64url (s ++ pad)) ≡ s)
standard-b64url s pad h k = rw (b64url-append s pad h k) (All-url_safe s h, map-standard s h)
