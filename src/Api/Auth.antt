-- ===== src/Api/Auth.antt =====
-- api/auth.py: accounts, session tokens and who a request comes from. bcrypt and PyJWT are interfaces
-- with their laws; the clock is an argument.
pub mod Access
pub mod Concrete
use scamlens.Base.{
  ℕ, ◌+◌, ◌*◌, ◌≡◌, ◌≤◌, ◌<◌, Bool, true, false, not, ◌==◌, ◌&&◌, Text, List, [], ◌∷◌, ◌++◌, Option,
  none, some, same, lower, strip, white, starts_with, drop, codes, decimal, int_of, ℤ, pos, negsuc,
  if◌then◌else◌,
}

-- A row of `users`; `last_login` is the time of `last_login_at`.
pub record Account : Type 0 where
  pub id : ℕ
  pub email : Text
  pub password_hash : Text
  pub role : Text
  pub invite_code : Text
  pub doh_token : Text
  pub display_name : Option Text
  pub last_login : Option ℕ

pub record Principal : Type 0 where
  pub id : ℕ
  pub email : Text
  pub role : Text
  pub invite_code : Text
  pub doh_token : Text

-- The payload of a session token.
pub record Claims : Type 0 where
  pub sub : Text
  pub email : Text
  pub role : Text
  pub iat : ℕ
  pub exp : ℕ

pub data Decoded : Type 0 where
  expired invalid : Decoded
  claims : Claims → Decoded

-- A hash takes the password and the random salt.
pub record Bcrypt : Type 0 where
  pub hashpw : Text → Text → Text
  pub checkpw : Text → Text → Bool
  pub checkpw-hashpw : (password salt : Text) → checkpw password (hashpw password salt) ≡ true

-- `decode` takes the token, the secret and the time; it rejects a token that is issued in the future
-- or expired.
pub record Jwt : Type 0 where
  pub encode : Claims → Text → Text
  pub decode : Text → Text → ℕ → Decoded
  pub decode-encode :
      (c : Claims) (secret : Text) (now : ℕ)
      → c.iat ≤ now
      → now < c.exp
      → decode (encode c secret) secret now ≡ claims c
  pub encode-ne-nil :
      (c : Claims) (secret : Text) → (b : ℕ) × (t : Text) × (encode c secret ≡ b ∷ t)

pub record Config : Type 0 where
  pub jwt_secret : Text
  pub jwt_ttl_hours : ℕ

-- `raised` is an exception that the handlers do not turn into a status.
pub data Denied : Type 0 where
  not_authenticated session_expired invalid_token user_not_found admin_only raised : Denied

pub data Result {ℓ} (A : Type ℓ) : Type ℓ where
  ok : A → Result A
  err : Denied → Result A

infixl 5 ◌>>=◌
abbrev pub ◌>>=◌ {ℓ κ} : {A : Type ℓ} {B : Type κ} → Result A → (A → Result B) → Result B
ok a >>= f = f a
err e >>= f = err e

-- `email.lower().strip()`
unfoldable pub normal_email : Text → Text
normal_email email = strip white (lower email)

-- SELECT ... FROM users WHERE email = $1
unfoldable pub find_email : Text → List Account → Option Account
find_email email [] = none
find_email email (u ∷ us) =
    let rest = find_email email us in if same email u.email then some u else rest

unfoldable pub fetch_by_email : Text → List Account → Option Account
unfolding normal_email find_email
fetch_by_email email users = find_email (normal_email email) users

unfoldable pub fetch_by_id : ℕ → List Account → Option Account
fetch_by_id id [] = none
fetch_by_id id (u ∷ us) = let rest = fetch_by_id id us in if id == u.id then some u else rest

-- `fetch_by_id` with the integer of a token: no row has a negative number.
abbrev pub fetch_by_number : ℤ → List Account → Option Account
fetch_by_number (pos id) users = fetch_by_id id users
fetch_by_number (negsuc n) users = none

unfoldable pub touch_last_login : ℕ → ℕ → List Account → List Account
touch_last_login id now [] = []
touch_last_login id now (u ∷ us) =
    let rest = touch_last_login id now us in
    if id == u.id then record u { last_login = some now } ∷ rest else u ∷ rest

-- `principal.is_admin`
unfoldable pub is_admin : Principal → Bool
is_admin who = same who.role (codes "admin")

abbrev pub is_blank : Text → Bool
is_blank [] = true
is_blank (c ∷ t) = false

abbrev text_of : Option Text → Text
text_of none = []
text_of (some t) = t

-- The cookie, or the token of an `Authorization: Bearer` header; an empty text is no token.
unfoldable pub token_of : Option Text → Text → Text
token_of cookie authorization =
    if not (is_blank (text_of cookie))
    then text_of cookie
    else if starts_with (codes "bearer ") (lower authorization)
    then strip white (drop 7 authorization)
    else []

abbrev pub principal_of : Account → Principal
principal_of u = record {
  id = u.id;
  email = u.email;
  role = u.role;
  invite_code = u.invite_code;
  doh_token = u.doh_token;
}

abbrev pub found : Option Account → Result Principal
found none = err user_not_found
found (some u) = ok (principal_of u)

abbrev pub user_id_of : Option ℤ → Result ℤ
user_id_of none = err raised
user_id_of (some id) = ok id

module _ (jwt : Jwt) (cfg : Config) where
  -- `issue_token`: `none` is the RuntimeError of a missing secret.
  unfoldable pub issue_token : ℕ → Account → Option Text
  issue_token now u =
      if is_blank cfg.jwt_secret
      then none
      else some (
          jwt.encode
            (record {
              sub = decimal u.id;
              email = u.email;
              role = u.role;
              iat = now;
              exp = now + cfg.jwt_ttl_hours * 3600;
            })
            cfg.jwt_secret)

  abbrev pub payload_of : Decoded → Result Claims
  payload_of expired = err session_expired
  payload_of invalid = err invalid_token
  payload_of (claims c) = ok c

  unfoldable pub decode_token : ℕ → Text → Result Claims
  decode_token now token = payload_of (jwt.decode token cfg.jwt_secret now)

  unfoldable pub current_principal : ℕ → List Account → Option Text → Text → Result Principal
  unfolding decode_token
  current_principal now users cookie authorization =
      if is_blank (token_of cookie authorization) then err not_authenticated else do
        payload ← decode_token now (token_of cookie authorization)
        id ← user_id_of (int_of payload.sub)
        found (fetch_by_number id users)

  unfoldable pub current_admin : ℕ → List Account → Option Text → Text → Result Principal
  unfolding current_principal is_admin
  current_admin now users cookie authorization = do
    who ← current_principal now users cookie authorization
    if not (is_admin who) then err admin_only else ok who
