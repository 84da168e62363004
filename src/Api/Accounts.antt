-- ===== src/Api/Accounts.antt =====
-- api/routers/auth.py: registration and login, and the login of api/routers/admin.py. The checks of EmailStr are `valid_email`, a function of
-- the caller; what `secrets` and bcrypt draw at random is an argument.
pub mod Login
pub mod Keys
pub mod Unique
pub mod Ordinary
pub mod Tokens
mod Tests
use scamlens.Base.{
  ℕ, zero, suc, ◌+◌, Bool, true, false, not, ◌&&◌, ◌||◌, Text, List, [], ◌∷◌, ◌++◌, Option, none,
  some, same, codes, length, ltb, is_some, if◌then◌else◌,
}
use scamlens.Api.Auth.{
  Account, Bcrypt, Jwt, Config, normal_email, find_email, fetch_by_email, touch_last_login,
  issue_token,
}

pub record RegisterRequest : Type 0 where
  pub email : Text
  pub password : Text
  pub display_name : Option Text

-- The random values of one try: `new_invite_code()`, `new_doh_token()` and the salt.
pub record Draw : Type 0 where
  pub invite : Text
  pub doh_token : Text
  pub salt : Text

pub record Users : Type 0 where
  pub next_id : ℕ
  pub rows : List Account

-- The answer and the session cookie, or a status; `raised` is an exception.
pub data Response : Type 0 where
  ok : Account → Text → Response
  invalid unauthorized conflict exhausted raised : Response

unfoldable pub has_code : Text → List Account → Bool
has_code code [] = false
has_code code (u ∷ us) = same code u.invite_code || has_code code us

unfoldable pub has_token : Text → List Account → Bool
has_token token [] = false
has_token token (u ∷ us) = same token u.doh_token || has_token token us

unfoldable pub has_email : Text → List Account → Bool
has_email email [] = false
has_email email (u ∷ us) = same email u.email || has_email email us

-- INSERT INTO users ... ON CONFLICT (invite_code) DO NOTHING RETURNING ...
pub data Inserted : Type 0 where
  nothing violation : Inserted
  row : Account → Inserted

unfoldable pub new_account : (hashed : Text) → Text → RegisterRequest → Draw → ℕ → Account
new_account hashed email body draw id = record {
  id = id;
  email = email;
  password_hash = hashed;
  role = codes "user";
  invite_code = draw.invite;
  doh_token = draw.doh_token;
  display_name = body.display_name;
  last_login = none;
}

-- A sequence gives the number, also to a row that is not inserted.
unfoldable pub insert_user : Account → Users → Inserted × Users
unfolding has_code has_token has_email
insert_user u s =
    if has_code u.invite_code s.rows
    then (nothing, record s { next_id = suc s.next_id })
    else if has_email u.email s.rows || has_token u.doh_token s.rows
    then (violation, record s { next_id = suc s.next_id })
    else (row u, record { next_id = suc s.next_id; rows = s.rows ++ u ∷ [] })

unfoldable pub too_long : Option Text → Bool
too_long none = false
too_long (some t) = ltb 120 (length t)

abbrev pub answer_of : Account → Option Text → Response
answer_of u none = raised
answer_of u (some token) = ok u token

-- The body of the loop after the INSERT: no row means another try.
abbrev pub after_insert :
    (Users → Response × Users) → (Account → Response) → Inserted × Users → Response × Users
after_insert retry answer (nothing, s) = retry s
after_insert retry answer (violation, s) = (raised, s)
after_insert retry answer (row u, s) = (answer u, s)

module _ (bcrypt : Bcrypt) (jwt : Jwt) (cfg : Config) (valid_email : Text → Bool) where
  abbrev logged_in : ℕ → Account → Response
  logged_in now u = answer_of u (issue_token jwt cfg now u)

  -- The loop `for _ in range(5)`: the tries that are left, and the number of this one.
  unfoldable pub allocate :
      ℕ → ℕ → (ℕ → Draw) → Text → RegisterRequest → ℕ → Users → Response × Users
  allocate zero i draws email body now s = (exhausted, s)
  allocate (suc n) i draws email body now s =
      let u =
        new_account (bcrypt.hashpw body.password (draws i).salt) email body (draws i) s.next_id in
      after_insert (allocate n (suc i) draws email body now) (logged_in now) (insert_user u s)

  unfoldable pub register : (ℕ → Draw) → RegisterRequest → ℕ → Users → Response × Users
  unfolding allocate too_long
  register draws body now s =
      if not (valid_email body.email)
        || (ltb (length body.password) 10
            || (ltb 200 (length body.password) || too_long body.display_name))
      then (invalid, s)
      else if is_some (fetch_by_email (normal_email body.email) s.rows)
      then (conflict, s)
      else allocate 5 0 draws (normal_email body.email) body now s

  abbrev pub opened : ℕ → Account → Users → Option Text → Response × Users
  opened now u s none = (raised, s)
  opened now u s (some token) = (ok u token, record s { rows = touch_last_login u.id now s.rows })

  abbrev pub session : ℕ → Text → Option Account → Users → Response × Users
  session now password none s = (unauthorized, s)
  session now password (some u) s =
      if not (bcrypt.checkpw password u.password_hash)
      then (unauthorized, s)
      else opened now u s (issue_token jwt cfg now u)

  unfoldable pub login : Text → Text → ℕ → Users → Response × Users
  login email password now s =
      if not (valid_email email)
      then (invalid, s)
      else session now password (fetch_by_email email s.rows) s

  -- api/routers/admin.py: `login`, whose address is any text.
  unfoldable pub admin_login : Text → Text → ℕ → Users → Response × Users
  admin_login email password now s = session now password (fetch_by_email email s.rows) s
