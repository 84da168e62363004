-- ===== src/Api/Accounts/Tests.antt =====
-- api/auth.py and api/routers/auth.py: a registration.
use scamlens.Base.{
  has_char, strip, lower, ℕ, Bool, true, false, ◌≡◌, ◌≢◌, ◌↔◌, refl, arith, Text, List, [], ◌∷◌,
  none, some, codes, inl, int_of, pos,
}
use scamlens.Base.{decimal, int_of}
use scamlens.Api.Auth
use scamlens.Api.Auth.{
  Account, Config, principal_of, issue_token, fetch_by_email, find_email, normal_email,
}
use scamlens.Api.Auth.Concrete.{plain, spelled, spell}
use scamlens.Api.Accounts.{
  RegisterRequest, Draw, Users, Response, ok, register, login, allocate, insert_user, new_account,
  has_code, has_token, has_email, too_long,
}
use scamlens.Base.{In, ap, sym}
use scamlens.Api.Accounts.Unique.{Visit, registers, logs_in, visits}
use scamlens.Api.Accounts.Tokens.{token_rows}
use scamlens.Dns.Refresh.{Round, Shared}
use scamlens.Postgres.{Db}
use scamlens.Api.Accounts.{login}
use scamlens.Api.Accounts.Keys.{IsSound}
use scamlens.Api.Accounts.Login.{register-login}
use scamlens.Api.Accounts.Ordinary.{visits-ordinary}
use scamlens.Api.Accounts.Tokens.{user_of-refresh_lists}
use scamlens.Api.Accounts.Unique.{visits-IsSound, visits}
use scamlens.Api.Auth.{
  principal_of, claims, is_blank, fetch_by_id, ok, token_of, current_admin, Claims, Account,
  current_principal,
}
use scamlens.Api.Auth.Access.{current_admin_iff}
use scamlens.Dns.Refresh.{refresh_lists}
use scamlens.Dns.Servers.Doh.{user_of}

abbrev config_example : Config
config_example = record { jwt_secret = codes "secret"; jwt_ttl_hours = 1 }

abbrev has_at : Text → Bool
has_at email = has_char b'@' email

abbrev draws_example : ℕ → Draw
draws_example i = record { invite = codes "ANNA"; doh_token = codes "token"; salt = codes "salt" }

abbrev body_example : RegisterRequest
body_example = record {
  email = codes "Ann@x.com";
  password = codes "correct horse";
  display_name = none;
}

abbrev no_users : Users
no_users = record { next_id = 1; rows = [] }

abbrev ann : Account
ann = record {
  id = 1;
  email = codes "ann@x.com";
  password_hash = codes "correct horse";
  role = codes "user";
  invite_code = codes "ANNA";
  doh_token = codes "token";
  display_name = none;
  last_login = none;
}

abbrev root : Account
root = record ann { role = codes "admin" }

abbrev ann_token : Text
ann_token = spell (record {
  sub = decimal 1;
  email = codes "ann@x.com";
  role = codes "user";
  iat = 1000;
  exp = 4600;
})

abbrev one_user : Users
one_user = record { next_id = 2; rows = ann ∷ [] }

registered :
    register plain spelled config_example has_at draws_example body_example 1000 no_users
    ≡ (ok ann ann_token, one_user)
unfolding register allocate insert_user new_account has_code has_token has_email issue_token
    fetch_by_email find_email normal_email has_char lower strip too_long
registered = refl

abbrev trace_example : List Visit
trace_example =
    logs_in (codes "ann@x.com") (codes "correct horse") 1100
    ∷ registers draws_example body_example 1000
    ∷ []

abbrev first_visit : List Visit
first_visit = registers draws_example body_example 1000 ∷ []

registered_only : (visits plain spelled config_example has_at first_visit).rows ≡ ann ∷ []
unfolding visits
registered_only = ap (λ (p : Response × Users). p.1.rows) registered

listed : In ann (visits plain spelled config_example has_at first_visit).rows
listed = rw registered_only (inl refl)

abbrev round_example : Round
round_example = record { blocklist = true; whitelist = true; brands = true; tokens = true }

abbrev shared_example : Shared
shared_example = record {
  resolver = record {
    cfg = record { block_ip = codes "10.9.9.9"; block_ttl = 60; scam_ttl = 600; unknown_ttl = 300 };
    blocklist = [];
    whitelist = [];
    brands = [];
    raw_first = true;
    raw_first_token = true;
  };
  doh_tokens = [];
}

abbrev db_example : Db
db_example = record {
  blocklist_seed = [];
  whitelist = [];
  domain_verdicts = [];
  user_reports = [];
  brand_domains = [];
  blocked_attempts = [];
  users = (codes "token", 1) ∷ [];
}

tokens_listed :
    db_example.users ≡ token_rows (visits plain spelled config_example has_at first_visit).rows
tokens_listed = ap token_rows (sym registered_only)

current_admin_iff_example :
    (current_admin spelled config_example 1000 (root ∷ []) (some ann_token) []
      ≡ ok (principal_of root))
    ↔ ((is_blank (token_of (some ann_token) []) ≡ false)
        × ((c : Claims) × (id : ℕ) × (u : Account) × (spelled.decode
                (token_of (some ann_token) [])
                config_example.jwt_secret
                1000
              ≡ claims c)
            × (int_of c.sub ≡ some (pos id))
            × (fetch_by_id id (root ∷ []) ≡ some u)
            × (principal_of u ≡ (principal_of root))
            × (u.role ≡ codes "admin")))
current_admin_iff_example =
    current_admin_iff spelled config_example 1000 (root ∷ []) (some ann_token) []
      (principal_of root)

register-login_example :
    ((t' : Text) × ((login plain spelled config_example has_at body_example.email
          body_example.password 9000 one_user).0
        ≡ ok ann t'))
    × (current_principal spelled config_example 2000 one_user.rows (some ann_token) []
        ≡ Auth.ok (principal_of ann))
register-login_example =
    register-login plain spelled config_example has_at draws_example body_example 1000 9000 2000
      no_users one_user ann ann_token tt registered (omega arith) (omega arith)

visits-IsSound_example : IsSound (visits plain spelled config_example has_at trace_example)
visits-IsSound_example = visits-IsSound plain spelled config_example has_at trace_example

user_of-refresh_lists_example :
    user_of (refresh_lists round_example db_example shared_example).doh_tokens (some ann.doh_token)
    ≡ some ann.id
user_of-refresh_lists_example =
    user_of-refresh_lists plain spelled config_example has_at first_visit ann round_example
      db_example shared_example listed (λ e. cc) refl refl tokens_listed

visits-ordinary_example :
    current_admin spelled config_example 1200
      (visits plain spelled config_example has_at trace_example).rows
      (some ann_token)
      []
    ≢ ok (principal_of ann)
visits-ordinary_example =
    visits-ordinary plain spelled config_example has_at trace_example 1200 (some ann_token) []
      (principal_of ann)
