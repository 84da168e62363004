-- ===== src/Api/Accounts/Tokens.antt =====
-- api/routers/auth.py with dns_server/main.py and servers.py: the DoH tokens of accounts.
use scamlens.Base.{
  ℕ, Bool, true, ◌≡◌, ◌≢◌, refl, arith, Text, List, [], ◌∷◌, map, some, same, same_iff, same_refl,
  elem, Distinct, In, Bool-cases, inl, inr, ap, sym, subst, ◌∙◌,
}
use scamlens.Api.Auth.{Account, Bcrypt, Jwt, Config}
use scamlens.Api.Accounts.Keys.{doh_tokens}
use scamlens.Api.Accounts.Unique.{Visit, visits, visits-IsSound}
use scamlens.Dns.Db.{load_doh_tokens}
use scamlens.Dns.Refresh.{Round, Shared, refresh_lists}
use scamlens.Dns.Servers.Doh.{lookup_token, user_of}
use scamlens.Postgres.{Db}

-- The columns of `users` that the resolver reads.
abbrev pub token_rows : List Account → List (Text × ℕ)
token_rows rows = map (λ (u : Account). (u.doh_token, u.id)) rows

elem-doh_token :
    (u : Account) (rows : List Account) → In u rows → elem u.doh_token (doh_tokens rows) ≡ true
unfolding elem
elem-doh_token u [] m = absurd m
elem-doh_token u (v ∷ rows) (inl e) =
    let k : u.doh_token ≡ v.doh_token = ap (λ (w : Account). w.doh_token) e in
    ground (arith, same_iff u.doh_token v.doh_token, k)
elem-doh_token u (v ∷ rows) (inr m) = ground (arith, elem-doh_token u rows m)

lookup_token-owner :
    (u : Account) (rows : List Account)
    → Distinct (doh_tokens rows)
    → In u rows
    → lookup_token u.doh_token (token_rows rows) ≡ some u.id
unfolding lookup_token
lookup_token-owner u [] h m = absurd m
lookup_token-owner u (v ∷ rows) h (inl e) =
    subst (λ (w : Account). lookup_token w.doh_token (token_rows (v ∷ rows)) ≡ some w.id) (sym e)
      (rw (same_refl v.doh_token) refl)
lookup_token-owner u (v ∷ rows) h (inr m) = elim (Bool-cases (same u.doh_token v.doh_token)) [
  | inr k ↦ rw k (lookup_token-owner u rows h.1 m)
  | inl k ↦
      let t : u.doh_token ≡ v.doh_token = (same_iff u.doh_token v.doh_token).0 k in
      let there : elem v.doh_token (doh_tokens rows) ≡ true =
        subst (λ x. elem x (doh_tokens rows) ≡ true) t (elem-doh_token u rows m) in
      cc (there, h.0)
]

user_of-some :
    (tokens : List (Text × ℕ)) (t : Text) → t ≢ [] → user_of tokens (some t) ≡ lookup_token t tokens
unfolding user_of
user_of-some tokens [] ne = absurd (ne refl)
user_of-some tokens (c ∷ t) ne = refl

-- After any registrations and logins from an empty table, and a round that reads the blocklist and the
-- tokens: a DNS query over HTTPS with the token of an account, which is not empty, is taken for that
-- account's.
pub user_of-refresh_lists :
    (bcrypt : Bcrypt) (jwt : Jwt) (cfg : Config) (valid_email : Text → Bool) (trace : List Visit)
    (u : Account) (round : Round) (db : Db) (shared : Shared)
    → In u (visits bcrypt jwt cfg valid_email trace).rows
    → u.doh_token ≢ []
    → round.blocklist ≡ true
    → round.tokens ≡ true
    → db.users ≡ token_rows (visits bcrypt jwt cfg valid_email trace).rows
    → user_of (refresh_lists round db shared).doh_tokens (some u.doh_token) ≡ some u.id
unfolding refresh_lists load_doh_tokens
user_of-refresh_lists bcrypt jwt cfg valid_email trace u round db shared m ne read tokens_read
      table =
    let rows = (visits bcrypt jwt cfg valid_email trace).rows in
    user_of-some (refresh_lists round db shared).doh_tokens u.doh_token ne
    ∙ rw (read, refresh_lists, tokens_read, load_doh_tokens)
        (rw table (
          lookup_token-owner u rows (visits-IsSound bcrypt jwt cfg valid_email trace).own_tokens m))
