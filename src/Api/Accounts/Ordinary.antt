-- ===== src/Api/Accounts/Ordinary.antt =====
-- api/routers/auth.py and admin.py with api/auth.py: administrators after any sign-ups.
use scamlens.Base.{
  ℕ, ◌==◌, ◌≡◌, ◌≢◌, Text, List, [], ◌∷◌, Option, some, codes, All, Bool, Bool-cases, inl, inr,
  some_inj, subst, sym, ◌∙◌,
}
use scamlens.Api.Auth.{Account, Principal, Bcrypt, Jwt, Config, ok, fetch_by_id, current_admin}
use scamlens.Api.Auth.Access.{current_admin_iff}
use scamlens.Api.Accounts.Unique.{Visit, visits, visits-IsSound}

fetch_by_id-All :
    (P : Account → Type 0) (id : ℕ) (rows : List Account) (u : Account)
    → All P rows
    → fetch_by_id id rows ≡ some u
    → P u
unfolding fetch_by_id
fetch_by_id-All P id [] u h e = cc
fetch_by_id-All P id (v ∷ rows) u h e = elim (Bool-cases (id == v.id)) [
  | inl k ↦ subst P (some_inj (rw k at e)) h.0
  | inr k ↦ fetch_by_id-All P id rows u h.1 (rw k at e)
]

admin-ne-user : codes "admin" ≢ codes "user"
admin-ne-user e = cc

-- Whoever registers and logs in, from an empty table, also at the login for administrators: no token,
-- whatever it states, passes as an administrator's.
pub visits-ordinary :
    (bcrypt : Bcrypt) (jwt : Jwt) (cfg : Config) (valid_email : Text → Bool) (trace : List Visit)
    (now : ℕ) (cookie : Option Text) (authorization : Text) (who : Principal)
    → current_admin jwt cfg now (visits bcrypt jwt cfg valid_email trace).rows cookie authorization
      ≢ ok who
visits-ordinary bcrypt jwt cfg valid_email trace now cookie authorization who h =
    let rows = (visits bcrypt jwt cfg valid_email trace).rows in
    let (t, (c, id, u, d, i, f, m, admin)) =
      (current_admin_iff jwt cfg now rows cookie authorization who).0 h in
    let ordinary : u.role ≡ codes "user" =
      fetch_by_id-All (λ v. v.role ≡ codes "user") id rows u
        (visits-IsSound bcrypt jwt cfg valid_email trace).ordinary f in
    admin-ne-user (sym admin ∙ ordinary)
