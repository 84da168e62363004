-- ===== src/Api/Auth/Access.antt =====
-- api/auth.py: who passes `current_admin`.
use scamlens.Base.{
  ℕ, ◌≡◌, ◌↔◌, false, not, refl, Text, List, Option, none, some, same, same_iff, codes, int_of, ℤ,
  pos, negsuc, if◌then◌else◌, Bool-cases, inl, inr, ap, ◌∙◌,
}
use scamlens.Api.Auth.{
  Account, Principal, Claims, Decoded, expired, invalid, claims, Jwt, Config, Result, ok, err,
  admin_only, fetch_by_id, is_admin, token_of, principal_of, is_blank, payload_of, user_id_of,
  found, fetch_by_number, ◌>>=◌, decode_token, current_principal, current_admin,
}

bind-ok :
    {A B : Type 0} (r : Result A) (f : A → Result B) (b : B)
    → (r >>= f) ≡ ok b
    → (a : A) × (r ≡ ok a) × (f a ≡ ok b)
bind-ok (ok a) f b h = (a, refl, h)
bind-ok (err e) f b h = cc

found-ok :
    (o : Option Account) (who : Principal)
    → found o ≡ ok who
    → (u : Account) × (o ≡ some u) × (principal_of u ≡ who)
found-ok none who h = cc
found-ok (some u) who h = (u, refl, cc)

user_id_of-ok : (o : Option ℤ) (id : ℤ) → user_id_of o ≡ ok id → o ≡ some id
user_id_of-ok none id h = cc
user_id_of-ok (some i) id h = cc

payload_of-ok :
    (jwt : Jwt) (cfg : Config) (d : Decoded) (c : Claims)
    → payload_of jwt cfg d ≡ ok c
    → d ≡ claims c
payload_of-ok jwt cfg expired c h = cc
payload_of-ok jwt cfg invalid c h = cc
payload_of-ok jwt cfg (claims b) c h = cc

admitted-ok :
    (p who : Principal)
    → (if not (same p.role (codes "admin")) then err admin_only else ok p) ≡ ok who
    → (p ≡ who) × (p.role ≡ codes "admin")
admitted-ok p who h = elim (Bool-cases (same p.role (codes "admin"))) [
  | inl e ↦ let k : ok p ≡ ok who = rw e at h in (cc, (same_iff p.role (codes "admin")).0 e)
  | inr e ↦ cc (rw e at h)
]

fetch_by_number-some :
    (n : ℤ) (users : List Account) (u : Account)
    → fetch_by_number n users ≡ some u
    → (id : ℕ) × (n ≡ pos id) × (fetch_by_id id users ≡ some u)
fetch_by_number-some (pos id) users u h = (id, refl, h)
fetch_by_number-some (negsuc n) users u h = cc

-- What a principal is made of.
principal-ok :
    (jwt : Jwt) (cfg : Config) (now : ℕ) (users : List Account) (cookie : Option Text)
    (authorization : Text) (p : Principal)
    → current_principal jwt cfg now users cookie authorization ≡ ok p
    → (is_blank (token_of cookie authorization) ≡ false)
      × ((c : Claims) × (id : ℕ) × (u : Account) × (jwt.decode
              (token_of cookie authorization)
              cfg.jwt_secret
              now
            ≡ claims c)
          × (int_of c.sub ≡ some (pos id))
          × (fetch_by_id id users ≡ some u)
          × (principal_of u ≡ p))
unfolding current_principal decode_token
principal-ok jwt cfg now users cookie authorization p h =
    elim (Bool-cases (is_blank (token_of cookie authorization))) [
      | inl e ↦ cc (rw e at h)
      | inr e ↦
          let (c, d, k) =
            bind-ok
              (payload_of jwt cfg (jwt.decode (token_of cookie authorization) cfg.jwt_secret now)) _
              p (rw e at h) in
          let (number, i, l) = bind-ok (user_id_of (int_of c.sub)) _ p k in
          let (u, f, m) = found-ok (fetch_by_number number users) p l in
          let (id, k, g) = fetch_by_number-some number users u f in
          (
            e,
            (
              c,
              id,
              u,
              payload_of-ok jwt cfg _ c d,
              user_id_of-ok (int_of c.sub) number i ∙ ap some k,
              g,
              m,
            ),
          )
    ]

-- For any token, table and time: a request passes as the administrator `who` exactly when it has a
-- token, the token decodes, its subject is the number of a row of the table of users, that row is
-- `who`, and the row's role is admin. The role that the token states plays no part.
pub current_admin_iff :
    (jwt : Jwt) (cfg : Config) (now : ℕ) (users : List Account) (cookie : Option Text)
    (authorization : Text) (who : Principal)
    → (current_admin jwt cfg now users cookie authorization ≡ ok who) ↔ (
        (is_blank (token_of cookie authorization) ≡ false)
        × ((c : Claims) × (id : ℕ) × (u : Account) × (jwt.decode
                (token_of cookie authorization)
                cfg.jwt_secret
                now
              ≡ claims c)
            × (int_of c.sub ≡ some (pos id))
            × (fetch_by_id id users ≡ some u)
            × (principal_of u ≡ who)
            × (u.role ≡ codes "admin")))
unfolding current_admin current_principal decode_token is_admin
current_admin_iff jwt cfg now users cookie authorization who = (
  λ h.
      let (p, k, l) = bind-ok (current_principal jwt cfg now users cookie authorization) _ who h in
      let (a, r) = admitted-ok p who l in
      let (t, (c, id, u, d, i, f, m)) = principal-ok jwt cfg now users cookie authorization p k in
      (t, (c, id, u, d, i, f, m ∙ a, ap (λ (q : Principal). q.role) m ∙ r)),
  λ (t, (c, id, u, d, i, f, m, r)).
      rw (t, d, i, f, (same_iff u.role (codes "admin")).1 r) (ap ok m),
)
