-- ===== src/Api/Accounts/Login.antt =====
-- api/routers/auth.py with api/auth.py: what a new account can do.
use scamlens.Base.{
  ℕ, zero, suc, ◌+◌, ◌*◌, ◌≤◌, ◌<◌, ◌≡◌, Bool, true, false, not, ◌||◌, refl, arith, Text, List, [],
  ◌∷◌, ◌++◌, Option, none, some, same, same_refl, is_some, length, ltb, int_of-decimal, decimal,
  Bool-cases, inl, inr, ap, sym, subst, ◌∙◌, All, some_inj,
}
use scamlens.Api.Auth
use scamlens.Api.Auth.{
  Account, Bcrypt, Jwt, Config, normal_email, find_email, fetch_by_email, fetch_by_id, issue_token,
  current_principal, decode_token, principal_of, token_of, is_blank,
}
use scamlens.Api.Accounts.{
  RegisterRequest, Draw, Users, Response, ok, has_code, has_token, has_email, new_account, Inserted,
  after_insert, insert_user, too_long, answer_of, allocate, register, login, nothing, violation,
  row,
}

-- The numbers given so far are below the next one.
abbrev pub IsNumbered : Users → Type 0
IsNumbered s = All (λ (u : Account). u.id < s.next_id) s.rows

answer_of-ok :
    (o : Option Text) (v u : Account) (t : Text) (s s' : Users)
    → ◌≡◌ {A = Response × Users} (answer_of v o, s) (ok u t, s')
    → (v ≡ u) × (s ≡ s') × (o ≡ some t)
answer_of-ok none v u t s s' h = cc
answer_of-ok (some token) v u t s s' h = (cc, cc, cc)

pub insert_user-taken :
    (u : Account) (s : Users)
    → has_code u.invite_code s.rows ≡ true
    → insert_user u s ≡ (nothing, record s { next_id = suc s.next_id })
unfolding insert_user
insert_user-taken u s h = rw h refl

pub insert_user-violation :
    (u : Account) (s : Users)
    → has_code u.invite_code s.rows ≡ false
    → (has_email u.email s.rows || has_token u.doh_token s.rows) ≡ true
    → insert_user u s ≡ (violation, record s { next_id = suc s.next_id })
unfolding insert_user
insert_user-violation u s h k = rw (h, k) refl

pub insert_user-row :
    (u : Account) (s : Users)
    → has_code u.invite_code s.rows ≡ false
    → (has_email u.email s.rows || has_token u.doh_token s.rows) ≡ false
    → insert_user u s ≡ (row u, record { next_id = suc s.next_id; rows = s.rows ++ u ∷ [] })
unfolding insert_user
insert_user-row u s h k = rw (h, k) refl

module _ (bcrypt : Bcrypt) (jwt : Jwt) (cfg : Config) where
  -- `u` was put behind the rows of `s`, with the password and a token.
  record Allocated (email password : Text) (now : ℕ) (s : Users) (u : Account) (t : Text)
      (s' : Users) : Type 0 where
    appended : s'.rows ≡ s.rows ++ u ∷ []
    fresh : has_email email s.rows ≡ false
    number : s.next_id ≤ u.id
    mail : u.email ≡ email
    salt : Text
    hashed : u.password_hash ≡ bcrypt.hashpw password salt
    issued : issue_token jwt cfg now u ≡ some t

  allocate-Allocated :
      (valid_email : Text → Bool) (n i : ℕ) (draws : ℕ → Draw) (email : Text)
      (body : RegisterRequest) (now : ℕ) (s : Users) (u : Account) (t : Text) (s' : Users)
      → allocate bcrypt jwt cfg valid_email n i draws email body now s ≡ (ok u t, s')
      → Allocated email body.password now s u t s'
  unfolding allocate new_account
  allocate-Allocated valid_email zero i draws email body now s u t s' h = cc
  allocate-Allocated valid_email (suc n) i draws email body now s u t s' h =
      let v =
        new_account (bcrypt.hashpw body.password (draws i).salt) email body (draws i) s.next_id in
      let at_insert = λ (p : Inserted × Users) (k : insert_user v s ≡ p).
        subst
          (λ q.
            after_insert (allocate bcrypt jwt cfg valid_email n (suc i) draws email body now)
              (λ w. answer_of w (issue_token jwt cfg now w)) q
            ≡ (ok u t, s'))
          k h in
      elim (Bool-cases (has_code (draws i).invite s.rows)) [
        | inl e ↦
            let later =
              allocate-Allocated valid_email n (suc i) draws email body now
                (record s { next_id = suc s.next_id }) u t s'
                (at_insert _ (insert_user-taken v s e)) in
            record {
              appended = later.appended;
              fresh = later.fresh;
              number = omega (arith, later.number);
              mail = later.mail;
              salt = later.salt;
              hashed = later.hashed;
              issued = later.issued;
            }
        | inr e ↦
            elim (Bool-cases (has_email email s.rows || has_token (draws i).doh_token s.rows)) [
              | inl f ↦ cc (at_insert _ (insert_user-violation v s e f))
              | inr f ↦
                  let (same_user, same_state, issued) =
                    answer_of-ok (issue_token jwt cfg now v) v u t
                      (record { next_id = suc s.next_id; rows = s.rows ++ v ∷ [] }) s'
                      (at_insert _ (insert_user-row v s e f)) in
                  record {
                    appended =
                        ap (λ (x : Users). x.rows) (sym same_state)
                        ∙ ap (λ w. s.rows ++ w ∷ []) same_user;
                    fresh = ground (arith, f);
                    number = omega (arith, ap (λ (x : Account). x.id) same_user);
                    mail = ap (λ (x : Account). x.email) (sym same_user);
                    salt = (draws i).salt;
                    hashed = ap (λ (x : Account). x.password_hash) (sym same_user);
                    issued = ap (issue_token jwt cfg now) (sym same_user) ∙ issued;
                  }
            ]
      ]

find_email-append :
    (email : Text) (rows : List Account) (u : Account)
    → has_email email rows ≡ false
    → u.email ≡ email
    → find_email email (rows ++ u ∷ []) ≡ some u
unfolding find_email has_email
find_email-append email [] u h e = rw (e, same_refl email) refl
find_email-append email (v ∷ rows) u h e = elim (Bool-cases (same email v.email)) [
  | inl k ↦ cc (rw k at h)
  | inr k ↦ rw k (find_email-append email rows u (rw k at h) e)
]

fetch_by_id-append :
    (n : ℕ) (rows : List Account) (u : Account)
    → All (λ (v : Account). v.id < n) rows
    → n ≤ u.id
    → fetch_by_id u.id (rows ++ u ∷ []) ≡ some u
unfolding fetch_by_id
fetch_by_id-append n [] u h e = ground arith
fetch_by_id-append n (v ∷ rows) u h e = ground (arith, h, fetch_by_id-append n rows u h.1 e)

issue_token-some :
    (jwt : Jwt) (cfg : Config) (now later : ℕ) (u : Account) (t : Text)
    → issue_token jwt cfg now u ≡ some t
    → (t' : Text) × (issue_token jwt cfg later u ≡ some t')
unfolding issue_token
issue_token-some jwt cfg now later u t h = elim (Bool-cases (is_blank cfg.jwt_secret)) [
  | inl e ↦ cc (rw e at h)
  | inr e ↦ rw e (_, refl)
]

-- A token that was issued for a row stands for the row from then on until it expires.
issue_token-current_principal :
    (jwt : Jwt) (cfg : Config) (now later : ℕ) (users : List Account) (u : Account) (t : Text)
    → issue_token jwt cfg now u ≡ some t
    → now ≤ later
    → later < now + cfg.jwt_ttl_hours * 3600
    → fetch_by_id u.id users ≡ some u
    → current_principal jwt cfg later users (some t) [] ≡ Auth.ok (principal_of u)
unfolding issue_token current_principal decode_token token_of
issue_token-current_principal jwt cfg now later users u t h from alive listed =
    elim (Bool-cases (is_blank cfg.jwt_secret)) [
      | inl e ↦ cc (rw e at h)
      | inr e ↦
          let c : Auth.Claims = record {
            sub = decimal u.id;
            email = u.email;
            role = u.role;
            iat = now;
            exp = now + cfg.jwt_ttl_hours * 3600;
          } in
          let (b, rest, k) = jwt.encode-ne-nil c cfg.jwt_secret in
          let written : jwt.encode c cfg.jwt_secret ≡ t = some_inj (rw e at h) in
          let decoded : jwt.decode (b ∷ rest) cfg.jwt_secret later ≡ Auth.claims c =
            ap (λ x. jwt.decode x cfg.jwt_secret later) (sym k)
            ∙ jwt.decode-encode c cfg.jwt_secret later from alive in
          rw (sym written ∙ k) (rw (decoded, int_of-decimal u.id, listed) refl)
    ]

login-ok :
    (bcrypt : Bcrypt) (jwt : Jwt) (cfg : Config) (valid_email : Text → Bool) (email password : Text)
    (now : ℕ) (u : Account) (t : Text) (s : Users)
    → valid_email email ≡ true
    → find_email (normal_email email) s.rows ≡ some u
    → bcrypt.checkpw password u.password_hash ≡ true
    → issue_token jwt cfg now u ≡ some t
    → (login bcrypt jwt cfg valid_email email password now s).0 ≡ ok u t
unfolding login fetch_by_email
login-ok bcrypt jwt cfg valid_email email password now u t s valid listed check issued =
    rw (valid, listed, check, issued) refl

-- After a registration at `now` that answers with an account and a token, for accounts numbered
-- below the next number: the password and the address as they were entered log in to that account, at
-- any time of the login; and at any time `later` from `now` on and before the token expires, the token
-- stands for that account.
pub register-login :
    (bcrypt : Bcrypt) (jwt : Jwt) (cfg : Config) (valid_email : Text → Bool) (draws : ℕ → Draw)
    (body : RegisterRequest) (now login_time later : ℕ) (s s' : Users) (u : Account) (t : Text)
    → IsNumbered s
    → register bcrypt jwt cfg valid_email draws body now s ≡ (ok u t, s')
    → now ≤ later
    → later < now + cfg.jwt_ttl_hours * 3600
    → ((t' : Text) × ((login bcrypt jwt cfg valid_email body.email body.password login_time s').0
          ≡ ok u t'))
      × (current_principal jwt cfg later s'.rows (some t) [] ≡ Auth.ok (principal_of u))
unfolding register login fetch_by_email
register-login bcrypt jwt cfg valid_email draws body now login_time later s s' u t numbered h from
      alive =
    elim (Bool-cases (
      not (valid_email body.email)
      || (ltb (length body.password) 10
          || (ltb 200 (length body.password) || too_long body.display_name)))) [
            | inl e ↦ cc (rw e at h)
            | inr e ↦
                elim (Bool-cases
                  (is_some (find_email (normal_email (normal_email body.email)) s.rows))) [
                    | inl f ↦ cc (rw (e, f) at h)
                    | inr f ↦
                        let a =
                          allocate-Allocated bcrypt jwt cfg valid_email 5 0 draws
                            (normal_email body.email) body now s u t s' (rw (e, f) at h) in
                        let listed : find_email (normal_email body.email) s'.rows ≡ some u =
                          rw a.appended
                            (find_email-append (normal_email body.email) s.rows u a.fresh a.mail) in
                        let check : bcrypt.checkpw body.password u.password_hash ≡ true =
                          rw a.hashed (bcrypt.checkpw-hashpw body.password a.salt) in
                        let valid : valid_email body.email ≡ true = ground (arith, e) in
                        let (t', issued) = issue_token-some jwt cfg now login_time u t a.issued in
                        (
                          (
                            t',
                            login-ok bcrypt jwt cfg valid_email body.email body.password login_time
                                u t' s' valid listed check issued,
                          ),
                          issue_token-current_principal jwt cfg now later s'.rows u t a.issued from
                              alive
                              (rw a.appended
                                (fetch_by_id-append s.next_id s.rows u numbered a.number)),
                        )
                  ]
          ]
