-- ===== src/Api/Accounts/Unique.antt =====
-- api/routers/auth.py: the table of users after any requests.
use scamlens.Base.{
  ℕ, zero, suc, Bool, not, ◌||◌, refl, Text, List, [], ◌∷◌, Option, none, some, length, ltb,
  is_some, Bool-cases, inl, inr,
}
use scamlens.Api.Auth.{Account, Bcrypt, Jwt, Config, normal_email, fetch_by_email, issue_token}
use scamlens.Api.Accounts.{
  RegisterRequest, Draw, Users, opened, new_account, insert_user, too_long, allocate, register,
  login, admin_login, session,
}
use scamlens.Api.Accounts.Keys.{insert_user-IsSound, after_insert-IsSound, touch-IsSound, IsSound}

-- A request, with what it draws and when it comes.
pub data Visit : Type 0 where
  registers : (ℕ → Draw) → RegisterRequest → ℕ → Visit
  logs_in admin_logs_in : Text → Text → ℕ → Visit

module _ (bcrypt : Bcrypt) (jwt : Jwt) (cfg : Config) (valid_email : Text → Bool) where
  -- The table after some requests, the latest first, from an empty one.
  unfoldable pub visits : List Visit → Users
  visits [] = record { next_id = 1; rows = [] }
  visits (registers draws body now ∷ earlier) =
      (register bcrypt jwt cfg valid_email draws body now (visits earlier)).1
  visits (logs_in email password now ∷ earlier) =
      (login bcrypt jwt cfg valid_email email password now (visits earlier)).1
  visits (admin_logs_in email password now ∷ earlier) =
      (admin_login bcrypt jwt cfg valid_email email password now (visits earlier)).1

  allocate-IsSound :
      (n i : ℕ) (draws : ℕ → Draw) (email : Text) (body : RegisterRequest) (now : ℕ) (s : Users)
      → IsSound s
      → IsSound (allocate bcrypt jwt cfg valid_email n i draws email body now s).1
  unfolding allocate new_account
  allocate-IsSound zero i draws email body now s h = h
  allocate-IsSound (suc n) i draws email body now s h =
      let u =
        new_account (bcrypt.hashpw body.password (draws i).salt) email body (draws i) s.next_id in
      after_insert-IsSound _ _ (insert_user u s)
        (λ x k. allocate-IsSound n (suc i) draws email body now x k)
        (insert_user-IsSound u s h refl refl)

  register-IsSound :
      (draws : ℕ → Draw) (body : RegisterRequest) (now : ℕ) (s : Users)
      → IsSound s
      → IsSound (register bcrypt jwt cfg valid_email draws body now s).1
  unfolding register
  register-IsSound draws body now s h =
      elim (Bool-cases (
        not (valid_email body.email)
        || (ltb (length body.password) 10
            || (ltb 200 (length body.password) || too_long body.display_name)))) [
              | inl e ↦ rw e h
              | inr e ↦
                  rw e
                    (elim (Bool-cases (is_some (fetch_by_email (normal_email body.email) s.rows))) [
                      | inl f ↦ rw f h
                      | inr f ↦
                          rw f (allocate-IsSound 5 0 draws (normal_email body.email) body now s h)
                    ])
            ]

  opened-IsSound :
      (now : ℕ) (u : Account) (s : Users) (o : Option Text)
      → IsSound s
      → IsSound (opened bcrypt jwt cfg valid_email now u s o).1
  opened-IsSound now u s none h = h
  opened-IsSound now u s (some token) h = touch-IsSound u.id now s h

  session-IsSound :
      (now : ℕ) (password : Text) (o : Option Account) (s : Users)
      → IsSound s
      → IsSound (session bcrypt jwt cfg valid_email now password o s).1
  session-IsSound now password none s h = h
  session-IsSound now password (some u) s h =
      elim (Bool-cases (bcrypt.checkpw password u.password_hash)) [
        | inl e ↦ rw e (opened-IsSound now u s (issue_token jwt cfg now u) h)
        | inr e ↦ rw e h
      ]

  login-IsSound :
      (email password : Text) (now : ℕ) (s : Users)
      → IsSound s
      → IsSound (login bcrypt jwt cfg valid_email email password now s).1
  unfolding login
  login-IsSound email password now s h = elim (Bool-cases (valid_email email)) [
    | inl e ↦ rw e (session-IsSound now password (fetch_by_email email s.rows) s h)
    | inr e ↦ rw e h
  ]

  admin_login-IsSound :
      (email password : Text) (now : ℕ) (s : Users)
      → IsSound s
      → IsSound (admin_login bcrypt jwt cfg valid_email email password now s).1
  unfolding admin_login
  admin_login-IsSound email password now s h =
      session-IsSound now password (fetch_by_email email s.rows) s h

-- After any registrations and logins, from an empty table: the numbers of the accounts are below the
-- next one, no two accounts share an address, an invite code or a DoH token, and none is an
-- administrator's.
pub visits-IsSound :
    (bcrypt : Bcrypt) (jwt : Jwt) (cfg : Config) (valid_email : Text → Bool) (trace : List Visit)
    → IsSound (visits bcrypt jwt cfg valid_email trace)
unfolding visits
visits-IsSound bcrypt jwt cfg valid_email [] = record {
  numbered = tt;
  own_emails = tt;
  own_codes = tt;
  own_tokens = tt;
  ordinary = tt;
}
visits-IsSound bcrypt jwt cfg valid_email (registers draws body now ∷ earlier) =
    register-IsSound bcrypt jwt cfg valid_email draws body now _
      (visits-IsSound bcrypt jwt cfg valid_email earlier)
visits-IsSound bcrypt jwt cfg valid_email (logs_in email password now ∷ earlier) =
    login-IsSound bcrypt jwt cfg valid_email email password now _
      (visits-IsSound bcrypt jwt cfg valid_email earlier)
visits-IsSound bcrypt jwt cfg valid_email (admin_logs_in email password now ∷ earlier) =
    admin_login-IsSound bcrypt jwt cfg valid_email email password now _
      (visits-IsSound bcrypt jwt cfg valid_email earlier)
