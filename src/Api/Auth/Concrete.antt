-- ===== src/Api/Auth/Concrete.antt =====
-- Instances of the interfaces of Api/Auth, for the tests: a hash that keeps the password, and tokens
-- that spell their claims out.
use scamlens.Base.{
  ℕ, ◌≤◌, ◌<◌, ◌≡◌, false, arith, refl, Text, [], ◌∷◌, ◌++◌, same, same_refl, length, take, drop,
  take-append_length, drop-append_length, ltb, if◌then◌else◌, lt→ltb,
}
use scamlens.Api.Auth.{Claims, Decoded, expired, invalid, claims, Bcrypt, Jwt}

abbrev pub plain : Bcrypt
plain = record {
  hashpw = λ password salt. password;
  checkpw = λ password hashed. same password hashed;
  checkpw-hashpw = λ password salt. same_refl password;
}

abbrev pub spell : Claims → Text
spell c = c.iat ∷ c.exp ∷ length c.sub ∷ (c.sub ++ (length c.email ∷ (c.email ++ c.role)))

abbrev pub read_role : ℕ → ℕ → Text → Text → Decoded
read_role iat exp sub [] = invalid
read_role iat exp sub (m ∷ t) =
    claims (record { sub = sub; email = take m t; role = drop m t; iat = iat; exp = exp })

abbrev pub read : Text → ℕ → Decoded
read (iat ∷ exp ∷ n ∷ t) now =
    if ltb now iat
    then invalid
    else if ltb now exp
    then read_role iat exp (take n t) (drop n t)
    else expired
read _ now = invalid

ge→ltb : (n m : ℕ) → m ≤ n → ltb n m ≡ false
ge→ltb n m h = ground arith

pub read-spell : (c : Claims) (now : ℕ) → c.iat ≤ now → now < c.exp → read (spell c) now ≡ claims c
read-spell c now issued h =
    rw
      (
        ge→ltb now c.iat issued,
        lt→ltb now c.exp h,
        take-append_length c.sub (length c.email ∷ (c.email ++ c.role)),
        drop-append_length c.sub (length c.email ∷ (c.email ++ c.role)),
        take-append_length c.email c.role,
        drop-append_length c.email c.role,
      )
      refl

abbrev pub spelled : Jwt
spelled = record {
  encode = λ c secret. spell c;
  decode = λ token secret now. read token now;
  decode-encode = λ c secret now issued h. read-spell c now issued h;
  encode-ne-nil = λ c secret.
      (c.iat, (c.exp ∷ length c.sub ∷ (c.sub ++ (length c.email ∷ (c.email ++ c.role)))), refl);
}
