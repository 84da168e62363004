-- ===== src/Api/Accounts/Keys.antt =====
-- api/routers/auth.py: the keys of the table of users, and what the statements do to them.
use scamlens.Base.{
  ℕ, suc, ◌≤◌, ◌<◌, ◌≡◌, false, ◌||◌, ◌==◌, refl, arith, Text, List, [], ◌∷◌, ◌++◌, map, some, elem,
  codes, Bool-cases, inl, inr, ap, ◌∙◌, sym, subst, All, All-append, Distinct, Distinct-concat,
}
use mathlib.Core.List.{map-append}
use scamlens.Api.Auth.{Account, touch_last_login}
use scamlens.Api.Accounts.{
  Users, Response, Inserted, after_insert, has_code, has_token, has_email, insert_user, nothing,
  violation, row,
}
use scamlens.Api.Accounts.Login.{
  IsNumbered, insert_user-taken, insert_user-violation, insert_user-row,
}

abbrev pub emails : List Account → List Text
emails rows = map (λ (u : Account). u.email) rows

abbrev pub invite_codes : List Account → List Text
invite_codes rows = map (λ (u : Account). u.invite_code) rows

abbrev pub doh_tokens : List Account → List Text
doh_tokens rows = map (λ (u : Account). u.doh_token) rows

-- The numbers are below the next one, no two rows share an address, an invite code or a DoH token, and
-- every account is an ordinary user's.
pub record IsSound (s : Users) : Type 0 where
  pub numbered : IsNumbered s
  pub own_emails : Distinct (emails s.rows)
  pub own_codes : Distinct (invite_codes s.rows)
  pub own_tokens : Distinct (doh_tokens s.rows)
  pub ordinary : All (λ (u : Account). u.role ≡ codes "user") s.rows

elem-emails : (e : Text) (rows : List Account) → elem e (emails rows) ≡ has_email e rows
unfolding elem has_email
elem-emails e [] = refl
elem-emails e (u ∷ rows) = ground (arith, elem-emails e rows)

elem-invite_codes : (c : Text) (rows : List Account) → elem c (invite_codes rows) ≡ has_code c rows
unfolding elem has_code
elem-invite_codes c [] = refl
elem-invite_codes c (u ∷ rows) = ground (arith, elem-invite_codes c rows)

elem-doh_tokens : (t : Text) (rows : List Account) → elem t (doh_tokens rows) ≡ has_token t rows
unfolding elem has_token
elem-doh_tokens t [] = refl
elem-doh_tokens t (u ∷ rows) = ground (arith, elem-doh_tokens t rows)

below_later :
    (n m : ℕ) (rows : List Account)
    → n ≤ m
    → All (λ (u : Account). u.id < n) rows
    → All (λ (u : Account). u.id < m) rows
below_later n m [] le h = tt
below_later n m (u ∷ rows) le h = (omega (arith, h.0), below_later n m rows le h.1)

bump-IsSound : (s : Users) → IsSound s → IsSound (record s { next_id = suc s.next_id })
bump-IsSound s h = record {
  numbered = below_later s.next_id (suc s.next_id) s.rows (omega arith) h.numbered;
  own_emails = h.own_emails;
  own_codes = h.own_codes;
  own_tokens = h.own_tokens;
  ordinary = h.ordinary;
}

-- A key stays distinct when a row with a new one is put behind the others.
map-Distinct :
    (key : Account → Text) (rows : List Account) (u : Account)
    → Distinct (map key rows)
    → elem (key u) (map key rows) ≡ false
    → Distinct (map key (rows ++ u ∷ []))
map-Distinct key rows u h new =
    subst Distinct (sym (map-append key rows (u ∷ [])))
      (Distinct-concat (map key rows) (key u) h new)

added-IsSound :
    (u : Account) (s : Users)
    → IsSound s
    → u.id ≡ s.next_id
    → u.role ≡ codes "user"
    → has_code u.invite_code s.rows ≡ false
    → (has_email u.email s.rows || has_token u.doh_token s.rows) ≡ false
    → IsSound (record { next_id = suc s.next_id; rows = s.rows ++ u ∷ [] })
added-IsSound u s h number ordinary code other = record {
  numbered =
      All-append (λ (v : Account). v.id < suc s.next_id) s.rows (u ∷ [])
        (below_later s.next_id (suc s.next_id) s.rows (omega arith) h.numbered)
        (omega (arith, number), tt);
  own_emails =
      map-Distinct (λ (v : Account). v.email) s.rows u h.own_emails
        (elem-emails u.email s.rows ∙ ground (arith, other));
  own_codes =
      map-Distinct (λ (v : Account). v.invite_code) s.rows u h.own_codes
        (elem-invite_codes u.invite_code s.rows ∙ code);
  own_tokens =
      map-Distinct (λ (v : Account). v.doh_token) s.rows u h.own_tokens
        (elem-doh_tokens u.doh_token s.rows ∙ ground (arith, other));
  ordinary =
      All-append (λ (v : Account). v.role ≡ codes "user") s.rows (u ∷ []) h.ordinary (ordinary, tt);
}

pub insert_user-IsSound :
    (u : Account) (s : Users)
    → IsSound s
    → u.id ≡ s.next_id
    → u.role ≡ codes "user"
    → IsSound (insert_user u s).1
insert_user-IsSound u s h number ordinary = elim (Bool-cases (has_code u.invite_code s.rows)) [
  | inl e ↦ rw (insert_user-taken u s e) (bump-IsSound s h)
  | inr e ↦ elim (Bool-cases (has_email u.email s.rows || has_token u.doh_token s.rows)) [
    | inl f ↦ rw (insert_user-violation u s e f) (bump-IsSound s h)
    | inr f ↦ rw (insert_user-row u s e f) (added-IsSound u s h number ordinary e f)
  ]
]

pub after_insert-IsSound :
    (retry : Users → Response × Users) (answer : Account → Response) (p : Inserted × Users)
    → ((s : Users) → IsSound s → IsSound (retry s).1)
    → IsSound p.1
    → IsSound (after_insert retry answer p).1
after_insert-IsSound retry answer (nothing, s) again h = again s h
after_insert-IsSound retry answer (violation, s) again h = h
after_insert-IsSound retry answer (row u, s) again h = h

touch-key :
    (key : Account → Text) (id now : ℕ) (rows : List Account)
    → ((u : Account) → key (record u { last_login = some now }) ≡ key u)
    → map key (touch_last_login id now rows) ≡ map key rows
unfolding touch_last_login
touch-key key id now [] same_key = refl
touch-key key id now (u ∷ rows) same_key = elim (Bool-cases (id == u.id)) [
  | inl e ↦ rw e (rw (same_key u, touch-key key id now rows same_key) refl)
  | inr e ↦ rw e (ap (◌∷◌ (key u)) (touch-key key id now rows same_key))
]

touch-All :
    (P : Account → Type 0) (id now : ℕ) (rows : List Account)
    → ((u : Account) → P u → P (record u { last_login = some now }))
    → All P rows
    → All P (touch_last_login id now rows)
unfolding touch_last_login
touch-All P id now [] keep h = tt
touch-All P id now (u ∷ rows) keep h = elim (Bool-cases (id == u.id)) [
  | inl e ↦ rw e (keep u h.0, touch-All P id now rows keep h.1)
  | inr e ↦ rw e (h.0, touch-All P id now rows keep h.1)
]

pub touch-IsSound :
    (id now : ℕ) (s : Users)
    → IsSound s
    → IsSound (record s { rows = touch_last_login id now s.rows })
touch-IsSound id now s h = record {
  numbered = touch-All (λ (u : Account). u.id < s.next_id) id now s.rows (λ u k. k) h.numbered;
  own_emails =
      subst Distinct (sym (touch-key (λ (u : Account). u.email) id now s.rows (λ u. refl)))
        h.own_emails;
  own_codes =
      subst Distinct (sym (touch-key (λ (u : Account). u.invite_code) id now s.rows (λ u. refl)))
        h.own_codes;
  own_tokens =
      subst Distinct (sym (touch-key (λ (u : Account). u.doh_token) id now s.rows (λ u. refl)))
        h.own_tokens;
  ordinary = touch-All (λ (u : Account). u.role ≡ codes "user") id now s.rows (λ u k. k) h.ordinary;
}
