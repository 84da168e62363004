-- ===== src/Api/Me/Consent.antt =====
-- api/routers/me.py: who watches whom, and who agreed to it.
use scamlens.Base.{
  ℕ, Bool, true, false, ◌==◌, ◌≡◌, ◌&&◌, ◌||◌, arith, Text, List, [], ◌∷◌, same, Bool-cases,
  Option-cases, inl, inr, ltb, length, strip, white,
}
use scamlens.Api.Me.{
  accepted, rejected, Link, User, Links, upper, find_user, upsert_link, is_pending, is_accepted,
  respond, remove_link, invite_dependent, accept_link, reject_link, revoke_link, Request, invite,
  accept, reject, revoke, handle, handle_all, watches,
}

-- An invite of `g` to `w` under that id waits for an answer.
unfoldable pub waits : ℕ → ℕ → ℕ → List Link → Bool
unfolding is_pending
waits g w id [] = false
waits g w id (l ∷ ls) =
    (id == l.id && (g == l.guardian_id && (w == l.ward_id && is_pending l.status)))
    || waits g w id ls

-- Somewhere in the requests, `w` accepts an invite of `g` that waits at that time.
unfoldable pub agreed : List User → ℕ → ℕ → List (User × Request) → Bool
unfolding waits
agreed users g w [] = false
agreed users g w ((who, accept id) ∷ earlier) =
    (w == who.id && waits g w id (handle_all users earlier).rows) || agreed users g w earlier
agreed users g w ((who, invite code) ∷ earlier) = agreed users g w earlier
agreed users g w ((who, reject id) ∷ earlier) = agreed users g w earlier
agreed users g w ((who, revoke id) ∷ earlier) = agreed users g w earlier

watches-upsert_link :
    (g w next a b : ℕ) (ls : List Link)
    → watches g w (upsert_link next a b ls).1 ≡ true
    → watches g w ls ≡ true
unfolding watches upsert_link is_accepted
watches-upsert_link g w next a b [] h = ground (arith, h)
watches-upsert_link g w next a b (l ∷ ls) h =
    elim (Bool-cases (watches g w (upsert_link next a b ls).1)) [
      | inl e ↦ ground (arith, e, h, watches-upsert_link g w next a b ls e)
      | inr e ↦ ground (arith, e, h)
    ]

watches-respond_accepted :
    (g w id who : ℕ) (ls : List Link)
    → watches g w (respond accepted id who ls).1 ≡ true
    → ((w == who && waits g w id ls) || watches g w ls) ≡ true
unfolding watches respond is_accepted is_pending waits
watches-respond_accepted g w id who [] h = ground (arith, h)
watches-respond_accepted g w id who (l ∷ ls) h =
    elim (Bool-cases (watches g w (respond accepted id who ls).1)) [
      | inl e ↦ ground (arith, e, h, watches-respond_accepted g w id who ls e)
      | inr e ↦ ground (arith, e, h)
    ]

watches-respond_rejected :
    (g w id who : ℕ) (ls : List Link)
    → watches g w (respond rejected id who ls).1 ≡ true
    → watches g w ls ≡ true
unfolding watches respond is_accepted
watches-respond_rejected g w id who [] h = h
watches-respond_rejected g w id who (l ∷ ls) h =
    elim (Bool-cases (watches g w (respond rejected id who ls).1)) [
      | inl e ↦ ground (arith, e, h, watches-respond_rejected g w id who ls e)
      | inr e ↦ ground (arith, e, h)
    ]

watches-remove_link :
    (g w id who : ℕ) (ls : List Link)
    → watches g w (remove_link id who ls).1 ≡ true
    → watches g w ls ≡ true
unfolding watches remove_link
watches-remove_link g w id who [] h = h
watches-remove_link g w id who (l ∷ ls) h =
    elim (Bool-cases (watches g w (remove_link id who ls).1)) [
      | inl e ↦ ground (arith, e, h, watches-remove_link g w id who ls e)
      | inr e ↦ ground (arith, e, h)
    ]

watches-invite_dependent :
    (users : List User) (g w : ℕ) (who : User) (code : Text) (s : Links)
    → watches g w (invite_dependent users who code s).1.rows ≡ true
    → watches g w s.rows ≡ true
unfolding invite_dependent
watches-invite_dependent users g w who code s h =
    elim (Bool-cases (ltb (length code) 4 || ltb 32 (length code))) [
      | inl long ↦ rw long at h
      | inr fits ↦ elim (Bool-cases (same (upper (strip white code)) who.invite_code)) [
        | inl own ↦ rw (fits, own) at h
        | inr other ↦ elim (Option-cases (find_user (upper (strip white code)) users)) [
          | inl missing ↦ rw (fits, other, missing) at h
          | inr (target, found) ↦ elim (Bool-cases (who.id == target.id)) [
            | inl self ↦ rw (fits, other, found, self) at h
            | inr someone ↦
                watches-upsert_link g w s.next_id who.id target.id s.rows
                  (rw (fits, other, found, someone) at h)
          ]
        ]
      ]
    ]

-- Whatever requests are handled, by whomever: if in the end a guardian watches a ward, then the ward
-- itself accepted an invite of that guardian that was waiting for its answer.
pub watches-agreed :
    (users : List User) (g w : ℕ) (requests : List (User × Request))
    → watches g w (handle_all users requests).rows ≡ true
    → agreed users g w requests ≡ true
unfolding watches handle_all handle agreed accept_link reject_link revoke_link
watches-agreed users g w [] h = h
watches-agreed users g w ((who, invite code) ∷ earlier) h =
    watches-agreed users g w earlier
      (watches-invite_dependent users g w who code (handle_all users earlier) h)
watches-agreed users g w ((who, accept id) ∷ earlier) h =
    elim (Bool-cases (watches g w (handle_all users earlier).rows)) [
      | inl before ↦ ground (arith, watches-agreed users g w earlier before)
      | inr before ↦
          ground (
            arith,
            before,
            watches-respond_accepted g w id who.id (handle_all users earlier).rows h,
          )
    ]
watches-agreed users g w ((who, reject id) ∷ earlier) h =
    watches-agreed users g w earlier
      (watches-respond_rejected g w id who.id (handle_all users earlier).rows h)
watches-agreed users g w ((who, revoke id) ∷ earlier) h =
    watches-agreed users g w earlier
      (watches-remove_link g w id who.id (handle_all users earlier).rows h)
