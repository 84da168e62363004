-- ===== src/Api/Push/Pruned.antt =====
-- api/push.py: the count that a send returns, and the rows that it deletes.
use scamlens.Base.{
  ℕ, suc, Bool, true, false, ◌==◌, ◌&&◌, ◌||◌, ◌≡◌, refl, arith, Text, List, [], ◌∷◌, none, some,
  ltb, if◌then◌else◌, Bool-cases, inl, inr, ◌∙◌, ap,
}
use scamlens.Api.Push.{
  Subscription, Subscriptions, PushLib, Message, Delivery, delivered, push_exception, crashed,
  has_id, delete_ids, subs_of, status_of, outcome, tally, send_one, send_all, payload_of,
  send_to_user,
}
use scamlens.Api.Push.Keyed.{id_free, AreKeyed, IsKeyed}

delete_ids-fresh :
    (i : ℕ) (ids : List ℕ) (rows : List Subscription)
    → id_free i rows ≡ true
    → delete_ids (i ∷ ids) rows ≡ delete_ids ids rows
unfolding delete_ids has_id id_free
delete_ids-fresh i ids [] h = refl
delete_ids-fresh i ids (row ∷ rows) h = ground (arith, h, delete_ids-fresh i ids rows)

delete_ids-gone :
    (row : Subscription) (ids : List ℕ) (rows : List Subscription)
    → id_free row.id rows ≡ true
    → delete_ids (row.id ∷ ids) (row ∷ rows) ≡ delete_ids ids rows
unfolding delete_ids has_id
delete_ids-gone row ids rows h = ground (arith, delete_ids-fresh row.id ids rows h)

delete_ids-stays :
    (row : Subscription) (ids : List ℕ) (rows : List Subscription)
    → has_id row.id ids ≡ false
    → delete_ids ids (row ∷ rows) ≡ row ∷ delete_ids ids rows
unfolding delete_ids
delete_ids-stays row ids rows h = rw h refl

delete_ids-nil : (rows : List Subscription) → delete_ids [] rows ≡ rows
unfolding delete_ids has_id
delete_ids-nil [] = refl
delete_ids-nil (row ∷ rows) = ap (◌∷◌ row) (delete_ids-nil rows)

module _ (lib : PushLib) where
  -- What `webpush` did with a row.
  abbrev pub is_delivered : Delivery lib.Response → Bool
  is_delivered delivered = true
  is_delivered _ = false

  -- The exception has a response that is true and says that the endpoint is not found or gone.
  abbrev pub is_gone : Delivery lib.Response → Bool
  is_gone (push_exception (some r)) =
      lib.truth r && (lib.status_code r == 404 || lib.status_code r == 410)
  is_gone _ = false

  abbrev pub sending : Text → Subscription → Delivery lib.Response
  sending payload row = lib.webpush row.endpoint row.p256dh row.auth payload

  unfoldable pub count_delivered : Text → ℕ → List Subscription → ℕ
  count_delivered payload user_id [] = 0
  count_delivered payload user_id (row ∷ rows) =
      let rest = count_delivered payload user_id rows in
      if user_id == row.user_id && is_delivered (sending payload row) then suc rest else rest

  -- The rows but for the user's that are gone.
  unfoldable pub without_gone : Text → ℕ → List Subscription → List Subscription
  without_gone payload user_id [] = []
  without_gone payload user_id (row ∷ rows) =
      let rest = without_gone payload user_id rows in
      if user_id == row.user_id && is_gone (sending payload row) then rest else row ∷ rest

  outcome_lem : (d : Delivery lib.Response) → outcome lib d ≡ (is_delivered d, is_gone d)
  unfolding outcome status_of
  outcome_lem delivered = refl
  outcome_lem (push_exception none) = refl
  outcome_lem (push_exception (some r)) = elim (Bool-cases (lib.truth r)) [
    | inl e ↦ rw e refl
    | inr e ↦ rw e refl
  ]
  outcome_lem crashed = refl

  tally-count :
      (id : ℕ) (d : Delivery lib.Response) (acc : ℕ × List ℕ)
      → (tally id (is_delivered d, is_gone d) acc).0 ≡ (if is_delivered d then suc acc.0 else acc.0)
  tally-count id delivered acc = refl
  tally-count id (push_exception none) acc = refl
  tally-count id (push_exception (some r)) acc =
      elim (Bool-cases (is_gone (push_exception (some r)))) [
        | inl e ↦ rw e refl
        | inr e ↦ rw e refl
      ]
  tally-count id crashed acc = refl

  tally-ids :
      (id : ℕ) (d : Delivery lib.Response) (acc : ℕ × List ℕ)
      → (tally id (is_delivered d, is_gone d) acc).1 ≡ (if is_gone d then id ∷ acc.1 else acc.1)
  tally-ids id delivered acc = refl
  tally-ids id (push_exception none) acc = refl
  tally-ids id (push_exception (some r)) acc =
      elim (Bool-cases (is_gone (push_exception (some r)))) [
        | inl e ↦ rw e refl
        | inr e ↦ rw e refl
      ]
  tally-ids id crashed acc = refl

  module _ (payload : Text) (user_id : ℕ) where
    abbrev sent_for : List Subscription → ℕ × List ℕ
    sent_for rows = send_all lib payload (subs_of user_id rows)

    send_all-cons :
        (row : Subscription) (subs : List Subscription)
        → send_all lib payload (row ∷ subs)
          ≡ tally row.id
              (is_delivered (sending payload row), is_gone (sending payload row))
              (send_all lib payload subs)
    unfolding send_all send_one
    send_all-cons row subs = rw (outcome_lem (sending payload row)) refl

    send_all-count :
        (rows : List Subscription) → (sent_for rows).0 ≡ count_delivered payload user_id rows
    unfolding subs_of count_delivered send_all
    send_all-count [] = refl
    send_all-count (row ∷ rows) = elim (Bool-cases (user_id == row.user_id)) [
      | inl e ↦ rw e (
          rw (send_all-cons row (subs_of user_id rows)) (
            tally-count row.id (sending payload row) (sent_for rows)
            ∙ ground (arith, send_all-count rows)))
      | inr e ↦ rw e (send_all-count rows)
    ]

    send_all-ids :
        (row : Subscription) (rows : List Subscription)
        → (sent_for (row ∷ rows)).1 ≡ (
            if user_id == row.user_id && is_gone (sending payload row)
            then row.id ∷ (sent_for rows).1
            else (sent_for rows).1)
    unfolding subs_of
    send_all-ids row rows = elim (Bool-cases (user_id == row.user_id)) [
      | inl e ↦ rw e (
          rw (send_all-cons row (subs_of user_id rows))
            (tally-ids row.id (sending payload row) (sent_for rows)))
      | inr e ↦ rw e refl
    ]

    send_all-nil :
        ((d : Delivery lib.Response) → is_gone d ≡ false)
        → (subs : List Subscription) → (send_all lib payload subs).1 ≡ []
    unfolding send_all
    send_all-nil alive [] = refl
    send_all-nil alive (row ∷ subs) = rw (send_all-cons row subs) (
        tally-ids row.id (sending payload row) (send_all lib payload subs)
        ∙ rw (alive (sending payload row)) (send_all-nil alive subs))

    -- The ids are those of the rows.
    has_id-sent :
        (i : ℕ) (rows : List Subscription)
        → id_free i rows ≡ true
        → has_id i (sent_for rows).1 ≡ false
    unfolding id_free has_id subs_of send_all
    has_id-sent i [] h = refl
    has_id-sent i (row ∷ rows) h =
        rw (send_all-ids row rows) (ground (arith, h, has_id-sent i rows))

    delete_ids-sent :
        (next : ℕ) (rows : List Subscription)
        → AreKeyed next rows
        → delete_ids (sent_for rows).1 rows ≡ without_gone payload user_id rows
    unfolding delete_ids has_id without_gone AreKeyed
    delete_ids-sent next [] h = refl
    delete_ids-sent next (row ∷ rows) (small, id, key, h) =
        let ih = delete_ids-sent next rows h in
        let at_ids = λ (ids : List ℕ) (k : (sent_for (row ∷ rows)).1 ≡ ids).
          ap (λ x. delete_ids x (row ∷ rows)) k in
        elim (Bool-cases (user_id == row.user_id && is_gone (sending payload row))) [
          | inl e ↦ rw e (
              at_ids (row.id ∷ (sent_for rows).1) (send_all-ids row rows ∙ rw e refl)
              ∙ delete_ids-gone row (sent_for rows).1 rows id
              ∙ ih)
          | inr e ↦ rw e (
              at_ids (sent_for rows).1 (send_all-ids row rows ∙ rw e refl)
              ∙ delete_ids-stays row (sent_for rows).1 rows (has_id-sent row.id rows id)
              ∙ ap (◌∷◌ row) ih)
        ]

-- For every table whose ids are distinct, with push configured: `send_to_user` returns the number of
-- the user's rows for which `webpush` returned, and deletes exactly the user's rows for which it
-- raised with a response that is true in a test and has the status 404 or 410.
pub send_to_user_lem :
    (lib : PushLib) (user_id : ℕ) (m : Message) (s : Subscriptions)
    → IsKeyed s
    → ((send_to_user lib true user_id m s).0
        ≡ count_delivered lib (payload_of lib m) user_id s.rows)
      × ((send_to_user lib true user_id m s).1
          ≡ record s { rows = without_gone lib (payload_of lib m) user_id s.rows })
unfolding send_to_user
send_to_user_lem lib user_id m s h = (
  send_all-count lib (payload_of lib m) user_id s.rows,
  ap (λ rows. record s { rows = rows })
      (delete_ids-sent lib (payload_of lib m) user_id s.next_id s.rows h),
)

-- When a response is true in a test only below the status 400, `send_to_user` never deletes a row: the
-- status of a response of 404 or 410 is not read.
pub send_to_user-keeps_dead :
    (lib : PushLib) (available : Bool) (user_id : ℕ) (m : Message) (s : Subscriptions)
    → ((response : lib.Response) → lib.truth response ≡ ltb (lib.status_code response) 400)
    → (send_to_user lib available user_id m s).1 ≡ s
unfolding send_to_user
send_to_user-keeps_dead lib false user_id m s falsy = refl
send_to_user-keeps_dead lib true user_id m s falsy =
    ap (λ rows. record s { rows = rows })
      (rw (send_all-nil lib (payload_of lib m) user_id alive (subs_of user_id s.rows))
        (delete_ids-nil s.rows))
  where
    alive : (d : Delivery lib.Response) → is_gone lib d ≡ false
    alive delivered = refl
    alive (push_exception none) = refl
    alive (push_exception (some r)) = ground (arith, falsy r)
    alive crashed = refl
