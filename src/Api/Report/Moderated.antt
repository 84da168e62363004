-- ===== src/Api/Report/Moderated.antt =====
-- api/routers/report.py with api/routers/admin.py and dns_server/db.py: from a report to the blocklist.
use scamlens.Base.{
  ℕ, Bool, true, false, ◌==◌, ◌||◌, ◌&&◌, ◌≡◌, refl, arith, Text, List, [], ◌∷◌, ◌++◌, Option, some,
  same, elem, codes, append-nil, if◌then◌else◌, Bool-cases, Option-cases, inl, inr, ap, ◌∙◌,
}
use scamlens.Api.Admin.{update_report, confirm_report, reject_report}
use scamlens.Api.Admin.Lists.{elem-load_blocklist}
use scamlens.Api.Report.{
  ReportRequest, reported, normalize, long_note, client_ip, insert_report, report,
}
use scamlens.Dns.Db.{load_blocklist, confirmed_domains, is_confirmed}
use scamlens.Postgres.{ReportRow, Status, waiting, confirmed, rejected, Db, insert_seed}
use scamlens.Postgres.Seeds.{has_seed-insert_seed}

unfoldable pub has_report : ℕ → List ReportRow → Bool
has_report id [] = false
has_report id (row ∷ rows) = id == row.id || has_report id rows

-- The row that a report becomes.
abbrev pub row_of : ℕ → Text → Option Text → Text → Status → ReportRow
row_of id domain memo ip status = record {
  id = id;
  domain = domain;
  note = memo;
  reporter_ip = ip;
  status = status;
}

update_report-append :
    (id : ℕ) (status : Status) (rows : List ReportRow) (d : Text) (memo : Option Text) (ip : Text)
    → has_report id rows ≡ false
    → update_report id status (rows ++ row_of id d memo ip waiting ∷ [])
      ≡ (some d, rows ++ row_of id d memo ip status ∷ [])
unfolding update_report has_report
update_report-append id status [] d memo ip h = ground arith
update_report-append id status (row ∷ rows) d memo ip h =
    let other : id == row.id ≡ false = ground (arith, h) in
    rw other (rw (update_report-append id status rows d memo ip (ground (arith, h))) refl)

confirmed_domains-append :
    (rows : List ReportRow) (d : Text) (id : ℕ) (memo : Option Text) (ip : Text) (status : Status)
    → confirmed_domains (rows ++ row_of id d memo ip status ∷ [])
      ≡ confirmed_domains rows ++ (if is_confirmed status then d ∷ [] else [])
unfolding confirmed_domains
confirmed_domains-append [] d id memo ip waiting = refl
confirmed_domains-append [] d id memo ip confirmed = refl
confirmed_domains-append [] d id memo ip rejected = refl
confirmed_domains-append (row ∷ rows) d id memo ip status =
    elim (Bool-cases (is_confirmed row.status)) [
      | inl e ↦ rw e (ap (◌∷◌ row.domain) (confirmed_domains-append rows d id memo ip status))
      | inr e ↦ rw e (confirmed_domains-append rows d id memo ip status)
    ]

elem-concat : (j d : Text) (ts : List Text) → elem j (ts ++ d ∷ []) ≡ (elem j ts || same j d)
unfolding elem
elem-concat j d [] = ground arith
elem-concat j d (t ∷ ts) = ground (arith, elem-concat j d ts)

-- The tables with the new report, in a status.
abbrev pub filed : ℕ → Text → Option Text → Text → Status → Db → Db
filed id d memo ip status db = record db {
  user_reports = db.user_reports ++ row_of id d memo ip status ∷ [];
}

elem-confirmed_domains :
    (j d : Text) (rows : List ReportRow) (id : ℕ) (memo : Option Text) (ip : Text) (status : Status)
    → elem j (confirmed_domains (rows ++ row_of id d memo ip status ∷ []))
      ≡ (elem j (confirmed_domains rows) || (is_confirmed status && same j d))
elem-confirmed_domains j d rows id memo ip status =
    ap (elem j) (confirmed_domains-append rows d id memo ip status) ∙ go status
  where
    go :
        (st : Status)
        → elem j (confirmed_domains rows ++ (if is_confirmed st then d ∷ [] else []))
          ≡ (elem j (confirmed_domains rows) || (is_confirmed st && same j d))
    go confirmed = elem-concat j d (confirmed_domains rows)
    go waiting = rw (append-nil (confirmed_domains rows)) (ground arith)
    go rejected = rw (append-nil (confirmed_domains rows)) (ground arith)

elem-filed :
    (id : ℕ) (d : Text) (memo : Option Text) (ip : Text) (status : Status) (j : Text) (db : Db)
    → elem j (load_blocklist true (filed id d memo ip status db))
      ≡ (elem j (load_blocklist true db) || (is_confirmed status && same j d))
elem-filed id d memo ip status j db =
    elem-load_blocklist j (filed id d memo ip status db)
    ∙ ground (
      arith,
      elem-load_blocklist j db,
      elem-confirmed_domains j d db.user_reports id memo ip status,
    )

report-filed :
    (is_inet : Text → Bool) (id n : ℕ) (body : ReportRequest) (forwarded : Text)
    (client : Option Text) (d : Text) (db db' : Db)
    → report is_inet id body forwarded client db ≡ (reported n d, db')
    → db' ≡ filed id d body.note (client_ip forwarded client) waiting db
unfolding report insert_report
report-filed is_inet id n body forwarded client d db db' h =
    elim (Option-cases (normalize body.domain)) [
      | inl e ↦ cc (rw (e, report) at h)
      | inr (domain, e) ↦ elim (Bool-cases (long_note body.note)) [
        | inl f ↦ cc (rw (e, report, f) at h)
        | inr f ↦ elim (Bool-cases (is_inet (client_ip forwarded client))) [
          | inl k ↦
              let same_pair : (
                reported id domain,
                filed id domain body.note (client_ip forwarded client) waiting db,
              )
                  ≡ (reported n d, db') =
                rw (e, report, f, k) at h in
              cc same_pair
          | inr k ↦ cc (rw (e, report, f, k) at h)
        ]
      ]
    ]

confirm_report-filed :
    (id : ℕ) (d : Text) (memo : Option Text) (ip : Text) (db : Db)
    → has_report id db.user_reports ≡ false
    → (confirm_report id (filed id d memo ip waiting db)).1
      ≡ record (filed id d memo ip confirmed db) {
        blocklist_seed = insert_seed d (codes "user-report") db.blocklist_seed;
      }
unfolding confirm_report
confirm_report-filed id d memo ip db h =
    let e = update_report-append id confirmed db.user_reports d memo ip h in
    rw (e, confirm_report) (rw (ap (λ (p : Option Text × List ReportRow). p.1) e) refl)

reject_report-filed :
    (id : ℕ) (d : Text) (memo : Option Text) (ip : Text) (db : Db)
    → has_report id db.user_reports ≡ false
    → (reject_report id (filed id d memo ip waiting db)).1 ≡ filed id d memo ip rejected db
unfolding reject_report
reject_report-filed id d memo ip db h =
    let e = update_report-append id rejected db.user_reports d memo ip h in
    rw (e, reject_report) (rw (ap (λ (p : Option Text × List ReportRow). p.1) e) refl)

-- For a report that is accepted, with a new number: the next load of the blocklist has every domain
-- that it would have had and no other; after the administrator rejects the report that is still so;
-- and after the administrator confirms it, the load has the reported domain as well, and no other.
pub report-moderated :
    (is_inet : Text → Bool) (id n : ℕ) (body : ReportRequest) (forwarded : Text)
    (client : Option Text) (d j : Text) (db db' : Db)
    → has_report id db.user_reports ≡ false
    → report is_inet id body forwarded client db ≡ (reported n d, db')
    → (elem j (load_blocklist true db') ≡ elem j (load_blocklist true db))
      × (elem j (load_blocklist true (reject_report id db').1) ≡ elem j (load_blocklist true db))
      × (elem j (load_blocklist true (confirm_report id db').1)
          ≡ (same j d || elem j (load_blocklist true db)))
report-moderated is_inet id n body forwarded client d j db db' new h =
    let memo = body.note in
    let ip = client_ip forwarded client in
    let e = report-filed is_inet id n body forwarded client d db db' h in
    rw e (
      elem-filed id d memo ip waiting j db ∙ ground arith,
      rw (reject_report-filed id d memo ip db new)
          (elem-filed id d memo ip rejected j db ∙ ground arith),
      rw (confirm_report-filed id d memo ip db new) (
          ground (
            arith,
            elem-load_blocklist j (record (filed id d memo ip confirmed db) {
              blocklist_seed = insert_seed d (codes "user-report") db.blocklist_seed;
            }),
            has_seed-insert_seed j d (codes "user-report") db.blocklist_seed,
            elem-load_blocklist j db,
            elem-confirmed_domains j d db.user_reports id memo ip confirmed,
          )),
    )
