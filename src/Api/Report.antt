-- ===== src/Api/Report.antt =====
-- api/routers/report.py with the request of api/models.py: a report by a user. The sequence gives the
-- number of a report, and `is_inet` says which texts Postgres takes for an address.
pub mod Moderated
use scamlens.Base.{
  ℕ, Bool, true, false, not, ◌||◌, Text, List, [], ◌∷◌, ◌++◌, Option, none, some, has_char, lower,
  strip, rstrip, white, split, length, ltb, codes, if◌then◌else◌,
}
use scamlens.Api.Admin.{before, drop_prefix}
use scamlens.Postgres.{ReportRow, waiting, Db}

pub record ReportRequest : Type 0 where
  pub domain : Text
  pub note : Option Text

-- `raised` is the error of the cast to inet.
pub data Response : Type 0 where
  invalid raised : Response
  reported : ℕ → Text → Response

abbrev pub is_blank : Text → Bool
is_blank [] = true
is_blank (c ∷ t) = false

-- `ReportRequest._normalize`, behind the limits of the field.
unfoldable pub normalize : Text → Option Text
normalize v =
    if ltb (length v) 3 || ltb 253 (length v)
    then none
    else (let host = rstrip (codes ".") (
          before b'?' (
            before b'/' (
              drop_prefix (codes "http://")
                (drop_prefix (codes "https://") (lower (strip white v)))))) in
        if is_blank host || (has_char b' ' host || not (has_char b'.' host))
        then none
        else some host)

abbrev pub long_note : Option Text → Bool
long_note none = false
long_note (some t) = ltb 500 (length t)

abbrev pub head_of : List Text → Text
head_of [] = []
head_of (t ∷ ts) = t

abbrev pub host_or_any : Option Text → Text
host_or_any none = codes "0.0.0.0"
host_or_any (some host) = host

-- `_client_ip`
unfoldable pub client_ip : Text → Option Text → Text
client_ip forwarded client =
    if not (is_blank forwarded)
    then strip white (head_of (split b',' forwarded))
    else host_or_any client

-- INSERT INTO user_reports ... RETURNING id, domain, status
unfoldable pub insert_report : (Text → Bool) → ℕ → Text → Option Text → Text → Db → Response × Db
insert_report is_inet id domain note ip db =
    if is_inet ip
    then (
      reported id domain,
      record db {
        user_reports =
            db.user_reports
            ++ record { id = id; domain = domain; note = note; reporter_ip = ip; status = waiting }
              ∷ [];
      },
    )
    else (raised, db)

unfoldable pub report : (Text → Bool) → ℕ → ReportRequest → Text → Option Text → Db → Response × Db
unfolding insert_report client_ip normalize
report is_inet id body forwarded client db = elim (normalize body.domain) [
  | none ↦ (invalid, db)
  | some domain ↦
      if long_note body.note
      then (invalid, db)
      else insert_report is_inet id domain body.note (client_ip forwarded client) db
]
