-- ===== src/Postgres.antt =====
-- postgres/init.sql and its migrations: the tables that the services share, as lists of rows, and
-- the statements that more than one service runs. Timestamps are left out, and a null
-- category is the empty text.
pub mod Seeds
use scamlens.Base.{
  ℕ, Bool, true, false, ◌≡◌, ◌||◌, Text, List, [], ◌∷◌, ◌++◌, Option, none, some, same, codes,
  if◌then◌else◌,
}
use scamlens.Dns.Cache.{Label, safe, suspicious, scam, pending}

pub record SeedRow : Type 0 where
  pub domain : Text
  pub category : Text
  pub source_post : Option Text
  pub source_platform : Option Text

pub record WhiteRow : Type 0 where
  pub domain : Text
  pub reason : Option Text
  pub added_by : Text

pub record VerdictRow : Type 0 where
  pub domain : Text
  pub verdict : Label
  pub risk_score : ℕ
  pub confidence : ℕ
  pub reasons : List Text
  pub mimics_brand : Option Text
  pub source : Text

pub data Status : Type 0 where
  waiting confirmed rejected : Status

pub record ReportRow : Type 0 where
  pub id : ℕ
  pub domain : Text
  pub note : Option Text
  pub reporter_ip : Text
  pub status : Status

pub record AttemptRow : Type 0 where
  pub domain : Text
  pub reason : Text
  pub verdict : Label
  pub risk_score : ℕ
  pub confidence : ℕ
  pub mimics_brand : Option Text
  pub client_ip : Option Text
  pub resolved_ip : Option Text
  pub user_id : Option ℕ

pub record Db : Type 0 where
  pub blocklist_seed : List SeedRow
  pub whitelist : List WhiteRow
  pub domain_verdicts : List VerdictRow
  pub user_reports : List ReportRow
  pub brand_domains : List (Text × Text)
  pub blocked_attempts : List AttemptRow
  pub users : List (Text × ℕ)

unfoldable pub has_seed : Text → List SeedRow → Bool
has_seed d [] = false
has_seed d (row ∷ rows) = same d row.domain || has_seed d rows

-- INSERT INTO blocklist_seed (domain, category) VALUES (...) ON CONFLICT (domain) DO NOTHING
unfoldable pub insert_seed : Text → Text → List SeedRow → List SeedRow
unfolding has_seed
insert_seed domain category rows =
    if has_seed domain rows
    then rows
    else rows
      ++ record { domain = domain; category = category; source_post = none; source_platform = none }
        ∷ []

-- DELETE FROM blocklist_seed WHERE domain=$1
unfoldable pub delete_seed : Text → List SeedRow → List SeedRow
unfolding same
delete_seed d [] = []
delete_seed d (row ∷ rows) =
    let rest = delete_seed d rows in if same d row.domain then rest else row ∷ rest

unfoldable pub has_white : Text → List WhiteRow → Bool
unfolding same
has_white d [] = false
has_white d (row ∷ rows) = same d row.domain || has_white d rows

-- DELETE FROM whitelist WHERE domain=$1
unfoldable pub delete_white : Text → List WhiteRow → List WhiteRow
unfolding same
delete_white d [] = []
delete_white d (row ∷ rows) =
    let rest = delete_white d rows in if same d row.domain then rest else row ∷ rest
