-- ===== src/Scripts/Tests.antt =====
-- scripts/import_tranco.py: an import of two domains.
use scamlens.Base.{
  has_char, rstrip, starts_with, strip, lower, same, true, false, ◌≡◌, refl, Text, List, [], ◌∷◌,
  Option, none, some, codes, inr,
}
use scamlens.Dns.Cache.{Payload}
use scamlens.Dns.Cache.Concrete.{memory, fresh}
use scamlens.Dns.Resolver
use scamlens.Dns.Resolver.{DnsLib}
use scamlens.Dns.Resolver.Ancestors.{IsAncestor}
use scamlens.Dns.Resolver.Decision.{query_name}
use scamlens.Dns.Refresh.{Round, Shared}
use scamlens.Postgres.{Db, WhiteRow, insert_seed, has_seed, delete_white, has_white}
use scamlens.Redis.Memory.{memory_keys, no_entries}
use scamlens.Api.Admin.{Admin, add_blocklist, reason_or_manual}
use scamlens.Scripts.Tranco.{
  read_rows, split_once, delete_popular, is_popular, insert_popular, import_tranco,
}
use scamlens.Scripts.Tranco.Import.{names}
use scamlens.Dns.Cache.{Payload}
use scamlens.Dns.Refresh.{refresh_lists}
use scamlens.Dns.Resolver.{resolve}
use scamlens.Scripts.Tranco.Import.{import_tranco-unblocks}

abbrev lines_example : List Text
lines_example = codes "1,Good.com\n" ∷ codes "2,evil.com\n" ∷ codes "3,other.com\n" ∷ []

abbrev rows_example : List (Text × Text)
rows_example =
    (codes "good.com", codes "tranco-rank-1") ∷ (codes "evil.com", codes "tranco-rank-2") ∷ []

lines_read : read_rows 2 lines_example [] ≡ some rows_example
unfolding read_rows split_once strip lower
lines_read = refl

abbrev white_example : Text → Text → Text → WhiteRow
white_example domain reason by = record { domain = domain; reason = some reason; added_by = by }

abbrev manual : WhiteRow
manual = white_example (codes "mine.com") (codes "ours") (codes "admin@x.com")

abbrev good : WhiteRow
good = white_example (codes "good.com") (codes "tranco-rank-1") (codes "tranco")

abbrev evil : WhiteRow
evil = white_example (codes "evil.com") (codes "tranco-rank-2") (codes "tranco")

abbrev db_with : List WhiteRow → Db
db_with list = record {
  blocklist_seed = [];
  whitelist = list;
  domain_verdicts = [];
  user_reports = [];
  brand_domains = [];
  blocked_attempts = [];
  users = [];
}

abbrev db_example : Db
db_example =
    db_with (manual ∷ white_example (codes "old.com") (codes "tranco-rank-9") (codes "tranco") ∷ [])

abbrev db_imported : Db
db_imported = db_with (manual ∷ good ∷ evil ∷ [])

imported : import_tranco 2 lines_example db_example ≡ some db_imported
unfolding import_tranco read_rows split_once strip lower delete_popular is_popular starts_with
    insert_popular has_white same
imported = refl

-- The administrator blocks a domain that was imported before.
abbrev admin_example : Admin (memory_keys Payload) (memory_keys Text)
admin_example = record {
  db = db_with (evil ∷ []);
  verdicts_state = no_entries Payload;
  deep_state = no_entries Text;
}

abbrev db_unblocked : Db
db_unblocked = record (db_with (good ∷ evil ∷ [])) {
  blocklist_seed =
      record {
        domain = codes "evil.com";
        category = codes "manual";
        source_post = none;
        source_platform = none;
      }
      ∷ [];
}

imported_again :
    import_tranco 2 lines_example
      (add_blocklist
        (memory_keys Payload)
        (memory_keys Text)
        (codes "evil.com")
        none
        admin_example).db
    ≡ some db_unblocked
unfolding add_blocklist reason_or_manual insert_seed has_seed delete_white import_tranco read_rows
    split_once strip lower delete_popular is_popular starts_with insert_popular has_white same
imported_again = refl

abbrev request_example : Resolver.Request
request_example = record { qname = codes "login.evil.com."; qtype = codes "A" }

abbrev lib_example : DnsLib
lib_example = record {
  parse = λ wire. some request_example;
  pack = λ request reply. codes "reply";
  question_a = λ domain. domain;
  answers = λ wire. none;
}

abbrev ask_example : Text → Option Text
ask_example wire = none

abbrev round_example : Round
round_example = record { blocklist = true; whitelist = true; brands = true; tokens = true }

abbrev shared_example : Shared
shared_example = record {
  resolver = record {
    cfg = record { block_ip = codes "10.9.9.9"; block_ttl = 60; scam_ttl = 600; unknown_ttl = 300 };
    blocklist = [];
    whitelist = [];
    brands = [];
    raw_first = true;
    raw_first_token = true;
  };
  doh_tokens = [];
}

below : IsAncestor (codes "evil.com") (query_name request_example)
unfolding has_char rstrip lower
below = record { dotted = refl; place = inr (codes "login", refl) }

import_tranco-unblocks_example :
    (resolve lib_example
      (refresh_lists round_example db_unblocked shared_example).resolver
      ask_example
      memory
      fresh
      (codes "wire")
      none
      none).0.blocked
    ≡ false
unfolding names same
import_tranco-unblocks_example =
    import_tranco-unblocks lib_example ask_example memory fresh (codes "wire") request_example none
      none (memory_keys Payload) (memory_keys Text) (codes "evil.com") none admin_example 2
      lines_example rows_example db_unblocked round_example shared_example refl refl refl lines_read
      refl imported_again below
