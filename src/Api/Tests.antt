-- ===== src/Api/Tests.antt =====
-- api/: runs of the handlers.
use scamlens.Base.{
  split, join, elem, has_char, rstrip, white, starts_with, strip, lower, same, ℕ, Bool, true, false,
  ◌≡◌, ◌++◌, refl, arith, Text, List, [], ◌∷◌, Option, none, some, codes, inr, if◌then◌else◌,
  decimal, returned,
}
use mathlib.Core.List.{Sublistᴰ}
use scamlens.Dns.Cache.{Payload}
use scamlens.Dns.Cache.Concrete.{memory, fresh}
use scamlens.Base.{ends_with}
use scamlens.Dns.Resolver
use scamlens.Dns.Resolver.{
  DnsLib, is_bypass, any_suffix, match_chain, parent_chain, chain_of, any_in,
}
use scamlens.Dns.Resolver.Ancestors.{IsAncestor}
use scamlens.Dns.Resolver.Decision.{query_name}
use scamlens.Dns.Refresh.{Round, Shared}
use scamlens.Postgres.{Db, ReportRow, confirmed, has_white}
use scamlens.Redis.Memory.{memory_keys, no_entries, get-no_entries}
use scamlens.Api.Admin.{Admin, norm}
use scamlens.Api.Check.Order.{all_named}
use scamlens.Dns.Db.{seed_domains}
use scamlens.Api.Me.{
  User, Request, invite, accept, handle, invite_dependent, accept_link, watches, handle_all,
}
use scamlens.Api.Deep.{Report, DeepState, response, failed}
use scamlens.Api.Deep.Protocol.{refused}
use scamlens.Base.{returned, decimal}
use scamlens.Api.Events.{put}
use scamlens.Api.Events.Sse.{Turn, puts, polls, feed}
use scamlens.Api.Events.InOrder.{keeps_up}
use mathlib.Core.List.{Sublistᴰ}
use scamlens.Api.Admin.{add_blocklist, path_domain, remove_blocklist}
use scamlens.Api.Admin.Lists.{remove_blocklist_loads}
use scamlens.Api.Admin.Reach.{add_blocklist-blocked}
use scamlens.Api.Check.{check, CheckResponse}
use scamlens.Api.Check.Order.{check_blocked}
use scamlens.Api.Deep.{
  done, pending, Report, deep_get, response, deep_post, failed, run_deep_scan, idle,
}
use scamlens.Api.Deep.Protocol.{run_deep_scan_done, pass}
use scamlens.Api.Events.InOrder.{feed-InOrder, history, read_and_waiting, feed-eq-history}
use scamlens.Api.Events.Sse.{feed}
use scamlens.Api.Me.Consent.{watches-agreed, agreed}
use scamlens.Dns.Cache.{Payload}
use scamlens.Dns.Db.{load_blocklist, confirmed_domains}
use scamlens.Dns.Refresh.{refresh_lists}
use scamlens.Dns.Resolver.{resolve}

abbrev report_example : ReportRow
report_example = record {
  id = 4;
  domain = codes "evil.com";
  note = none;
  reporter_ip = [];
  status = confirmed;
}

abbrev db_example : Db
db_example = record {
  blocklist_seed =
      record {
        domain = codes "evil.com";
        category = codes "user-report";
        source_post = none;
        source_platform = none;
      }
      ∷ [];
  whitelist = [];
  domain_verdicts = [];
  user_reports = report_example ∷ [];
  brand_domains = [];
  blocked_attempts = [];
  users = [];
}

abbrev admin_example : Admin (memory_keys Payload) (memory_keys Text)
admin_example = record {
  db = db_example;
  verdicts_state = no_entries Payload;
  deep_state = no_entries Text;
}

abbrev request_example : Resolver.Request
request_example = record { qname = codes "login.evil.com."; qtype = codes "A" }

abbrev lib_example : DnsLib
lib_example = record {
  parse = λ wire. some request_example;
  pack = λ request reply. codes "reply";
  question_a = λ domain. domain;
  answers = λ wire. none;
}

abbrev ask_example : Text → Option Text
ask_example wire = none

abbrev round_example : Round
round_example = record { blocklist = true; whitelist = true; brands = true; tokens = true }

abbrev shared_example : Shared
shared_example = record {
  resolver = record {
    cfg = record { block_ip = codes "10.9.9.9"; block_ttl = 60; scam_ttl = 600; unknown_ttl = 300 };
    blocklist = [];
    whitelist = [];
    brands = [];
    raw_first = true;
    raw_first_token = true;
  };
  doh_tokens = [];
}

not_bypassed : is_bypass (query_name request_example) ≡ false
unfolding is_bypass any_suffix ends_with rstrip lower strip same
not_bypassed = refl

below : IsAncestor (codes "evil.com") (query_name request_example)
unfolding has_char rstrip lower
below = record { dotted = refl; place = inr (codes "login", refl) }

-- The domain of a confirmed report is loaded again after it was removed.
removed_test :
    elem (codes "evil.com") (
      load_blocklist true
        (remove_blocklist
          (memory_keys Payload)
          (memory_keys Text)
          (codes "evil.com")
          admin_example).db)
    ≡ true
unfolding elem load_blocklist remove_blocklist strip lower same
removed_test = refl

entry_accepted : norm (codes "https://Evil.com/path?q") ≡ some (codes "evil.com")
unfolding norm strip lower starts_with has_char
entry_accepted = refl

-- The dots are stripped before the path is cut.
entry_with_dot : norm (codes "https://evil.com./login") ≡ some (codes "evil.com.")
unfolding norm strip lower starts_with has_char
entry_with_dot = refl

abbrev ann : User
ann = record { id = 1; invite_code = codes "ANNA" }

abbrev bob : User
bob = record { id = 2; invite_code = codes "BOBB" }

abbrev users_example : List User
users_example = ann ∷ bob ∷ []

abbrev requests_example : List (User × Request)
requests_example = (bob, accept 1) ∷ (ann, invite (codes " bobb ")) ∷ []

now_watching : watches 1 2 (handle_all users_example requests_example).rows ≡ true
unfolding watches handle_all handle invite_dependent accept_link strip same
now_watching = refl

abbrev no_ip : Text → Option Text
no_ip domain = none

abbrev always : Text → Bool
always domain = true

name_listed :
    match_chain
      (rstrip (codes ".") (lower (strip white (codes "login.evil.com"))))
      (seed_domains db_example.blocklist_seed)
    ≡ true
unfolding match_chain parent_chain chain_of any_in rstrip lower strip split join elem same
    seed_domains
name_listed = refl

abbrev deep_example : DeepState (memory_keys Report) (memory_keys Text)
deep_example = record { reports = no_entries Report; locks = no_entries Text }

abbrev turns_example : List (Turn ℕ)
turns_example = polls ∷ polls ∷ puts 2 ∷ polls ∷ puts 1 ∷ []

add_blocklist-blocked_example :
    (resolve lib_example
      (refresh_lists round_example
        (add_blocklist
          (memory_keys Payload)
          (memory_keys Text)
          (codes "evil.com")
          none
          admin_example).db
        shared_example).resolver
      ask_example
      memory
      fresh
      (codes "wire")
      none
      none).0.blocked
    ≡ true
unfolding has_white
add_blocklist-blocked_example =
    add_blocklist-blocked lib_example ask_example memory fresh (codes "wire") request_example none
      none (memory_keys Payload) (memory_keys Text) (codes "evil.com") none admin_example
      round_example shared_example refl refl not_bypassed below (λ j above other. refl)

feed-InOrder_example : Sublistᴰ (read_and_waiting (feed ℕ turns_example)) (history turns_example)
feed-InOrder_example = feed-InOrder turns_example

feed-eq-history_example : read_and_waiting (feed ℕ turns_example) ≡ history turns_example
unfolding keeps_up feed put
feed-eq-history_example = feed-eq-history turns_example refl

remove_blocklist_loads_example :
    let after =
      remove_blocklist (memory_keys Payload) (memory_keys Text) (codes "Evil.com.") admin_example in
    (elem (codes "evil.com") (load_blocklist true after.db) ≡ (
      if same (codes "evil.com") (path_domain (codes "Evil.com."))
      then elem (codes "evil.com") (confirmed_domains admin_example.db.user_reports)
      else elem (codes "evil.com") (load_blocklist true admin_example.db)))
    × (((memory_keys Payload).get
            (codes "verdict:" ++ path_domain (codes "Evil.com."))
            after.verdicts_state
          ≡ none)
        × ((memory_keys Text).get
              (codes "deep:" ++ path_domain (codes "Evil.com."))
              after.deep_state
            ≡ none))
remove_blocklist_loads_example =
    remove_blocklist_loads (memory_keys Payload) (memory_keys Text) (codes "Evil.com.")
      (codes "evil.com") admin_example

watches-agreed_example : agreed users_example 1 2 requests_example ≡ true
watches-agreed_example = watches-agreed users_example 1 2 requests_example now_watching

check_blocked_example :
    ((response : CheckResponse) × ((check memory no_ip always
          (codes "login.evil.com")
          db_example
          fresh).0
        ≡ some response)
      × (response.verdict ≡ codes "scam"))
    × ((check memory no_ip always (codes "login.evil.com") db_example fresh).1 ≡ fresh)
unfolding all_named
check_blocked_example =
    check_blocked memory no_ip always (codes "login.evil.com") db_example fresh refl refl
      name_listed

run_deep_scan_done_example :
    let (answer, task, started) =
      deep_post (memory_keys Report) (memory_keys Text) (codes "evil.com") deep_example in
    let waiting = pass (memory_keys Report) (memory_keys Text) 20 started in
    let ended =
      run_deep_scan
        (memory_keys Report)
        (memory_keys Text)
        (codes "evil.com")
        (response 503 (returned []))
        waiting in
    (task ≡ some (codes "evil.com"))
    × (deep_get (memory_keys Report) (memory_keys Text) (codes "evil.com") waiting
        ≡ pending (codes "evil.com"))
    × (deep_get
          (memory_keys Report)
          (memory_keys Text)
          (codes "evil.com")
          (pass (memory_keys Report) (memory_keys Text) 299 ended)
        ≡ done
            (codes "evil.com")
            (failed (codes "evil.com") (codes "scanner returned " ++ decimal 503)))
    × (deep_get
          (memory_keys Report)
          (memory_keys Text)
          (codes "evil.com")
          (pass (memory_keys Report) (memory_keys Text) 300 ended)
        ≡ idle (codes "evil.com"))
run_deep_scan_done_example =
    run_deep_scan_done (memory_keys Report) (memory_keys Text) (codes "evil.com")
      (response 503 (returned []))
      (failed (codes "evil.com") (codes "scanner returned " ++ decimal 503)) 300 20 299 300
      deep_example (get-no_entries Report (codes "deep:" ++ codes "evil.com"))
      (get-no_entries Text (codes "deep_lock:" ++ codes "evil.com"))
      (refused 503 (returned []) refl) (omega arith) (omega arith) (omega arith)
