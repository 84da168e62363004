-- ===== src/Api/Push/Tests.antt =====
-- api/: runs of the messages, the listings and the reports of users.
use scamlens.Base.{
  split, join, elem, has_char, rstrip, starts_with, strip, lower, same, ℕ, Bool, true, false, ◌||◌,
  ◌==◌, ◌≡◌, ◌≤◌, refl, arith, Text, List, [], ◌∷◌, Option, none, some, codes, if◌then◌else◌, All,
  length,
}
use scamlens.Base.{ltb, All}
use scamlens.Api.Push.{
  Subscription, Subscriptions, PushLib, Message, Delivery, delivered, push_exception,
}
use scamlens.Api.Push.Keyed.{IsKeyed, AreKeyed, id_free, key_free}
use scamlens.Api.Me.{User, Link, Request, accepted, invite, watches, is_accepted}
use scamlens.Api.Me.Consent.{agreed}
use scamlens.Api.Me.Shown.{IsSoundLink}
use scamlens.Api.Auth.{Account, fetch_by_id}
use scamlens.Api.Events.Bounded.{Step, joins, steps}
use scamlens.Api.Events.Notify.{Audience}
use scamlens.Api.Report.{ReportRequest, reported, report, insert_report, normalize, client_ip}
use scamlens.Api.Report.Moderated.{has_report}
use scamlens.Api.Admin.{before, drop_prefix}
use scamlens.Dns.Cache
use scamlens.Dns.Resolver
use scamlens.Dns.Cache.Concrete.{memory, fresh}
use scamlens.Base.{ends_with}
use scamlens.Dns.Resolver.{
  DnsLib, resolve, resolve_request, block, is_bypass, any_suffix, match_chain, parent_chain,
  chain_of, any_in,
}
use scamlens.Dns.Resolver.Tasks.{BlockEvent, World}
use scamlens.Postgres.{AttemptRow, Db, waiting}
use scamlens.Api.Admin.{reject_report, confirm_report}
use scamlens.Api.Events.Bounded.{steps}
use scamlens.Api.Events.Notify.{Audience, handle_event}
use scamlens.Api.Events.Reached.{resolve-told, handle_events}
use scamlens.Api.Events.Told.{AllEnd, streams_of, handle_event-private}
use scamlens.Api.Me.{handle_all, watches}
use scamlens.Api.Me.Listing.{list_links, my_blocks}
use scamlens.Api.Me.Shown.{list_links_iff, names, my_blocks-IsAllowed, IsAllowed}
use scamlens.Api.Push.{send_to_user, payload_of, subs_of}
use scamlens.Api.Push.Pruned.{
  send_to_user_lem, count_delivered, without_gone, send_to_user-keeps_dead,
}
use scamlens.Api.Report.Moderated.{report-moderated}
use scamlens.Dns.Db.{load_blocklist}
use scamlens.Dns.Resolver.{resolve}
use scamlens.Dns.Resolver.Decision.{query_name}
use scamlens.Dns.Resolver.Tasks.{run_tasks, BlockEvent}

abbrev gone_for : Text → Delivery ℕ
gone_for endpoint = if same endpoint (codes "old") then push_exception (some 410) else delivered

-- A response is its status.
abbrev push_example : PushLib
push_example = record {
  Response = ℕ;
  status_code = λ status. status;
  truth = λ status. ltb status 400;
  webpush = λ endpoint p256dh auth payload. gone_for endpoint;
  dumps = λ title body url tag. title;
}

abbrev message_example : Message
message_example = record { title = codes "hello"; body = []; url = none; tag = none }

abbrev sub_example : ℕ → Text → Subscription
sub_example id endpoint = record {
  id = id;
  user_id = 1;
  endpoint = endpoint;
  p256dh = [];
  auth = [];
  user_agent = none;
}

abbrev subs_example : Subscriptions
subs_example = record {
  next_id = 3;
  rows = sub_example 1 (codes "old") ∷ sub_example 2 (codes "new") ∷ [];
}

subs_example-IsKeyed : IsKeyed subs_example
unfolding AreKeyed id_free key_free same
subs_example-IsKeyed = (omega arith, refl, refl, (omega arith, refl, refl, tt))

abbrev link_example : Link
link_example = record { id = 1; guardian_id = 2; ward_id = 1; status = accepted }

abbrev links_example : List Link
links_example = link_example ∷ []

abbrev event_example : BlockEvent
event_example = record {
  user_id = 1;
  domain = codes "evil.com";
  reason = codes "blocklist";
  verdict = Cache.scam;
  risk_score = 95;
  confidence = 90;
  mimics_brand = none;
  resolved_ip = none;
}

abbrev stream_example : List (Step BlockEvent)
stream_example = joins 2 7 ∷ []

told : (2 == 1 || watches 2 1 links_example) ≡ true
unfolding watches is_accepted
told = refl

abbrev request_example : Resolver.Request
request_example = record { qname = codes "login.evil.com."; qtype = codes "A" }

abbrev dns_example : DnsLib
dns_example = record {
  parse = λ wire. some request_example;
  pack = λ request reply. codes "reply";
  question_a = λ domain. domain;
  answers = λ wire. none;
}

abbrev ask_example : Text → Option Text
ask_example wire = none

abbrev resolver_example : Resolver.Resolver
resolver_example = record {
  cfg = record { block_ip = codes "10.9.9.9"; block_ttl = 60; scam_ttl = 600; unknown_ttl = 300 };
  blocklist = codes "evil.com" ∷ [];
  whitelist = [];
  brands = [];
  raw_first = true;
  raw_first_token = true;
}

blocked_here :
    (resolve dns_example resolver_example ask_example memory fresh
      (codes "wire")
      none
      (some 1)).0.blocked
    ≡ true
unfolding resolve resolve_request block is_bypass any_suffix ends_with match_chain parent_chain
    chain_of any_in rstrip lower split join elem same
blocked_here = refl

abbrev db_example : Db
db_example = record {
  blocklist_seed = [];
  whitelist = [];
  domain_verdicts = [];
  user_reports = [];
  brand_domains = [];
  blocked_attempts = [];
  users = [];
}

abbrev world_example : World memory
world_example = record { cache = fresh; db = db_example; events = [] }

abbrev users_example : List User
users_example =
    record { id = 1; invite_code = codes "ANNA" }
    ∷ record { id = 2; invite_code = codes "BOBB" }
    ∷ []

-- User 2 invites user 1, who does not answer.
abbrev requests_example : List (User × Request)
requests_example = (record { id = 2; invite_code = codes "BOBB" }, invite (codes "anna")) ∷ []

abbrev audience_example : Audience
audience_example = record { listeners = steps BlockEvent stream_example; subs = subs_example }

unanswered : agreed users_example 2 1 requests_example ≡ false
unfolding agreed
unanswered = refl

abbrev account_example : ℕ → Account
account_example id = record {
  id = id;
  email = [];
  password_hash = [];
  role = codes "user";
  invite_code = [];
  doh_token = [];
  display_name = none;
  last_login = none;
}

abbrev accounts_example : List Account
accounts_example = account_example 1 ∷ account_example 2 ∷ []

links_sound : All (IsSoundLink accounts_example) links_example
unfolding fetch_by_id
links_sound = (((account_example 2, refl), (account_example 1, refl), refl), tt)

abbrev attempts_example : List AttemptRow
attempts_example =
    record {
      domain = codes "evil.com";
      reason = codes "blocklist";
      verdict = Cache.scam;
      risk_score = 95;
      confidence = 90;
      mimics_brand = none;
      client_ip = none;
      resolved_ip = none;
      user_id = some 1;
    }
    ∷ []

abbrev any_text : Text → Bool
any_text t = true

abbrev report_example : ReportRequest
report_example = record { domain = codes "https://Evil.com/login"; note = none }

abbrev db_reported : Db
db_reported = record db_example {
  user_reports =
      record {
        id = 4;
        domain = codes "evil.com";
        note = none;
        reporter_ip = codes "0.0.0.0";
        status = waiting;
      }
      ∷ [];
}

report_accepted :
    report any_text 4 report_example [] none db_example
    ≡ (reported 4 (codes "evil.com"), db_reported)
unfolding report insert_report normalize client_ip lower strip rstrip has_char starts_with before
    drop_prefix
report_accepted = refl

send_to_user_lem_example :
    ((send_to_user push_example true 1 message_example subs_example).0
      ≡ count_delivered push_example (payload_of push_example message_example) 1 subs_example.rows)
    × ((send_to_user push_example true 1 message_example subs_example).1 ≡ record subs_example {
      rows =
          without_gone push_example (payload_of push_example message_example) 1 subs_example.rows;
    })
send_to_user_lem_example =
    send_to_user_lem push_example 1 message_example subs_example subs_example-IsKeyed

send_to_user-keeps_dead_example :
    (send_to_user push_example true 1 message_example subs_example).1 ≡ subs_example
send_to_user-keeps_dead_example =
    send_to_user-keeps_dead push_example true 1 message_example subs_example (λ status. refl)

resolve-told_example :
    let published =
      (run_tasks dns_example ask_example memory resolver_example.cfg true true true 100
        (resolve dns_example resolver_example ask_example memory fresh
          (codes "wire")
          none
          (some 1)).1
        world_example).events in
    let before : Audience = record {
      listeners = steps BlockEvent stream_example;
      subs = subs_example;
    } in
    (e : BlockEvent) × (published ≡ e ∷ [])
    × (e.domain ≡ query_name request_example)
    × AllEnd BlockEvent e (
        streams_of BlockEvent 2
          (handle_events push_example true [] links_example published before).listeners)
resolve-told_example =
    resolve-told push_example true [] links_example stream_example subs_example 2 dns_example
      resolver_example ask_example memory fresh (codes "wire") request_example none 1 true true 100
      world_example refl blocked_here refl told

handle_event-private_example :
    let after =
      handle_event push_example true []
        (handle_all users_example requests_example).rows
        event_example
        audience_example in
    (streams_of BlockEvent 2 after.listeners ≡ streams_of BlockEvent 2 audience_example.listeners)
    × (subs_of 2 after.subs.rows ≡ subs_of 2 audience_example.subs.rows)
handle_event-private_example =
    handle_event-private push_example true [] users_example requests_example event_example
      audience_example 2 subs_example-IsKeyed refl unanswered

list_links_iff_example :
    (names 2 (list_links accounts_example 1 links_example).wards ≡ watches 1 2 links_example)
    × (names 2 (list_links accounts_example 1 links_example).guardians ≡ watches 2 1 links_example)
list_links_iff_example = list_links_iff accounts_example 1 2 links_example links_sound

my_blocks-IsAllowed_example :
    let shown = my_blocks 50 1 (handle_all users_example requests_example).rows attempts_example in
    All (IsAllowed users_example requests_example 1) shown × (length shown ≤ 200)
my_blocks-IsAllowed_example =
    my_blocks-IsAllowed users_example requests_example 50 1 attempts_example

report-moderated_example :
    (elem (codes "evil.com") (load_blocklist true db_reported)
      ≡ elem (codes "evil.com") (load_blocklist true db_example))
    × (elem (codes "evil.com") (load_blocklist true (reject_report 4 db_reported).1)
        ≡ elem (codes "evil.com") (load_blocklist true db_example))
    × (elem (codes "evil.com") (load_blocklist true (confirm_report 4 db_reported).1) ≡ (
        same (codes "evil.com") (codes "evil.com")
        || elem (codes "evil.com") (load_blocklist true db_example)))
unfolding has_report
report-moderated_example =
    report-moderated any_text 4 4 report_example [] none (codes "evil.com") (codes "evil.com")
      db_example db_reported refl report_accepted
