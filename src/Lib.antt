-- ===== src/Lib.antt =====
-- ScamLens: a DNS resolver that blocks scam domains, a scanner that judges pages with heuristics and
-- a language model, a scraper that collects links from social media, and an API. The services share
-- a Redis (verdicts under `verdict:`, markers, a scan queue) and a Postgres.
--
-- The interfaces:
--   Redis          what the program uses of Redis, as operations with laws; Redis/Memory is an instance
--                  that computes, for the tests
--   Postgres       the tables of postgres/init.sql as lists of rows, and the shared statements;
--                  Postgres/Seeds has the lemmas on membership
--   Base           shared names, Boolean tests, lists over the native numbers, and Python's str methods
--                  on texts, which are lists of character codes
-- The resolver, dns_server/:
--   Dns/Typosquat  typosquat.py: Levenshtein (_levenshtein), Boundary (_contains_at_boundary), Labels
--                  (_normalize, _etld_plus_one_label), Detector (TyposquatDetector)
--   Dns/Cache      cache.py: VerdictCache
--   Dns/Db         db.py: Database
--   Dns/Upstream   upstream.py: UpstreamResolver.query, the sockets being parameters
--   Dns/Resolver   resolver.py: Resolver.resolve; a call returns its background tasks, which
--                  Resolver/Tasks runs
--   Dns/Refresh    main.py: the lists at the start (run) and after each round of _refresh_lists_loop
--   Dns/Servers    servers.py: the handlers of UDP and TCP and _pad_b64; Servers/Doh has _process of
--                  DNS over HTTPS
-- The scanner, ai_scanner/:
--   Scanner/Heuristics  heuristics.py: analyze, severity_floor, classify_empty_page
--   Scanner/Ai          ai.py: _parse_verdict, _build_user_text; Ai/Clients has the three clients,
--                       _sniff_image_mime and build_client
--   Scanner/Store       store.py: VerdictStore
--   Scanner/Rdap        rdap.py: lookup_age
--   Scanner/Worker      worker.py: _run_one and _apply_heuristic_floor; Worker/Loop has run
--   Scanner/Control     control.py: _extract_links, _triage_links, _apply_floor; Control/Report has the
--                       handler scan
-- The scraper, social_scraper/:
--   Scraper/Extract     extract.py
--   Scraper/Worker      worker.py: the three kinds of run and their handlers
--   Scraper/Control     control.py: the lock around a manual run
-- The API, api/:
--   Api/Admin           routers/admin.py: blocklist, whitelist, reports
--   Api/Auth            auth.py: tokens and principals; bcrypt and PyJWT are interfaces with laws, of
--                       which Auth/Concrete has instances that compute
--   Api/Accounts        routers/auth.py: register, login, and the login of routers/admin.py
--   Api/Me              routers/me.py: links between guardians and wards; Me/Listing has list_links and
--                       my_blocks
--   Api/Report          routers/report.py and the ReportRequest of models.py
--   Api/Push            push.py and routers/push.py: subscriptions and sends
--   Api/Check           routers/check.py
--   Api/Deep            routers/deep.py
--   Api/Events          events.py: EventBus; Events/Notify has _handle_event, and
--                       Events/Sse the stream of a client, sse_blocks of routers/events.py
-- The tools, scripts/:
--   Scripts/Tranco      import_tranco.py
--
-- Text is compared and lowered as ASCII. Regular expressions, urlparse, JSON readers, dnslib, sockets,
-- the clock, `list.sort`, the
-- retrying of tenacity, the page fetcher and the services of the models are parameters, and a statement
-- or call that may fail has a flag or a result that says so. A JSON object is a record, an absent field being `none`. The
-- order in which Python walks a set is a flag. Times to live are seconds, and Redis has an operation
-- by which seconds pass. Handlers run one after the other, as the event loop runs them between two
-- awaits; their interleavings are not modelled, nor those of the worker's tasks: its loop is a list of
-- turns, each with the seconds that pass before it, and a scan ends before the next one is popped.
-- What is drawn at random (salts, codes, tokens of accounts) is an argument. A TCP connection is the
-- finite stream that its peer sends before it closes, and the loop over it is on fuel,
-- one more than the bytes of the stream, since a query takes two bytes at least; the printing of a
-- number is on fuel, one more than the number, which is at least the number of its digits.
--
-- Not modelled: the sockets and routes of the listeners, the page fetcher, the clients of the social
-- networks, the statistics and the plain listings of the API, templates of
-- profiles, configuration, and the other tools of scripts/ and docs/.
pub mod Base
pub mod Redis
pub mod Postgres
pub mod Dns
pub mod Scanner
pub mod Scraper
pub mod Api
pub mod Scripts
