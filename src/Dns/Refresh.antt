-- ===== src/Dns/Refresh.antt =====
-- dns_server/main.py: the lists that the resolver holds, at the start and after each round of
-- `_refresh_lists_loop`. A flag says whether each statement succeeds; the pool is there.
pub mod Kept
use scamlens.Base.{
  ℕ, Bool, true, false, Text, List, [], ◌∷◌, map, Option, none, some, if◌then◌else◌,
}
use scamlens.Dns.Db.{load_blocklist, load_whitelist, load_brand_domains, load_doh_tokens}
use scamlens.Dns.Resolver.{Config, Resolver}
use scamlens.Dns.Typosquat.Detector.{Anchor}
use scamlens.Postgres.{Db}

-- Which of the four statements of a round succeed.
pub record Round : Type 0 where
  pub blocklist : Bool
  pub whitelist : Bool
  pub brands : Bool
  pub tokens : Bool

-- What the listeners share with the loop.
pub record Shared : Type 0 where
  pub resolver : Resolver
  pub doh_tokens : List (Text × ℕ)

-- `typosquat.__init__({d: b for d, b in brands})`
unfoldable pub anchors : List (Text × Text) → List Anchor
anchors rows = map (λ ((d, b) : Text × Text). record { canonical = d; brand = b }) rows

-- One round. `load_blocklist` lets its exception out, and then nothing of the round is done; the
-- other three return nothing in place of theirs.
unfoldable pub refresh_lists : Round → Db → Shared → Shared
unfolding anchors
refresh_lists round db shared =
    if round.blocklist
    then record {
      resolver = record (shared.resolver) {
        blocklist = load_blocklist true db;
        whitelist = load_whitelist true round.whitelist db;
        brands = anchors (load_brand_domains true round.brands db);
      };
      doh_tokens = load_doh_tokens true round.tokens db;
    }
    else shared

-- `run` up to the listeners: `none` where the start fails.
unfoldable pub boot : Config → Bool → Bool → Round → Db → Option Shared
unfolding anchors
boot cfg raw_first raw_first_token round db =
    if round.blocklist
    then some (record {
      resolver = record {
        cfg = cfg;
        blocklist = load_blocklist true db;
        whitelist = load_whitelist true round.whitelist db;
        brands = anchors (load_brand_domains true round.brands db);
        raw_first = raw_first;
        raw_first_token = raw_first_token;
      };
      doh_tokens = load_doh_tokens true round.tokens db;
    })
    else none

-- The rounds of the loop, each with the tables of its time.
unfoldable pub refresh_loop : List (Round × Db) → Shared → Shared
unfolding refresh_lists
refresh_loop [] shared = shared
refresh_loop ((round, db) ∷ rounds) shared = refresh_loop rounds (refresh_lists round db shared)
