-- ===== src/Scanner/Rdap.antt =====
-- ai_scanner/rdap.py: the age of a domain, with its cache. The HTTP reply and the clock behind
-- `_days_since` are parameters.
pub mod Cached
use mathlib.Core.List.{reverse}
use scamlens.Base.{
  ℕ, Bool, true, false, ◌*◌, Text, List, [], ◌∷◌, ◌++◌, Option, none, some, same, elem, lower,
  strip, split, Attempt, returned, raised, join, codes, ◌==◌, not, if◌then◌else◌,
}
use scamlens.Redis.{Keys}
use scamlens.Dns.Typosquat.Labels.{compound}

pub record DomainAge : Type 0 where
  pub days : Option ℕ
  pub registered_at : Option Text

-- An item of `events`: an object with its action and its date, which is a text or absent, or a JSON value of another kind.
pub data RdapEvent : Type 0 where
  event : Text → Option Text → RdapEvent
  no_object : RdapEvent

-- The JSON of a reply: an object with its events, none where they are absent; or a value whose
-- events cannot be walked, since it is no object or they are no list, with the exception of that.
pub data RdapData : Type 0 where
  object : List RdapEvent → RdapData
  malformed : Text → RdapData

-- A request or a JSON reader that raises, or a reply with its status.
pub data RdapReply : Type 0 where
  error : RdapReply
  reply : ℕ → RdapData → RdapReply

abbrev pub rdap_cache_ttl : ℕ
rdap_cache_ttl = 90 * 24 * 3600

-- `parts` in reverse, with the text to return when there are less than two.
unfoldable pub registered_of : Text → List Text → Text
registered_of domain [] = domain
registered_of domain (tld ∷ []) = domain
registered_of domain (tld ∷ second ∷ []) = join (codes ".") (second ∷ tld ∷ [])
registered_of domain (tld ∷ second ∷ third ∷ rest) =
    if elem (join (codes ".") (second ∷ tld ∷ [])) compound
    then join (codes ".") (third ∷ second ∷ tld ∷ [])
    else join (codes ".") (second ∷ tld ∷ [])

unfoldable pub registered_label : Text → Text
registered_label domain =
    registered_of domain (reverse (split b'.' (strip (codes ".") (lower domain))))

-- The loop over the events; `e.get` raises on an item that is no object.
unfoldable pub registration : List RdapEvent → Attempt (Option Text)
registration [] = returned none
registration (no_object ∷ es) = raised (codes "AttributeError")
registration (event action date ∷ es) =
    let rest = registration es in if same action (codes "registration") then returned date else rest

abbrev pub registration_in : RdapData → Attempt (Option Text)
registration_in (object events) = registration events
registration_in (malformed name) = raised name

module _ (rdap : Text → RdapReply) (days_since : Text → Option ℕ) where
  unfoldable pub fetch_rdap_registration : Text → Attempt (Option Text)
  unfolding registration
  fetch_rdap_registration domain =
      elim (rdap (codes "https://rdap.org/domain/" ++ registered_label domain)) [
        | error ↦ returned none
        | reply status body ↦ if not (status == 200) then returned none else registration_in body
      ]

  -- `_days_since(registered_at) if registered_at else None`
  abbrev pub days_of : Option Text → Option ℕ
  days_of none = none
  days_of (some []) = none
  days_of (some (c ∷ t)) = days_since (c ∷ t)

  abbrev pub age_of : Attempt (Option Text) → Attempt DomainAge
  age_of (raised name) = raised name
  age_of (returned at) = returned (record { days = days_of at; registered_at = at })

  unfoldable pub fresh_age : Text → Attempt DomainAge
  fresh_age domain = age_of (fetch_rdap_registration domain)

  module _ (ages : Keys DomainAge) where
    -- Only an age is kept: an exception leaves the cache as it is.
    abbrev pub remember : Text → Attempt DomainAge → ages.State → Attempt DomainAge × ages.State
    remember key (raised name) s = (raised name, s)
    remember key (returned age) s = (returned age, ages.set key age rdap_cache_ttl s)

    unfoldable pub lookup_age : Text → ages.State → Attempt DomainAge × ages.State
    lookup_age domain s =
        let key = codes "rdap:" ++ registered_label domain in
        elim (ages.get key s) [
          | some age ↦ (returned age, s)
          | none ↦ remember key (fresh_age domain) s
        ]
