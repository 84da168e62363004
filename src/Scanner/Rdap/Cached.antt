-- ===== src/Scanner/Rdap/Cached.antt =====
-- A second look within the time to live.
use scamlens.Base.{
  ℕ, ◌≡◌, ◌<◌, refl, Text, ◌++◌, Option, none, some, codes, ◌∙◌, Attempt, returned, raised,
}
use scamlens.Redis.{Keys}
use scamlens.Scanner.Rdap.{
  DomainAge, RdapReply, rdap_cache_ttl, registered_label, fresh_age, remember, lookup_age,
}

module _ (rdap : Text → RdapReply) (days_since : Text → Option ℕ) (ages : Keys DomainAge) where
  lookup_miss :
      (domain : Text) (s : ages.State)
      → ages.get (codes "rdap:" ++ registered_label domain) s ≡ none
      → lookup_age rdap days_since ages domain s
        ≡ remember rdap days_since ages
            (codes "rdap:" ++ registered_label domain)
            (fresh_age rdap days_since domain)
            s
  unfolding lookup_age
  lookup_miss domain s h = rw (h, lookup_age) refl

  lookup_hit :
      (domain : Text) (age : DomainAge) (s : ages.State)
      → ages.get (codes "rdap:" ++ registered_label domain) s ≡ some age
      → lookup_age rdap days_since ages domain s ≡ (returned age, s)
  unfolding lookup_age
  lookup_hit domain age s h = rw (h, lookup_age) refl

  remember-kept :
      (key : Text) (o : Attempt DomainAge) (age : DomainAge) (t : ℕ) (s : ages.State)
      → (remember rdap days_since ages key o s).0 ≡ returned age
      → t < rdap_cache_ttl
      → ages.get key (ages.elapse t (remember rdap days_since ages key o s).1) ≡ some age
  remember-kept key (raised name) age t s h lt = cc
  remember-kept key (returned found) age t s h lt =
      ages.get-elapse_kept key found rdap_cache_ttl t s lt ∙ cc

-- For a domain whose age is not cached and a lookup that returns an age: for 90 days after it, a
-- lookup of any domain with the same registered domain returns the same age and leaves the cache as
-- it is, whatever the RDAP service and the clock then say.
pub lookup_age_stable :
    (rdap rdap' : Text → RdapReply) (days_since days_since' : Text → Option ℕ)
    (ages : Keys DomainAge) (domain other : Text) (age : DomainAge) (t : ℕ) (s : ages.State)
    → ages.get (codes "rdap:" ++ registered_label domain) s ≡ none
    → (lookup_age rdap days_since ages domain s).0 ≡ returned age
    → registered_label other ≡ registered_label domain
    → t < rdap_cache_ttl
    → lookup_age rdap' days_since' ages other
        (ages.elapse t (lookup_age rdap days_since ages domain s).1)
      ≡ (returned age, ages.elapse t (lookup_age rdap days_since ages domain s).1)
lookup_age_stable rdap rdap' days_since days_since' ages domain other age t s h found e lt =
    let miss = lookup_miss rdap days_since ages domain s h in
    rw miss (
      lookup_hit rdap' days_since' ages other age _ (
        rw e (
          remember-kept rdap days_since ages (codes "rdap:" ++ registered_label domain)
            (fresh_age rdap days_since domain) age t s (rw miss at found) lt)))
