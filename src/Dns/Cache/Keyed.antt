-- ===== src/Dns/Cache/Keyed.antt =====
-- What the cache answers after each of its writes.
use scamlens.Base.{
  ℕ, Bool, true, false, ◌≡◌, ◌<◌, refl, arith, Text, [], ◌∷◌, ◌++◌, Option, some, same, codes,
  if◌then◌else◌, ap, ◌∙◌,
}
use scamlens.Dns.Cache.{
  Verdict, Payload, Redis, CacheState, verdict?, of_payload, to_payload, get, set,
}

-- The prefix keeps keys apart.
pub same-prefix : (p k j : Text) → same (p ++ k) (p ++ j) ≡ same k j
unfolding same
same-prefix [] k j = refl
same-prefix (x ∷ p) k j = ground (arith, same-prefix p k j)

of_payload-to_payload : (v : Verdict) (now : ℕ) → of_payload (to_payload v now) ≡ v
unfolding of_payload to_payload
of_payload-to_payload v now = refl

pub verdict?-if :
    (b : Bool) (p : Payload) (o : Option Payload)
    → verdict? (if b then some p else o) ≡ (if b then some (of_payload p) else verdict? o)
verdict?-if true p o = refl
verdict?-if false p o = refl

-- For every time to live above 0: after `set` of a verdict for a domain, `get` of that domain
-- returns the same verdict, and `get` of any other domain returns what it did before.
pub get-set :
    (r : Redis) (k j : Text) (v : Verdict) (ttl now : ℕ) (s : CacheState r)
    → 0 < ttl
    → get r j (set r k v ttl now s) ≡ (if same k j then some v else get r j s)
unfolding get set
get-set r k j v ttl now s h =
    ap verdict? (
      r.verdicts.get-set (codes "verdict:" ++ k) (codes "verdict:" ++ j) (to_payload v now) ttl
        s.verdicts h)
    ∙ verdict?-if (same (codes "verdict:" ++ k) (codes "verdict:" ++ j)) (to_payload v now)
        (r.verdicts.get (codes "verdict:" ++ j) s.verdicts)
    ∙ rw (same-prefix (codes "verdict:") k j, of_payload-to_payload)
