-- ===== src/Dns/Upstream/Answers.antt =====
-- Where an upstream answer comes from.
use scamlens.Base.{false, ◌≡◌, refl, arith, Text, List, [], ◌∷◌, Option, some, ◌⊎◌, inl, inr, In}
use scamlens.Dns.Upstream.{
  Attempt, answer, nothing, timed_out, failed, is_truncated, is_empty, Round, return, next,
  after_tcp, after_udp, query_servers, query,
}

-- The answer is a server's TCP answer, or a UDP answer that is not empty and not cut off.
pub record IsWhole (udp tcp : Attempt) (w : Text) : Type 0 where
  pub origin :
      (tcp ≡ answer w) ⊎ ((udp ≡ answer w) × (is_empty w ≡ false) × (is_truncated w ≡ false))

after_udp-IsWhole : (u t : Attempt) {w : Text} → after_udp u t ≡ return (some w) → IsWhole u t w
unfolding after_udp after_tcp
after_udp-IsWhole (answer v) (answer x) h = record { origin = ground arith }
after_udp-IsWhole (answer v) nothing h = record { origin = ground arith }
after_udp-IsWhole (answer v) timed_out h = record { origin = ground arith }
after_udp-IsWhole (answer v) failed h = record { origin = ground arith }
after_udp-IsWhole nothing t h = cc
after_udp-IsWhole timed_out t h = cc
after_udp-IsWhole failed t h = cc

Round-cases : (r : Round) → (r ≡ next) ⊎ ((o : Option Text) × (r ≡ return o))
Round-cases next = inl refl
Round-cases (return o) = inr (o, refl)

module _ (udp tcp : Text → Text → Attempt) where
  query_servers-IsWhole :
      (servers : List Text) (wire : Text) {w : Text}
      → query_servers udp tcp servers wire ≡ some w
      → (server : Text) × In server servers × IsWhole (udp server wire) (tcp server wire) w
  unfolding query_servers
  query_servers-IsWhole [] wire h = cc
  query_servers-IsWhole (s ∷ servers) wire {w} h =
      elim (Round-cases (after_udp (udp s wire) (tcp s wire))) [
        | inl e ↦
            let (server, m, p) = query_servers-IsWhole servers wire (rw (e, query_servers) at h) in
            (server, inr m, p)
        | inr (o, e) ↦
            let same_o : o ≡ some w = rw (e, query_servers) at h in
            (s, inl refl, after_udp-IsWhole (udp s wire) (tcp s wire) (cc (e, same_o)))
      ]

-- Every answer of the upstream resolver is what the primary or the fallback server said: its TCP
-- answer, or a UDP answer that is not empty and whose TC bit is not set.
query-IsWhole :
    (udp tcp : Text → Text → Attempt) (primary fallback wire : Text) {w : Text}
    → query udp tcp primary fallback wire ≡ some w
    → (server : Text) × In server (primary ∷ fallback ∷ [])
      × IsWhole (udp server wire) (tcp server wire) w
unfolding query
query-IsWhole udp tcp primary fallback wire h =
    query_servers-IsWhole udp tcp (primary ∷ fallback ∷ []) wire h
