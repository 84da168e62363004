-- ===== src/Dns/Upstream.antt =====
-- dns_server/upstream.py: the walk over the upstream servers. The sockets are parameters: what a
-- UDP and a TCP query of a server come to.
pub mod Answers
use Prim.Native.Nat.{bit_and, bit_or}
use scamlens.Base.{
  ℕ, Bool, true, false, ◌*◌, Text, List, [], ◌∷◌, Option, none, some, not, ◌==◌, if◌then◌else◌,
}

pub data Attempt : Type 0 where
  answer : Text → Attempt
  nothing timed_out failed : Attempt

-- The TC bit of the flags in the DNS header.
unfoldable pub is_truncated : Text → Bool
is_truncated (b0 ∷ b1 ∷ b2 ∷ b3 ∷ rest) = not (bit_and (bit_or (b2 * 256) b3) 0x0200 == 0)
is_truncated _ = false

abbrev pub is_empty : Text → Bool
is_empty [] = true
is_empty (b ∷ bs) = false

-- One round of the loop over TCP: it returns, or it goes on after an exception.
pub data Round : Type 0 where
  return : Option Text → Round
  next : Round

unfoldable pub after_tcp : Attempt → Round
after_tcp (answer w) = return (some w)
after_tcp nothing = return none
after_tcp timed_out = next
after_tcp failed = next

unfoldable pub after_udp : Attempt → Attempt → Round
unfolding is_truncated after_tcp
after_udp (answer w) tcp =
    if is_empty w then next else if is_truncated w then after_tcp tcp else return (some w)
after_udp nothing tcp = next
after_udp timed_out tcp = next
after_udp failed tcp = next

module _ (udp tcp : Text → Text → Attempt) where
  unfoldable pub query_servers : List Text → Text → Option Text
  unfolding after_udp
  query_servers [] wire = none
  query_servers (server ∷ servers) wire = elim (after_udp (udp server wire) (tcp server wire)) [
    | return r ↦ r
    | next ↦ query_servers servers wire
  ]

  -- `UpstreamResolver(primary, fallback).query(wire)`
  unfoldable pub query : Text → Text → Text → Option Text
  unfolding query_servers
  query primary fallback wire = query_servers (primary ∷ fallback ∷ []) wire
