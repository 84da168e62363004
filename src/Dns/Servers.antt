-- ===== src/Dns/Servers.antt =====
-- dns_server/servers.py: the listeners. `resolve` stands for `resolver.resolve`, from a query and a
-- state to the wire of the result, or `none` for an exception, and a state.
pub mod Stream
pub mod Padding
pub mod Doh
use scamlens.Base.{
  ℕ, zero, suc, ◌+◌, ◌-◌, ◌*◌, ◌/◌, ◌%◌, Bool, true, false, not, Text, List, [], ◌∷◌, ◌++◌, length,
  take, drop, Option, none, some, leb, ltb, same, strip, white, codes, if◌then◌else◌,
}

-- `reader.readexactly(n)`: the bytes and what follows, or IncompleteReadError.
unfoldable pub readexactly : ℕ → Text → Option (Text × Text)
readexactly zero s = some ([], s)
readexactly (suc n) [] = none
readexactly (suc n) (b ∷ s) = elim (readexactly n s) [
  | none ↦ none
  | some (bytes, rest) ↦ some (b ∷ bytes, rest)
]

-- `int.from_bytes(length_bytes, "big")` of two bytes
unfoldable pub from_bytes : Text → ℕ
from_bytes (hi ∷ lo ∷ rest) = hi * 256 + lo
from_bytes _ = 0

-- `len(wire).to_bytes(2, "big") + wire`: OverflowError from 65536 bytes on
unfoldable pub frame : Text → Option Text
frame wire =
    if ltb (length wire) 65536 then some (length wire / 256 ∷ length wire % 256 ∷ wire) else none

-- How the handling of a connection ends: the peer stopped, or an exception was logged. `stuck` is no
-- end of the code: the loop ran out of fuel.
pub data End : Type 0 where
  incomplete failed stuck : End

-- The next query of a stream of bytes, and what follows it.
unfoldable pub next_query : Text → Option (Text × Text)
unfolding readexactly from_bytes
next_query stream = elim (readexactly 2 stream) [
  | none ↦ none
  | some (length_bytes, rest) ↦ readexactly (from_bytes length_bytes) rest
]

-- What is written for a result: nothing for an empty wire, and an exception where there is none.
unfoldable pub written : Option Text → Option Text
unfolding frame
written none = none
written (some []) = some []
written (some (b ∷ wire)) = frame (b ∷ wire)

unfoldable pub datagram_of : Option Text → Option Text
datagram_of none = none
datagram_of (some []) = none
datagram_of (some (b ∷ wire)) = some (b ∷ wire)

module _ {S : Type 0} (resolve : Text → S → Option Text × S) where
  -- The handler of `start_tcp`: what it writes, the state and its end. A query takes two bytes at
  -- least, so the length of the stream is enough fuel.
  unfoldable pub serve : ℕ → Text → S → Text × S × End
  unfolding next_query written
  serve zero stream s = ([], s, stuck)
  serve (suc fuel) stream s = elim (next_query stream) [
    | none ↦ ([], s, incomplete)
    | some (wire, rest) ↦
        let (result, s') = resolve wire s in
        elim (written result) [
          | none ↦ ([], s', failed)
          | some bytes ↦ let (out, s'', end) = serve fuel rest s' in (bytes ++ out, s'', end)
        ]
  ]

  unfoldable pub handle_tcp : Text → S → Text × S × End
  unfolding serve
  handle_tcp stream s = serve (suc (length stream)) stream s

  -- `UDPServer._handle`: the datagram that is sent back, if there is one.
  unfoldable pub handle_udp : Text → S → Option Text × S
  unfolding datagram_of
  handle_udp datagram s = let (result, s') = resolve datagram s in (datagram_of result, s')

-- `_pad_b64`: `s + "=" * (-len(s) % 4)`
unfoldable pub equals : ℕ → Text
equals zero = []
equals (suc n) = b'=' ∷ equals n

unfoldable pub pad_b64 : Text → Text
unfolding equals
pad_b64 s = s ++ equals ((4 - length s % 4) % 4)
