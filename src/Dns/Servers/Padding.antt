-- ===== src/Dns/Servers/Padding.antt =====
-- dns_server/servers.py: the padding of the `dns` parameter.
use scamlens.Base.{ℕ, zero, suc, ◌+◌, ◌-◌, ◌%◌, ◌<◌, ◌≡◌, refl, arith, Text, length, length-append}
use scamlens.Dns.Servers.{equals, pad_b64}

length-equals : (n : ℕ) → length (equals n) ≡ n
unfolding equals
length-equals zero = refl
length-equals (suc n) = omega (arith, length-equals n)

-- The padded text has a length that 4 divides, it is longer by 3 at most, and a text of such a length
-- stays as it is.
length-pad_b64 : (s : Text) → (length (pad_b64 s) % 4 ≡ 0) × (length (pad_b64 s) < length s + 4)
unfolding pad_b64
length-pad_b64 s =
    let n = (4 - length s % 4) % 4 in
    (
      omega (arith, length-append s (equals n), length-equals n),
      omega (arith, length-append s (equals n), length-equals n),
    )
