-- ===== src/Dns/Servers/Stream.antt =====
-- dns_server/servers.py: the stream of queries and replies of a TCP connection.
use scamlens.Base.{
  ℕ, zero, suc, ◌+◌, ◌*◌, ◌/◌, ◌%◌, ◌<◌, ◌≡◌, ◌≢◌, refl, arith, Text, List, [], ◌∷◌, ◌++◌, length,
  length-append, append_assoc, Option, none, some, ltb, Bool-cases, Option-cases, inl, inr, ap, All,
  some_inj,
}
use scamlens.Dns.Servers.{
  readexactly, from_bytes, frame, End, incomplete, failed, stuck, next_query, written, serve,
  handle_tcp,
}

readexactly-append : (s rest : Text) → readexactly (length s) (s ++ rest) ≡ some (s, rest)
unfolding readexactly
readexactly-append [] rest = refl
readexactly-append (b ∷ s) rest = rw (readexactly-append s rest, readexactly) refl

-- What was read and what follows make up the stream.
length-readexactly :
    (n : ℕ) (s bytes rest : Text)
    → readexactly n s ≡ some (bytes, rest)
    → length s ≡ n + length rest
unfolding readexactly
length-readexactly zero s bytes rest h =
    omega (arith, ap (λ (p : Text × Text). length p.1) (some_inj h))
length-readexactly (suc n) [] bytes rest h = cc
length-readexactly (suc n) (b ∷ s) bytes rest h = elim (Option-cases (readexactly n s)) [
  | inl e ↦ cc (rw (e, readexactly) at h)
  | inr ((bs, r), e) ↦
      let k : (b ∷ bs, r) ≡ (bytes, rest) = some_inj (rw (e, readexactly) at h) in
      omega (arith, length-readexactly n s bs r e, ap (λ (p : Text × Text). length p.1) k)
]

-- The framing of a query or a reply, as two numbers and the bytes.
abbrev pub framed : Text → Text
framed wire = length wire / 256 ∷ length wire % 256 ∷ wire

abbrev pub IsShort : Text → Type 0
IsShort wire = length wire < 65536

next_query-framed : (wire rest : Text) → next_query (framed wire ++ rest) ≡ some (wire, rest)
unfolding next_query readexactly from_bytes
next_query-framed wire rest =
    let e : length wire / 256 * 256 + length wire % 256 ≡ length wire = omega arith in
    rw e (readexactly-append wire rest)

next_query-shorter :
    (stream wire rest : Text) → next_query stream ≡ some (wire, rest) → length rest < length stream
unfolding next_query
next_query-shorter stream wire rest h = elim (Option-cases (readexactly 2 stream)) [
  | inl e ↦ cc (rw (e, next_query) at h)
  | inr ((bs, r), e) ↦ omega (
    arith,
    length-readexactly 2 stream bs r e,
    length-readexactly (from_bytes bs) r wire rest (rw (e, next_query) at h),
  )
]

-- The stream of some queries.
unfoldable pub frames : List Text → Text
frames [] = []
frames (q ∷ qs) = framed q ++ frames qs

module _ {S : Type 0} (resolve : Text → S → Option Text × S) where
  -- The queries, one after the other: what is written, until one of them fails.
  unfoldable pub exchange : List Text → S → Text × S × End
  unfolding written
  exchange [] s = ([], s, incomplete)
  exchange (q ∷ qs) s =
      let (result, s') = resolve q s in
      elim (written result) [
        | none ↦ ([], s', failed)
        | some bytes ↦ let (out, s'', end) = exchange qs s' in (bytes ++ out, s'', end)
      ]

  serve-cons :
      (fuel : ℕ) (stream q rest : Text) (qs : List Text) (s : S)
      → next_query stream ≡ some (q, rest)
      → serve resolve fuel rest (resolve q s).1 ≡ exchange qs (resolve q s).1
      → serve resolve (suc fuel) stream s ≡ exchange (q ∷ qs) s
  unfolding serve exchange
  serve-cons fuel stream q rest qs s e ih =
      rw (e, serve)
        (elim (Option-cases (written (resolve q s).0)) [
          | inl f ↦ rw (f, exchange) refl
          | inr (bytes, f) ↦ rw (f, exchange) (rw ih refl)
        ])

  serve-frames :
      (fuel : ℕ) (qs : List Text) (tail : Text) (s : S)
      → All IsShort qs
      → next_query tail ≡ none
      → length (frames qs ++ tail) < fuel
      → serve resolve fuel (frames qs ++ tail) s ≡ exchange qs s
  unfolding serve exchange frames
  serve-frames zero qs tail s short whole h = absurd (omega arith)
  serve-frames (suc fuel) [] tail s short whole h = rw (whole, serve) refl
  serve-frames (suc fuel) (q ∷ qs) tail s short whole h =
      let joined : frames (q ∷ qs) ++ tail ≡ framed q ++ (frames qs ++ tail) =
        append_assoc (framed q) (frames qs) tail in
      rw joined (
        serve-cons fuel (framed q ++ (frames qs ++ tail)) q (frames qs ++ tail) qs s
          (next_query-framed q (frames qs ++ tail))
          (serve-frames fuel qs tail (resolve q s).1 short.1 whole
            (omega (arith, h, ap length joined, length-append q (frames qs ++ tail)))))

  serve-ne-stuck :
      (fuel : ℕ) (stream : Text) (s : S)
      → length stream < fuel
      → (serve resolve fuel stream s).2 ≢ stuck
  unfolding serve
  serve-ne-stuck zero stream s h = absurd (omega arith)
  serve-ne-stuck (suc fuel) stream s h = elim (Option-cases (next_query stream)) [
    | inl e ↦ rw (e, serve) (λ k. cc)
    | inr ((wire, rest), e) ↦
        rw (e, serve)
          (elim (Option-cases (written (resolve wire s).0)) [
            | inl f ↦ rw f (λ k. cc)
            | inr (bytes, f) ↦ rw f (
                serve-ne-stuck fuel rest (resolve wire s).1
                  (omega (arith, next_query-shorter stream wire rest e)))
          ])
  ]

-- Whatever the peer sends and the resolver answers: the loop of a TCP connection ends by an incomplete
-- read or by an exception.
handle_tcp-ne-stuck :
    {S : Type 0} (resolve : Text → S → Option Text × S) (stream : Text) (s : S)
    → (handle_tcp resolve stream s).2 ≢ stuck
unfolding handle_tcp
handle_tcp-ne-stuck resolve stream s =
    serve-ne-stuck resolve (suc (length stream)) stream s (omega arith)

-- For any queries of less than 65536 bytes, framed one after the other, and a tail that holds no whole
-- query: the connection does what handling the queries in their order does, each with the state that
-- the one before it leaves, until one of them fails.
pub handle_tcp-frames :
    {S : Type 0} (resolve : Text → S → Option Text × S) (qs : List Text) (tail : Text) (s : S)
    → All IsShort qs
    → next_query tail ≡ none
    → handle_tcp resolve (frames qs ++ tail) s ≡ exchange resolve qs s
unfolding handle_tcp
handle_tcp-frames resolve qs tail s short whole =
    serve-frames resolve (suc (length (frames qs ++ tail))) qs tail s short whole (omega arith)

-- Every reply that is written is read back as it was sent, with what follows left over.
next_query-written :
    (reply bytes rest : Text)
    → reply ≢ []
    → written (some reply) ≡ some bytes
    → next_query (bytes ++ rest) ≡ some (reply, rest)
unfolding written frame
next_query-written [] bytes rest ne h = absurd (ne refl)
next_query-written (b ∷ reply) bytes rest ne h =
    elim (Bool-cases (ltb (length (b ∷ reply)) 65536)) [
      | inl e ↦
          let k : framed (b ∷ reply) ≡ bytes = some_inj (rw e at h) in
          rw (← k) (next_query-framed (b ∷ reply) rest)
      | inr e ↦ cc (rw e at h)
    ]
