-- ===== src/Scanner/Ai/Parsed.antt =====
-- ai_scanner/ai.py: what holds of every verdict that is read from a model.
use scamlens.Base.{
  ◌≡◌, ◌⊎◌, ◌≤◌, ap, ◌∙◌, refl, arith, Text, Option, none, some, length, same, same_iff, lower,
  codes, inl, inr, Option-cases, Attempt, returned, raised, length-take-le, subst, Bool-cases,
}
use scamlens.Scanner.Heuristics.{scam}
use scamlens.Scanner.Ai.{
  ScanVerdict, unparseable, Score, number, negative, bad, clamp, ModelReply, read_label, read_score,
  of_reply, Loaded, undecodable, object, broken, salvage, parse_verdict, clean,
}

returned_inj : {A : Type 0} {a b : A} → returned a ≡ returned b → a ≡ b
returned_inj h = cc

pub record IsBounded (v : ScanVerdict) : Type 0 where
  pub risk : v.risk_score ≤ 100
  pub sure : v.confidence ≤ 100
  pub few : length v.reasons ≤ 8

clamp-le : (s : Score) → clamp s ≤ 100
unfolding clamp
clamp-le (number n) = omega arith
clamp-le (negative n) = omega arith
clamp-le bad = omega arith

read_score-le : (s : Option Score) → read_score s ≤ 100
read_score-le none = clamp-le (number 0)
read_score-le (some s) = clamp-le s

of_reply-IsBounded : (reply : ModelReply) (model : Text) → IsBounded (of_reply reply model)
unfolding of_reply
of_reply-IsBounded reply model = record {
  risk = read_score-le reply.risk_score;
  sure = read_score-le reply.confidence;
  few = length-take-le 8 reply.reasons;
}

read_label-scam :
    (t : Option Text)
    → read_label t ≡ scam
    → (said : Text) × (t ≡ some said) × (lower said ≡ codes "scam")
read_label-scam none h = cc
read_label-scam (some t) h = elim (Bool-cases (same (lower t) (codes "scam"))) [
  | inl e ↦ (t, refl, (same_iff _ _).0 e)
  | inr e ↦ absurd (ground (arith, e, h))
]

-- The text that is read: the cleaned one, or what its braces enclose.
abbrev pub IsPart : (Text → Option Text) → Text → Text → Type 0
IsPart braces cleaned body = (body ≡ cleaned) ⊎ (braces cleaned ≡ some body)

-- The verdict was read from an object, or the text has no braces.
pub data Origin (loads : Text → Loaded) (braces : Text → Option Text) (cleaned model : Text)
    (v : ScanVerdict) : Type 0 where
  from_object :
      (body : Text) (reply : ModelReply)
      → IsPart braces cleaned body
      → loads body ≡ object reply
      → of_reply reply model ≡ v
      → Origin loads braces cleaned model v
  from_nothing :
      loads cleaned ≡ undecodable
      → braces cleaned ≡ none
      → unparseable model ≡ v
      → Origin loads braces cleaned model v

module _ (loads : Text → Loaded) (unfence : Text → Text) (braces : Text → Option Text) where
  read_body :
      (cleaned body model : Text) (o : Loaded) (other : Attempt ScanVerdict) {v : ScanVerdict}
      → IsPart braces cleaned body
      → loads body ≡ o
      → (loads body ≡ undecodable → other ≡ returned v → Origin loads braces cleaned model v)
      → (elim o [
        | undecodable ↦ other
        | object reply ↦ returned (of_reply reply model)
        | broken name ↦ raised name
      ])
        ≡ returned v
      → Origin loads braces cleaned model v
  read_body cleaned body model undecodable other part e rest h = rest e h
  read_body cleaned body model (object reply) other part e rest h =
      from_object body reply part e (returned_inj h)
  read_body cleaned body model (broken name) other part e rest h = cc

  salvage-Origin :
      (cleaned model : Text) {v : ScanVerdict}
      → loads cleaned ≡ undecodable
      → salvage loads unfence braces cleaned model ≡ returned v
      → Origin loads braces cleaned model v
  unfolding salvage
  salvage-Origin cleaned model {v} u h = elim (Option-cases (braces cleaned)) [
    | inl e ↦ from_nothing u e (returned_inj (rw (e, salvage) at h))
    | inr (body, e) ↦
        read_body cleaned body model (loads body) (raised (codes "JSONDecodeError")) (inr e) refl
          (λ l k. cc) (rw (e, salvage) at h)
  ]

  parse_verdict-Origin :
      (text model : Text) {v : ScanVerdict}
      → parse_verdict loads unfence braces text model ≡ returned v
      → Origin loads braces (clean loads unfence braces text) model v
  unfolding parse_verdict
  parse_verdict-Origin text model h =
      let cleaned = clean loads unfence braces text in
      read_body cleaned cleaned model (loads cleaned) (salvage loads unfence braces cleaned model)
        (inl refl) refl (λ u k. salvage-Origin cleaned model u k) h

  Origin-IsBounded :
      (cleaned model : Text) (v : ScanVerdict) → Origin loads braces cleaned model v → IsBounded v
  Origin-IsBounded cleaned model v (from_object body reply part e k) =
      subst (λ u. IsBounded u) k (of_reply-IsBounded reply model)
  Origin-IsBounded cleaned model v (from_nothing u e k) =
      subst (λ w. IsBounded w) k
        (record { risk = omega arith; sure = omega arith; few = omega arith })

  Origin-scam :
      (cleaned model : Text) (v : ScanVerdict)
      → Origin loads braces cleaned model v
      → v.verdict ≡ scam
      → (body : Text) × (reply : ModelReply) × (word : Text) × IsPart braces cleaned body
        × (loads body ≡ object reply)
        × (reply.verdict ≡ some word)
        × (lower word ≡ codes "scam")
  unfolding of_reply
  Origin-scam cleaned model v (from_object body reply part e k) s =
      let (word, p, q) =
        read_label-scam reply.verdict (ap (λ (x : ScanVerdict). x.verdict) k ∙ s) in
      (body, reply, word, part, e, p, q)
  Origin-scam cleaned model v (from_nothing u e k) s =
      let l = ap (λ (x : ScanVerdict). x.verdict) k ∙ s in cc

-- If `_parse_verdict` returns a verdict of scam: the cleaned text, or what its braces enclose, reads as
-- a JSON object whose verdict lowers to "scam"; and the risk score and the confidence are at most 100
-- and the reasons at most 8.
pub parse_verdict-scam :
    (loads : Text → Loaded) (unfence : Text → Text) (braces : Text → Option Text)
    (text model : Text) (v : ScanVerdict)
    → parse_verdict loads unfence braces text model ≡ returned v
    → v.verdict ≡ scam
    → IsBounded v
      × ((body : Text) × (reply : ModelReply) × (word : Text) × IsPart braces
            (clean loads unfence braces text)
            body
          × (loads body ≡ object reply)
          × (reply.verdict ≡ some word)
          × (lower word ≡ codes "scam"))
parse_verdict-scam loads unfence braces text model v h s =
    let cleaned = clean loads unfence braces text in
    let origin = parse_verdict-Origin loads unfence braces text model h in
    (
      Origin-IsBounded loads unfence braces cleaned model v origin,
      Origin-scam loads unfence braces cleaned model v origin s,
    )
