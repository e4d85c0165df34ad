-- ===== src/Digest/Utf8.antt =====
-- Decoding is the inverse of UTF-8 encoding.
use g.Base.{
  ℕ, ◌+◌, ◌*◌, ◌/◌, ◌%◌, ◌<◌, ◌≡◌, refl, List, [], ◌∷◌, ◌++◌, Str, ltb, if◌then◌else◌, arith, All,
  Bool-cases, append_assoc, append-nil, inl, inr,
}
use g.Digest.{extra, lead, decode_from, decode_codepoints}

-- UTF-8, up to four bytes
pub encode : ℕ → Str
encode cp =
    if ltb cp 128
    then cp ∷ []
    else if ltb cp 2048
    then (192 + cp / 64) ∷ (128 + cp % 64) ∷ []
    else if ltb cp 65536
    then (224 + cp / 4096) ∷ (128 + cp / 64 % 64) ∷ (128 + cp % 64) ∷ []
    else (240 + cp / 262144) ∷ (128 + cp / 4096 % 64) ∷ (128 + cp / 64 % 64) ∷ (128 + cp % 64) ∷ []

pub encode_all : List ℕ → Str
encode_all [] = []
encode_all (cp ∷ cps) = encode cp ++ encode_all cps

-- The lead bytes are told apart by their high bits.
lead_one : (c : ℕ) → c < 128 → (extra c ≡ 0) × (lead c ≡ c)
unfolding extra lead
lead_one c lt = ground arith

lead_two : (d : ℕ) → d < 32 → (extra (192 + d) ≡ 1) × (lead (192 + d) ≡ d)
unfolding extra lead
lead_two d lt = ground arith

lead_three : (d : ℕ) → d < 16 → (extra (224 + d) ≡ 2) × (lead (224 + d) ≡ d)
unfolding extra lead
lead_three d lt = ground arith

lead_four : (d : ℕ) → d < 8 → (extra (240 + d) ≡ 3) × (lead (240 + d) ≡ d)
unfolding extra lead
lead_four d lt = ground arith

-- A continuation byte gives its six bits.
continuation : (cp d : ℕ) → d < 64 → cp * 64 + (128 + d) % 64 ≡ cp * 64 + d
continuation cp d lt = omega arith

decode_from-zero : (cp : ℕ) (s : Str) → decode_from 0 cp s ≡ cp ∷ decode_codepoints s
unfolding decode_codepoints decode_from
decode_from-zero cp [] = refl
decode_from-zero cp (c ∷ s) = refl

decode-two :
    (cp : ℕ) (s : Str)
    → cp < 2048
    → decode_codepoints ((192 + cp / 64) ∷ (128 + cp % 64) ∷ s) ≡ cp ∷ decode_codepoints s
unfolding decode_codepoints decode_from
decode-two cp s lt =
    let parts = lead_two (cp / 64) (omega arith) in
    let whole : cp / 64 * 64 + (128 + cp % 64) % 64 ≡ cp = omega arith in
    rw (parts.0, parts.1, whole, decode_from-zero)

decode-three :
    (cp : ℕ) (s : Str)
    → cp < 65536
    → decode_codepoints ((224 + cp / 4096) ∷ (128 + cp / 64 % 64) ∷ (128 + cp % 64) ∷ s)
      ≡ cp ∷ decode_codepoints s
unfolding decode_codepoints decode_from
decode-three cp s lt =
    let parts = lead_three (cp / 4096) (omega arith) in
    let high : cp / 4096 * 64 + (128 + cp / 64 % 64) % 64 ≡ cp / 64 = omega arith in
    let whole : cp / 64 * 64 + (128 + cp % 64) % 64 ≡ cp = omega arith in
    rw (parts.0, parts.1, high, whole, decode_from-zero)

decode-four :
    (cp : ℕ) (s : Str)
    → cp < 2097152
    → decode_codepoints
        ((240 + cp / 262144) ∷ (128 + cp / 4096 % 64) ∷ (128 + cp / 64 % 64) ∷ (128 + cp % 64) ∷ s)
      ≡ cp ∷ decode_codepoints s
unfolding decode_codepoints decode_from
decode-four cp s lt =
    let parts = lead_four (cp / 262144) (omega arith) in
    let top : cp / 262144 * 64 + (128 + cp / 4096 % 64) % 64 ≡ cp / 4096 = omega arith in
    let high : cp / 4096 * 64 + (128 + cp / 64 % 64) % 64 ≡ cp / 64 = omega arith in
    let whole : cp / 64 * 64 + (128 + cp % 64) % 64 ≡ cp = omega arith in
    rw (parts.0, parts.1, top, high, whole, decode_from-zero)

decode-one : (cp : ℕ) (s : Str) → cp < 128 → decode_codepoints (cp ∷ s) ≡ cp ∷ decode_codepoints s
unfolding decode_codepoints decode_from
decode-one cp s lt = let parts = lead_one cp lt in rw (parts.0, parts.1, decode_from-zero)

decode-encode_append :
    (cp : ℕ) (s : Str)
    → cp < 2097152
    → decode_codepoints (encode cp ++ s) ≡ cp ∷ decode_codepoints s
unfolding encode
decode-encode_append cp s lt = elim (Bool-cases (ltb cp 128)) [
  | inl e ↦ let small : cp < 128 = ground (arith, e) in rw (e, decode-one cp s small)
  | inr e ↦ elim (Bool-cases (ltb cp 2048)) [
    | inl f ↦ let small : cp < 2048 = ground (arith, f) in rw (e, f, decode-two cp s small)
    | inr f ↦ elim (Bool-cases (ltb cp 65536)) [
      | inl g ↦ let small : cp < 65536 = ground (arith, g) in rw (e, f, g, decode-three cp s small)
      | inr g ↦ rw (e, f, g, decode-four cp s lt)
    ]
  ]
]

-- Decoding reads back the code points that a text encodes, and goes on with what follows.
pub decode-encode_all_append :
    (cps : List ℕ) (s : Str)
    → All (λ cp. cp < 2097152) cps
    → decode_codepoints (encode_all cps ++ s) ≡ cps ++ decode_codepoints s
unfolding encode_all
decode-encode_all_append [] s below = refl
decode-encode_all_append (cp ∷ cps) s below = rw (
  append_assoc (encode cp) (encode_all cps) s,
  decode-encode_append cp (encode_all cps ++ s) below.0,
  decode-encode_all_append cps s below.1,
)

-- UTF-8 is decoded: from the encoding of code points below 2 ^ 21, the same code points are read.
pub decode-encode_all :
    (cps : List ℕ) → All (λ cp. cp < 2097152) cps → decode_codepoints (encode_all cps) ≡ cps
unfolding decode_codepoints
decode-encode_all cps below =
    let closed = decode-encode_all_append cps [] below in
    cc (closed, append-nil (encode_all cps), append-nil cps)
