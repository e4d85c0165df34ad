-- ===== src/Web/Base64.antt =====
-- The panel's base64 decoder reads what an encoder writes.
use g.Base.{
  ℕ, ◌+◌, ◌-◌, ◌*◌, ◌/◌, ◌%◌, ◌^◌, ◌<◌, ◌≡◌, refl, ap, ◌∙◌, true, false, [], ◌∷◌, Option, some, Str,
  All, arith, if◌then◌else◌, leb, ltb, ◌==◌,
}
use g.Web.{b64_value, is_padding, shift_in, push_byte, decode_bits, b64_decode}

-- RFC 4648: the character of six bits, and the four characters of three bytes or of the last bytes.
pub b64_char : ℕ → ℕ
b64_char n =
    if ltb n 26
    then 65 + n
    else if ltb n 52
    then 71 + n
    else if ltb n 62
    then n - 4
    else if n == 62
    then 43
    else 47

unfoldable pub b64_encode : Str → Str
b64_encode [] = []
b64_encode (a ∷ []) = b64_char (a / 4) ∷ b64_char (a % 4 * 16) ∷ 61 ∷ 61 ∷ []
b64_encode (a ∷ b ∷ []) =
    b64_char (a / 4) ∷ b64_char (a % 4 * 16 + b / 16) ∷ b64_char (b % 16 * 4) ∷ 61 ∷ []
b64_encode (a ∷ b ∷ c ∷ s) =
    b64_char (a / 4)
    ∷ b64_char (a % 4 * 16 + b / 16)
    ∷ b64_char (b % 16 * 4 + c / 64)
    ∷ b64_char (c % 64)
    ∷ b64_encode s

abbrev pub IsByte : ℕ → Type 0
IsByte b = b < 256

b64_value-b64_char : (n : ℕ) → n < 64 → b64_value (b64_char n) ≡ n
unfolding b64_value b64_char
b64_value-b64_char n lt = ground arith

is_padding-b64_char : (n : ℕ) → n < 64 → is_padding (b64_char n) ≡ false
unfolding is_padding b64_char
is_padding-b64_char n lt = ground arith

-- the byte that a character completes
step_full :
    (bits buf n : ℕ) (s : Str)
    → n < 64
    → leb 8 (bits + 6) ≡ true
    → decode_bits bits buf (b64_char n ∷ s)
      ≡ push_byte
          (shift_in buf n / 2 ^ (bits + 6 - 8) % 256)
          (decode_bits (bits + 6 - 8) (shift_in buf n) s)
unfolding decode_bits
step_full bits buf n s lt e =
    let valid : (n == 255) ≡ false = ground arith in
    rw (is_padding-b64_char n lt, b64_value-b64_char n lt, valid, e) refl

step_more :
    (bits buf n : ℕ) (s : Str)
    → n < 64
    → leb 8 (bits + 6) ≡ false
    → decode_bits bits buf (b64_char n ∷ s) ≡ decode_bits (bits + 6) (shift_in buf n) s
unfolding decode_bits
step_more bits buf n s lt e =
    let valid : (n == 255) ≡ false = ground arith in
    rw (is_padding-b64_char n lt, b64_value-b64_char n lt, valid, e) refl

-- The low bits of the buffer are the last character's, and the others are shifted up.
shift_in-low : (buf v : ℕ) → v < 64 → shift_in buf v % 64 ≡ v
unfolding shift_in
shift_in-low buf v lt = omega (arith, lt)

second_byte : (x u v : ℕ) → x % 64 ≡ u → v < 64 → shift_in x v / 16 % 256 ≡ u * 4 % 256 + v / 16
unfolding shift_in
second_byte x u v e lt = omega (arith, e, lt)

third_byte : (x u v : ℕ) → x % 64 ≡ u → v < 64 → shift_in x v / 4 % 256 ≡ u * 16 % 256 + v / 4
unfolding shift_in
third_byte x u v e lt = omega (arith, e, lt)

fourth_byte : (x u v : ℕ) → x % 64 ≡ u → v < 64 → shift_in x v / 1 % 256 ≡ u * 64 % 256 + v
unfolding shift_in
fourth_byte x u v e lt = omega (arith, e, lt)

-- Two characters at the start of a group give a byte.
decode_two :
    (buf u v : ℕ) (s : Str)
    → u < 64
    → v < 64
    → decode_bits 0 buf (b64_char u ∷ b64_char v ∷ s)
      ≡ push_byte (u * 4 % 256 + v / 16) (decode_bits 4 (shift_in (shift_in buf u) v) s)
decode_two buf u v s hu hv =
    step_more 0 buf u (b64_char v ∷ s) hu refl
    ∙ step_full 6 (shift_in buf u) v s hv refl
    ∙ ap (λ b. push_byte b (decode_bits 4 (shift_in (shift_in buf u) v) s))
        (second_byte (shift_in buf u) u v (shift_in-low buf u hu) hv)

decode_third :
    (buf u v : ℕ) (s : Str)
    → buf % 64 ≡ u
    → v < 64
    → decode_bits 4 buf (b64_char v ∷ s)
      ≡ push_byte (u * 16 % 256 + v / 4) (decode_bits 2 (shift_in buf v) s)
decode_third buf u v s e hv =
    step_full 4 buf v s hv refl
    ∙ ap (λ b. push_byte b (decode_bits 2 (shift_in buf v) s)) (third_byte buf u v e hv)

decode_fourth :
    (buf u v : ℕ) (s : Str)
    → buf % 64 ≡ u
    → v < 64
    → decode_bits 2 buf (b64_char v ∷ s)
      ≡ push_byte (u * 64 % 256 + v) (decode_bits 0 (shift_in buf v) s)
decode_fourth buf u v s e hv =
    step_full 2 buf v s hv refl
    ∙ ap (λ b. push_byte b (decode_bits 0 (shift_in buf v) s)) (fourth_byte buf u v e hv)

decode_end : (bits buf : ℕ) → decode_bits bits buf [] ≡ some []
unfolding decode_bits
decode_end bits buf = refl

-- Padding is passed over.
decode_pad : (bits buf : ℕ) (s : Str) → decode_bits bits buf (61 ∷ s) ≡ decode_bits bits buf s
unfolding decode_bits is_padding
decode_pad bits buf s = refl

-- A byte in front of a group that is decoded.
push_byte-some :
    (b a : ℕ) (rest : Option Str) (s : Str)
    → b ≡ a
    → rest ≡ some s
    → push_byte b rest ≡ some (a ∷ s)
unfolding push_byte
push_byte-some b a rest s e f = rw (e, f) refl

-- A group is decoded whatever the buffer holds.
decode_bits-b64_encode :
    (buf : ℕ) (s : Str) → All IsByte s → decode_bits 0 buf (b64_encode s) ≡ some s
unfolding b64_encode
decode_bits-b64_encode buf [] h = decode_end 0 buf
decode_bits-b64_encode buf (a ∷ []) (ha, _) =
    let second = shift_in (shift_in buf (a / 4)) (a % 4 * 16) in
    decode_two buf (a / 4) (a % 4 * 16) (61 ∷ 61 ∷ []) (omega arith) (omega arith)
    ∙ push_byte-some _ a _ [] (omega arith)
        (decode_pad 4 second (61 ∷ []) ∙ decode_pad 4 second [] ∙ decode_end 4 second)
decode_bits-b64_encode buf (a ∷ b ∷ []) (ha, (hb, _)) =
    let u = a % 4 * 16 + b / 16 in
    let v = b % 16 * 4 in
    let second = shift_in (shift_in buf (a / 4)) u in
    let third = shift_in second v in
    let hu : u < 64 = omega arith in
    let hv : v < 64 = omega arith in
    decode_two buf (a / 4) u (b64_char v ∷ 61 ∷ []) (omega arith) hu
    ∙ push_byte-some _ a _ (b ∷ []) (omega arith) (
        decode_third second u v (61 ∷ []) (shift_in-low (shift_in buf (a / 4)) u hu) hv
        ∙ push_byte-some _ b _ [] (omega arith) (decode_pad 2 third [] ∙ decode_end 2 third))
decode_bits-b64_encode buf (a ∷ b ∷ c ∷ s) (ha, (hb, (hc, hs))) =
    let u = a % 4 * 16 + b / 16 in
    let v = b % 16 * 4 + c / 64 in
    let x = c % 64 in
    let first = shift_in buf (a / 4) in
    let second = shift_in first u in
    let third = shift_in second v in
    let hu : u < 64 = omega arith in
    let hv : v < 64 = omega arith in
    let hx : x < 64 = omega arith in
    decode_two buf (a / 4) u (b64_char v ∷ b64_char x ∷ b64_encode s) (omega arith) hu
    ∙ push_byte-some _ a _ (b ∷ c ∷ s) (omega arith) (
        decode_third second u v (b64_char x ∷ b64_encode s) (shift_in-low first u hu) hv
        ∙ push_byte-some _ b _ (c ∷ s) (omega arith) (
            decode_fourth third v x (b64_encode s) (shift_in-low second v hv) hx
            ∙ push_byte-some _ c _ s (omega arith)
                (decode_bits-b64_encode (shift_in third x) s hs)))

-- The decoder gives back the bytes of every text that RFC 4648 encodes, although its buffer
-- of 32 bits loses the bits that are shifted out of it.
pub b64_decode-b64_encode : (s : Str) → All IsByte s → b64_decode (b64_encode s) ≡ s
unfolding b64_decode
b64_decode-b64_encode s h = rw (b64_decode, decode_bits-b64_encode 0 s h) refl
