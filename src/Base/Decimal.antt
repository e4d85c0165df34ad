-- ===== src/Base/Decimal.antt =====
-- Numbers in decimal, as `std::to_string` prints and `std::stoi` reads them.
use Prim.Native.Nat.{ℕ, zero, suc, ◌+◌, ◌*◌, ◌/◌, ◌%◌, ◌^◌, ◌-◌, ◌<◌, ◌≤◌}
use mathlib.Core.Path.{◌≡◌, refl, ap, ◌∙◌, subst}
use mathlib.Core.Bool.{Bool, true, false, ◌&&◌, ◌||◌}
use mathlib.Core.List.{[], ◌∷◌, ◌++◌, append_assoc, append-nil}
use mathlib.Core.Option.{Option, none, some}
use mathlib.Core.Logic.{inl, inr}
use native.Mathlib.Omega.{arith}
use g.Base.Tests.{ltb, leb, ◌==◌, if◌then◌else◌, Bool-cases, ltb→lt}
use g.Base.Text.{Str}

-- at most `k` digits
unfoldable pub digits : ℕ → ℕ → Str
digits zero n = []
digits (suc k) n = elim (ltb n 10) [
  | true ↦ (48 + n) ∷ []
  | false ↦ digits k (n / 10) ++ (48 + n % 10) ∷ []
]

-- `std::to_string` of a 64-bit number
unfoldable pub decimal : ℕ → Str
unfolding digits
decimal n = digits 20 n

unfoldable pub is_digit : ℕ → Bool
is_digit c = leb 48 c && leb c 57

-- the digits at the front, read after `n`
unfoldable pub read_digits : ℕ → Str → ℕ
unfolding is_digit
read_digits n [] = n
read_digits n (c ∷ s) =
    let more = read_digits (n * 10 + (c - 48)) s in if is_digit c then more else n

unfoldable pub starts_digit : Str → Bool
unfolding is_digit
starts_digit [] = false
starts_digit (c ∷ s) = is_digit c

pub data ℤ : Type 0 where
  pos negsuc : ℕ → ℤ

-- the number with this magnitude
unfoldable pub signed : Bool → ℕ → ℤ
signed false n = pos n
signed true zero = pos 0
signed true (suc n) = negsuc n

-- `none` is the exception for no digits, or for a number out of range
unfoldable pub read_int : Bool → Str → Option ℤ
unfolding read_digits starts_digit
read_int negative s =
    if starts_digit s
    then (if leb (read_digits 0 s) (if negative then 2147483648 else 2147483647)
        then some (signed negative (read_digits 0 s))
        else none)
    else none

unfoldable pub is_space : ℕ → Bool
is_space c = c == 32 || (leb 9 c && leb c 13)

-- `std::stoi`: white space, a sign, digits; what follows them is ignored
unfoldable pub stoi : Str → Option ℤ
unfolding is_space read_int
stoi [] = none
stoi (c ∷ s) =
    let later = stoi s in
    if is_space c
    then later
    else if c == 45
    then read_int true s
    else if c == 43
    then read_int false s
    else read_int false (c ∷ s)

is_digit_lem : (d : ℕ) → d < 10 → is_digit (48 + d) ≡ true
unfolding is_digit
is_digit_lem d lt = ground arith

read_digit :
    (n d : ℕ) (rest : Str)
    → d < 10
    → read_digits n ((48 + d) ∷ rest) ≡ read_digits (n * 10 + d) rest
unfolding read_digits
read_digit n d rest lt =
    let value : n * 10 + (48 + d - 48) ≡ n * 10 + d = omega arith in
    rw (is_digit_lem d lt, value) refl

lt→ltb : (a b : ℕ) → a < b → ltb a b ≡ true
lt→ltb a b lt = ground arith

-- A number of several digits is read from the digits before the last, and the last.
digits-more :
    (k n : ℕ) (rest : Str)
    → read_digits 0 (digits k (n / 10) ++ (48 + n % 10) ∷ rest)
      ≡ read_digits (n / 10) ((48 + n % 10) ∷ rest)
    → read_digits 0 ((digits k (n / 10) ++ (48 + n % 10) ∷ []) ++ rest) ≡ read_digits n rest
digits-more k n rest front =
    ap (read_digits 0) (append_assoc (digits k (n / 10)) ((48 + n % 10) ∷ []) rest)
    ∙ front
    ∙ read_digit (n / 10) (n % 10) rest (omega arith)
    ∙ ap (λ m. read_digits m rest) (omega arith)

-- The digits of a number are read back, and what follows them is read after that number.
pub read_digits-digits :
    (k n : ℕ) (rest : Str)
    → n < 10 ^ suc k
    → read_digits 0 (digits (suc k) n ++ rest) ≡ read_digits n rest
unfolding digits
read_digits-digits zero n rest lt =
    rw (digits, lt→ltb n 10 (omega arith))
      (read_digit 0 n rest (omega arith) ∙ ap (λ m. read_digits m rest) (omega arith))
read_digits-digits (suc k) n rest lt = elim (Bool-cases (ltb n 10)) [
  | inl e ↦
      rw (digits, e)
        (read_digit 0 n rest (ground (arith, e)) ∙ ap (λ m. read_digits m rest) (omega arith))
  | inr e ↦
      rw (digits, e)
        (digits-more (suc k) n rest
          (read_digits-digits k (n / 10) ((48 + n % 10) ∷ rest) (omega (arith, lt))))
]

read_int-digit : (c : ℕ) (s : Str) → is_digit c ≡ true → stoi (c ∷ s) ≡ read_int false (c ∷ s)
unfolding stoi is_digit is_space
read_int-digit c s h =
    let no_space : is_space c ≡ false = ground (arith, h) in
    let no_minus : (c == 45) ≡ false = ground (arith, h) in
    let no_plus : (c == 43) ≡ false = ground (arith, h) in rw (no_space, no_minus, no_plus) refl

stoi-digit : (s : Str) → starts_digit s ≡ true → stoi s ≡ read_int false s
unfolding starts_digit
stoi-digit [] h = cc (h)
stoi-digit (c ∷ s) h = read_int-digit c s h

starts_digit_digit : (d : ℕ) (rest : Str) → d < 10 → starts_digit ((48 + d) ∷ rest) ≡ true
unfolding starts_digit is_digit
starts_digit_digit d rest lt = ground arith

starts_digit-digits : (k n : ℕ) (rest : Str) → starts_digit (digits (suc k) n ++ rest) ≡ true
unfolding digits
starts_digit-digits zero n rest = elim (Bool-cases (ltb n 10)) [
  | inl e ↦ rw (digits, e) (starts_digit_digit n rest (ltb→lt n 10 e))
  | inr e ↦ rw (digits, e) (starts_digit_digit (n % 10) rest (omega arith))
]
starts_digit-digits (suc k) n rest = elim (Bool-cases (ltb n 10)) [
  | inl e ↦ rw (digits, e) (starts_digit_digit n rest (ltb→lt n 10 e))
  | inr e ↦
      rw (digits, e, append_assoc (digits (suc k) (n / 10)) ((48 + n % 10) ∷ []) rest)
        (starts_digit-digits k (n / 10) ((48 + n % 10) ∷ rest))
]

-- A printed number is read back.
pub stoi-decimal : (n : ℕ) → n ≤ 2147483647 → stoi (decimal n) ≡ some (pos n)
unfolding decimal read_int read_digits signed
stoi-decimal n le =
    let number : read_digits 0 (digits 20 n ++ []) ≡ n =
      read_digits-digits 19 n [] (omega (arith, le)) in
    let plain : digits 20 n ++ [] ≡ digits 20 n = append-nil (digits 20 n) in
    let starts : starts_digit (digits 20 n) ≡ true =
      subst (λ s. starts_digit s ≡ true) plain (starts_digit-digits 19 n []) in
    let read : read_digits 0 (digits 20 n) ≡ n = subst (λ s. read_digits 0 s ≡ n) plain number in
    let small : leb n 2147483647 ≡ true = ground (arith, le) in
    stoi-digit (digits 20 n) starts ∙ rw (read_int, starts, read, small) refl
