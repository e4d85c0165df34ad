-- ===== src/Providers/Urls.antt =====
-- The base of the API's URL.
use g.Base.{
  ℕ, zero, suc, ◌≡◌, refl, ◌∙◌, false, [], ◌∷◌, ◌++◌, some, Str, str_eq, replicate, arith, is_empty,
}
use g.Providers.{rtrim_slashes, before_v1, strip_trailing_v1}

abbrev pub v1 : Str
v1 = 47 ∷ 118 ∷ 49 ∷ []

rtrim_slashes-replicate : (n : ℕ) → rtrim_slashes (replicate n 47) ≡ []
unfolding rtrim_slashes
rtrim_slashes-replicate zero = refl
rtrim_slashes-replicate (suc n) = ground (arith, rtrim_slashes-replicate n)

rtrim_slashes-append : (s : Str) (n : ℕ) → rtrim_slashes (s ++ replicate n 47) ≡ rtrim_slashes s
unfolding rtrim_slashes
rtrim_slashes-append [] n = rtrim_slashes-replicate n
rtrim_slashes-append (c ∷ s) n = ground (arith, rtrim_slashes-append s n)

is_empty-append : (s t : Str) → is_empty t ≡ false → is_empty (s ++ t) ≡ false
is_empty-append [] t h = h
is_empty-append (c ∷ s) t h = refl

rtrim_slashes-v1 : (b : Str) → rtrim_slashes (b ++ v1) ≡ b ++ v1
unfolding rtrim_slashes
rtrim_slashes-v1 [] = refl
rtrim_slashes-v1 (c ∷ b) = ground (arith, rtrim_slashes-v1 b, is_empty-append b v1 refl)

longer-v1 : (c : ℕ) (b : Str) → str_eq (c ∷ (b ++ v1)) v1 ≡ false
unfolding str_eq
longer-v1 c [] = ground arith
longer-v1 c (x ∷ []) = ground arith
longer-v1 c (x ∷ y ∷ []) = ground arith
longer-v1 c (x ∷ y ∷ z ∷ b) = ground arith

before_v1-append : (b : Str) → before_v1 (b ++ v1) ≡ some b
unfolding before_v1 str_eq
before_v1-append [] = refl
before_v1-append (c ∷ b) = ground (arith, longer-v1 c b, before_v1-append b)

-- A base URL that ends with `/v1`, and any slashes after it, is kept without these and without
-- the slashes before them; the requests then go to a path that has no `/v1`.
pub strip_trailing_v1-append :
    (b : Str) (n : ℕ) → strip_trailing_v1 (b ++ v1 ++ replicate n 47) ≡ rtrim_slashes b
unfolding strip_trailing_v1
strip_trailing_v1-append b n =
    let short : rtrim_slashes (b ++ v1 ++ replicate n 47) ≡ b ++ v1 =
      rtrim_slashes-append (b ++ v1) n ∙ rtrim_slashes-v1 b in
    rw (strip_trailing_v1, short, before_v1-append b) refl
