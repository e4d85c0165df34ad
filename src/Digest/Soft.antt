-- ===== src/Digest/Soft.antt =====
-- core/digest: the soft fingerprint, a bag of words and of pairs and triples of words that is hashed
-- into 64 numbers. `half` and `quarter` are the weights 0.5 and 0.25, `negate` is the product with
-- the sign -1.
use g.Base.{
  ℕ, ◌+◌, ◌%◌, Bool, false, ◌&&◌, ◌||◌, not, List, [], ◌∷◌, ◌++◌, map, Str, length, replicate,
  get_or, set, is_empty, if◌then◌else◌, leb, ◌==◌, fnv1a, hex, str_eq,
}
use g.Json.{JsonLib}
use g.Floats.{Floats}
use g.Digest.{decode_codepoints, HardKeys, hard_keys, hard_fingerprint}

-- `std::tolower`, in the C locale
unfoldable pub to_lower : ℕ → ℕ
to_lower c = if leb 65 c && leb c 90 then c + 32 else c

unfoldable pub is_gap : ℕ → Bool
is_gap cp = cp == 32 || (cp == 10 || (cp == 9 || cp == 13))

-- the token that is read, if there is one, in front of the others
unfoldable pub flush : Str → List Str → List Str
flush [] tokens = tokens
flush (c ∷ current) tokens = (c ∷ current) ∷ tokens

-- the loop over the code points, with the token that is read
unfoldable pub tokens_from : Str → List ℕ → List Str
unfolding to_lower is_gap flush
tokens_from current [] = flush current []
tokens_from current (cp ∷ cps) =
    let fresh = tokens_from [] cps in
    let longer = tokens_from (current ++ to_lower cp ∷ []) cps in
    if is_gap cp
    then flush current fresh
    else if leb 128 cp
    then flush current (hex 8 cp ∷ fresh)
    else longer

unfoldable pub soft_tokens : Str → List Str
unfolding tokens_from
soft_tokens content = tokens_from [] (decode_codepoints content)

pub record SoftFingerprint (f : Floats) : Type 0 where
  pub embedding : List f.Double
  pub confidence : f.Double

-- The operations on doubles that only the fingerprint uses.
pub record SoftOps (f : Floats) : Type 0 where
  pub half : f.Double
  pub quarter : f.Double
  pub negate : f.Double → f.Double
  pub sqrt : f.Double → f.Double

module _ {f : Floats} (ops : SoftOps f) where
  open f use {Double, zero_double, one_double, less, plus, times, divide, of_count}
  open ops use {half, quarter, negate, sqrt}

  -- `weight * sign`, added to the bucket of the token
  unfoldable pub deposit : Str → Double → List Double → List Double
  deposit tok weight embedding =
      let h = fnv1a tok in
      let bucket = h % 64 in
      set embedding bucket
        (plus (get_or embedding bucket zero_double) (if h % 2 == 1 then weight else negate weight))

  -- the loop over the tokens
  unfoldable pub deposit_all : List Str → List Double → List Double
  unfolding deposit
  deposit_all [] e = e
  deposit_all (a ∷ []) e = deposit a one_double e
  deposit_all (a ∷ b ∷ []) e =
      deposit_all (b ∷ []) (deposit (a ++ 32 ∷ b) half (deposit a one_double e))
  deposit_all (a ∷ b ∷ c ∷ rest) e = deposit_all (b ∷ c ∷ rest) (
      deposit (a ++ 32 ∷ b ++ 32 ∷ c) quarter (deposit (a ++ 32 ∷ b) half (deposit a one_double e)))

  -- `norm += v * v`, for all of them
  unfoldable pub sum_squares : Double → List Double → Double
  sum_squares norm [] = norm
  sum_squares norm (v ∷ vs) = sum_squares (plus norm (times v v)) vs

  unfoldable pub normalize : List Double → List Double
  unfolding sum_squares
  normalize embedding =
      let norm = sqrt (sum_squares zero_double embedding) in
      if less zero_double norm then map (λ v. divide v norm) embedding else embedding

  -- `std::min(1.0, count / 16.0)`
  unfoldable pub confidence_of : ℕ → Double
  confidence_of count =
      let share = divide (of_count count) (of_count 16) in
      if less share one_double then share else one_double

  unfoldable pub build_soft : Str → SoftFingerprint f
  unfolding deposit_all normalize confidence_of
  build_soft content =
      let tokens = soft_tokens content in
      if is_empty content
      then record { embedding = replicate 64 zero_double; confidence = zero_double }
      else record {
        embedding = normalize (deposit_all tokens (replicate 64 zero_double));
        confidence = confidence_of (length tokens);
      }

  -- the loop of `matches_soft` and `soft_similarity`
  unfoldable pub dot_from : Double → List Double → List Double → Double
  dot_from dot [] other = dot
  dot_from dot (v ∷ vs) [] = dot
  dot_from dot (v ∷ vs) (w ∷ ws) = dot_from (plus dot (times v w)) vs ws

pub record Digest (f : Floats) : Type 0 where
  pub keys : HardKeys
  pub fingerprint : Str
  pub soft : SoftFingerprint f

module _ (j : JsonLib) {f : Floats} (ops : SoftOps f) where
  open f use {Double, zero_double, less}

  -- `Digest::build`
  unfoldable pub build : Str → Str → Digest f
  unfolding build_soft
  build type content = record {
    keys = hard_keys j content;
    fingerprint = hard_fingerprint j type content;
    soft = build_soft ops content;
  }

module _ {f : Floats} (ops : SoftOps f) where
  open f use {Double, zero_double, less}

  unfoldable pub matches_hard : Digest f → Digest f → Bool
  matches_hard a b = str_eq a.fingerprint b.fingerprint

  unfoldable pub soft_similarity : Digest f → Digest f → Double
  unfolding dot_from
  soft_similarity a b =
      let ea = a.soft.embedding in
      let eb = b.soft.embedding in
      if not (length ea == length eb) || is_empty ea
      then zero_double
      else dot_from ops zero_double ea eb

  -- `dot >= threshold` on numbers that are not NaN
  unfoldable pub matches_soft : (Double → Double → Bool) → Double → Digest f → Digest f → Bool
  unfolding dot_from
  matches_soft at_least threshold a b =
      let ea = a.soft.embedding in
      let eb = b.soft.embedding in
      if not (length ea == length eb)
      then false
      else if is_empty ea
      then false
      else at_least (dot_from ops zero_double ea eb) threshold

  unfoldable pub is_high_confidence : (Double → Double → Bool) → Double → SoftFingerprint f → Bool
  is_high_confidence at_least threshold soft = at_least soft.confidence threshold

  -- `Digest::is_empty`
  unfoldable pub is_blank_digest : Digest f → Bool
  is_blank_digest d = is_empty d.fingerprint
