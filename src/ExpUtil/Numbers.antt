-- ===== src/ExpUtil/Numbers.antt =====
-- exp-util.cc: numbers and booleans.
use hypatia_multicast.Base.{
  ℕ, ◌≡◌, zero, suc, ◌+◌, ◌-◌, ◌*◌, ◌^◌, Bool, true, false, Option, [], ◌∷◌, Result, ok, err, ◌>>=◌,
  ◌>>◌, if◌then◌else◌, not, ◌&&◌, ◌||◌, leb, ltb, ◌==◌, invalid_argument, out_of_range, throw_if,
  Ensures, bind, guarded, returns,
}
use hypatia_multicast.Base.Int.{ℤ, pos, negsuc}
use hypatia_multicast.ExpUtil.Text.{Text, is_space, left_trim, text_eq, is_empty}

unfoldable pub is_digit : ℕ → Bool
is_digit c = leb 48 c && leb c 57

-- The longest prefix of digits, and what follows it.
unfoldable pub span_digits : Text → Text × Text
span_digits [] = ([], [])
span_digits (c ∷ s) =
    let rest = span_digits s in if is_digit c then (c ∷ rest.0, rest.1) else ([], c ∷ s)

unfoldable pub digits_value : ℕ → Text → ℕ
digits_value acc [] = acc
digits_value acc (c ∷ s) = digits_value (acc * 10 + (c - 48)) s

-- A sign, if there is one: is it a minus, and what follows it.
unfoldable pub split_sign : Text → Bool × Text
split_sign [] = (false, [])
split_sign (c ∷ s) = if c == 45 then (true, s) else if c == 43 then (false, s) else (false, c ∷ s)

abbrev pub negate : ℕ → ℤ
negate zero = pos 0
negate (suc n) = negsuc n

-- std::stoll: the value and the unread rest. It throws invalid_argument without a digit, and
-- out_of_range outside int64_t.
unfoldable pub stoll : Text → Result (ℤ × Text)
unfolding left_trim is_space split_sign span_digits is_digit digits_value
stoll str = do
  let (minus, unsigned) = split_sign (left_trim str)
  let (digits, rest) = span_digits unsigned
  let value = digits_value 0 digits
  throw_if (is_empty digits) invalid_argument
  throw_if (if minus then ltb (2 ^ 63) value else leb (2 ^ 63) value) out_of_range
  ok (if minus then negate value else pos value, rest)

unfoldable pub parse_int64 : Text → Result ℤ
unfolding stoll
parse_int64 str = do
  (val, rest) ← stoll str
  throw_if (not (is_empty rest)) invalid_argument
  ok val

abbrev pub nonnegative : ℤ → Result ℕ
nonnegative (pos n) = ok n
nonnegative (negsuc n) = err invalid_argument

-- The result is not negative, so it is a natural number.
unfoldable pub parse_positive_int64 : Text → Result ℕ
unfolding parse_int64
parse_positive_int64 str = parse_int64 str >>= nonnegative

unfoldable pub parse_geq_one_int64 : Text → Result ℕ
unfolding parse_positive_int64
parse_geq_one_int64 str = do
  val ← parse_positive_int64 str
  throw_if (ltb val 1) invalid_argument
  ok val

-- "true" "1" "false" "0"
unfoldable pub parse_boolean : Text → Result Bool
unfolding text_eq
parse_boolean str =
    if text_eq str (b't' ∷ b'r' ∷ b'u' ∷ b'e' ∷ []) || text_eq str (b'1' ∷ [])
    then ok true
    else if text_eq str (b'f' ∷ b'a' ∷ b'l' ∷ b's' ∷ b'e' ∷ []) || text_eq str (b'0' ∷ [])
    then ok false
    else err invalid_argument

-- Doubles: std::stod gives a value and the unread rest, or throws; the program compares values with
-- 0 and 1, and converts one to an integer, which for some of them is undefined (`none`).
pub record Doubles : Type 1 where
  pub Double : Type 0
  pub stod : Text → Result (Double × Text)
  pub is_negative : Double → Bool
  pub is_zero : Double → Bool
  pub above_one : Double → Bool
  pub truncate : Double → Option ℕ

module _ (doubles : Doubles) where
  open doubles use {Double, stod, is_negative, above_one}

  unfoldable pub parse_double : Text → Result Double
  parse_double str = do
    (val, rest) ← stod str
    throw_if (not (is_empty rest)) invalid_argument
    ok val

  unfoldable pub parse_positive_double : Text → Result Double
  unfolding parse_double
  parse_positive_double str = do
    val ← parse_double str
    throw_if (is_negative val) invalid_argument
    ok val

  pub parse_positive_double_nonnegative :
      (str : Text) → Ensures (λ val. is_negative val ≡ false) (parse_positive_double str)
  unfolding parse_positive_double
  parse_positive_double_nonnegative str =
      bind (parse_double str) _
        λ val _. guarded (is_negative val) invalid_argument _ λ nonneg. returns val nonneg

  unfoldable pub parse_double_between_zero_and_one : Text → Result Double
  unfolding parse_double
  parse_double_between_zero_and_one str = do
    val ← parse_double str
    throw_if (is_negative val || above_one val) invalid_argument
    ok val
