-- ===== src/Tasks/Values.antt =====
-- Parameter values and their types (internal/tasks/tasks.go, `validType` to `same`).
-- A float64 is its IEEE 754 bit pattern, a number below 2 ^ 64.
use provisioning_station.Base.{
  Bool, Option, Text, codes, false, if◌then◌else◌, leb, none, not, some, text_eq, true, ℕ, ◌%◌,
  ◌&&◌, ◌+◌, ◌-◌, ◌/◌, ◌==◌, ◌^◌, ◌||◌,
}
use provisioning_station.Base.Int.{ℤ}

-- A decoded JSON value, as `any` holds it. `composite` is an array or an object.
pub data Value : Type 0 where
  string : Text → Value
  boolean : Bool → Value
  float64 : ℕ → Value
  int : ℤ → Value
  int64 : ℤ → Value
  json_number : Text → Value
  null : Value
  composite : Value

-- Go's conversions to float64: of an integer, and `json.Number.Float64` (`none` is an error).
pub record Numbers : Type 0 where
  pub float_of_int : ℤ → ℕ
  pub parse_float : Text → Option ℕ
  -- `time.Duration(t * float64(time.Second))`, which saturates at no value in use
  pub nanoseconds : ℕ → ℤ

abbrev pub exponent : ℕ → ℕ
exponent b = b / 2 ^ 52 % 2048

abbrev pub fraction : ℕ → ℕ
fraction b = b % 2 ^ 52

abbrev pub is_negative : ℕ → Bool
is_negative b = leb (2 ^ 63) b

-- `!math.IsNaN(n) && !math.IsInf(n, 0)`.
abbrev pub is_finite : ℕ → Bool
is_finite b = not (exponent b == 2047)

-- `math.Trunc(n) == n && math.Abs(n) <= 9007199254740991`: a finite float64 is zero, or
-- (2 ^ 52 + fraction) / 2 ^ (1075 - exponent) up to its sign, and at exponent 1076 it is past 2 ^ 53.
unfoldable pub is_safe_integer : ℕ → Bool
is_safe_integer b =
    if exponent b == 0
    then fraction b == 0
    else leb 1023 (exponent b)
      && leb (exponent b) 1075
      && ((2 ^ 52 + fraction b) % 2 ^ (1075 - exponent b) == 0)

-- `x == y` on float64: no NaN equals anything, and the two zeros are equal.
unfoldable pub float_eq : ℕ → ℕ → Bool
float_eq a b = (a == b && (is_finite a || fraction a == 0)) || (a % 2 ^ 63 == 0 && b % 2 ^ 63 == 0)

abbrev pub if_finite : ℕ → Option ℕ
if_finite b = if is_finite b then some b else none

-- The two results of `number` as an option; a float64 that is no number is refused.
unfoldable pub number : Numbers → Value → Option ℕ
number n (float64 b) = if_finite b
number n (int i) = some (n.float_of_int i)
number n (int64 i) = some (n.float_of_int i)
number n (json_number t) = elim (n.parse_float t) [ none ↦ none | some b ↦ if_finite b ]
number n (string t) = none
number n (boolean b) = none
number n null = none
number n composite = none

unfoldable pub valid_type : Text → Bool
valid_type kind =
    text_eq kind (codes "string")
    || text_eq kind (codes "boolean")
    || text_eq kind (codes "integer")
    || text_eq kind (codes "number")

abbrev pub is_string : Value → Bool
is_string (string _) = true
is_string _ = false

abbrev pub is_boolean : Value → Bool
is_boolean (boolean _) = true
is_boolean _ = false

unfoldable pub matches : Numbers → Text → Value → Bool
unfolding number is_safe_integer
matches n kind value =
    if text_eq kind (codes "string")
    then is_string value
    else if text_eq kind (codes "boolean")
    then is_boolean value
    else if text_eq kind (codes "number") || text_eq kind (codes "integer")
    then elim (number n value) [
      | none ↦ false
      | some f ↦ text_eq kind (codes "number") || is_safe_integer f
    ]
    else false

-- `a == b` on interface values that are no numbers. Go panics on two arrays or objects; `matches`
-- has refused those before `same` is called.
abbrev pub interface_eq : Value → Value → Bool
interface_eq (string s) (string t) = text_eq s t
interface_eq (boolean a) (boolean b) = (a && b) || (not a && not b)
interface_eq null null = true
interface_eq _ _ = false

-- A NaN has `ok == false`, and is compared as an interface value, to which it is not equal.
unfoldable pub same : Numbers → Value → Value → Bool
unfolding number float_eq
same n a b = elim (number n a) [
  | some x ↦ elim (number n b) [ none ↦ false | some y ↦ float_eq x y ]
  | none ↦ interface_eq a b
]
