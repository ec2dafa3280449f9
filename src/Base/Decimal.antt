-- ===== src/Base/Decimal.antt =====
-- `strconv.Atoi` and `strconv.Itoa`.
use Prim.Native.Nat.{ℕ, zero, suc, ◌+◌, ◌-◌, ◌*◌, ◌/◌, ◌%◌, ◌^◌, ◌<◌}
use mathlib.Core.Path.{◌≡◌, refl, sym, ap, ◌∙◌}
use mathlib.Core.Logic.{inl, inr}
use mathlib.Core.Bool.{true}
use mathlib.Core.Option
use mathlib.Core.Option.{Option, none, some}
use mathlib.Core.List.{[], ◌∷◌, ◌++◌}
use native.Mathlib.Omega.{arith}
use provisioning_station.Base.Bytes.{Text, is_digit, is_empty}
use provisioning_station.Base.Int.{ℤ, pos, negsuc}
use provisioning_station.Base.Tests.{Bool-cases, leb, ltb, ltb→lt, ◌==◌, if◌then◌else◌}

-- The digits of `strconv.Atoi`, which go up to a magnitude.
unfoldable pub digits : ℕ → Text → Option ℕ
digits acc [] = some acc
digits acc (c ∷ s) =
    let later = digits (acc * 10 + (c - b'0')) s in if is_digit c then later else none

abbrev pub up_to : ℕ → Option ℕ → Option ℕ
up_to top none = none
up_to top (some n) = if leb n top then some n else none

abbrev pub unsigned : ℕ → Text → Option ℕ
unsigned top s = if is_empty s then none else up_to top (digits 0 s)

abbrev pub negative : Option ℕ → Option ℤ
negative none = none
negative (some zero) = some (pos 0)
negative (some (suc n)) = some (negsuc n)

-- `strconv.Atoi` on a 64-bit machine.
unfoldable pub atoi : Text → Option ℤ
atoi [] = none
atoi (c ∷ s) =
    if c == b'-'
    then negative (unsigned (2 ^ 63) s)
    else if c == b'+'
    then Option.map pos (unsigned (2 ^ 63 - 1) s)
    else Option.map pos (unsigned (2 ^ 63 - 1) (c ∷ s))

-- `strconv.Itoa` of a number that is not negative; the fuel is at least the number of digits.
unfoldable pub itoa_on : ℕ → ℕ → Text
itoa_on zero n = []
itoa_on (suc fuel) n =
    let higher = itoa_on fuel (n / 10) in
    if ltb n 10 then (b'0' + n) ∷ [] else higher ++ (b'0' + n % 10) ∷ []

unfoldable pub itoa : ℕ → Text
itoa n = itoa_on (suc n) n

digits-append :
    (acc : ℕ) (s : Text) (b n : ℕ)
    → digits acc s ≡ some n
    → is_digit b ≡ true
    → digits acc (s ++ b ∷ []) ≡ some (n * 10 + (b - b'0'))
unfolding digits
digits-append acc [] b n h d = ground arith
digits-append acc (c ∷ s) b n h d = ground (arith, digits-append (acc * 10 + (c - b'0')) s b n)

is_digit_lem : (d : ℕ) → d < 10 → is_digit (b'0' + d) ≡ true
is_digit_lem d h = ground arith

digits-itoa_on : (fuel n : ℕ) → n < fuel → digits 0 (itoa_on fuel n) ≡ some n
unfolding digits itoa_on
digits-itoa_on zero n h = absurd (omega arith)
digits-itoa_on (suc fuel) n h = elim (Bool-cases (ltb n 10)) [
  | inl e ↦ ground arith
  | inr e ↦
      let higher = digits-itoa_on fuel (n / 10) (ground arith) in
      let last =
        digits-append 0 (itoa_on fuel (n / 10)) (b'0' + n % 10) (n / 10) higher
          (is_digit_lem (n % 10) (omega arith)) in
      rw e (last ∙ ap some (omega arith))
]

first_digit :
    (fuel n : ℕ) → n < fuel → (c : ℕ) × (s : Text) × (itoa_on fuel n ≡ c ∷ s) × (is_digit c ≡ true)
unfolding itoa_on
first_digit zero n h = absurd (omega arith)
first_digit (suc fuel) n h = elim (Bool-cases (ltb n 10)) [
  | inl e ↦ (b'0' + n, [], rw e refl, is_digit_lem n (ltb→lt n 10 e))
  | inr e ↦
      let (c, s, higher, d) = first_digit fuel (n / 10) (ground arith) in
      (c, s ++ (b'0' + n % 10) ∷ [], rw (e, higher) refl, d)
]

pub atoi-itoa : (n : ℕ) → n < 2 ^ 63 → atoi (itoa n) ≡ some (pos n)
unfolding atoi itoa
atoi-itoa n h =
    let (c, s, first, d) = first_digit (suc n) n (omega arith) in
    let read : digits 0 (c ∷ s) ≡ some n =
      rw (sym first) (digits-itoa_on (suc n) n (omega arith)) in
    rw first (ground arith)
