-- ===== src/Base/Errors.antt =====
-- Go's `error` results: `none` is nil.
use mathlib.Core.Path.{◌≡◌}
use mathlib.Core.Bool.{Bool, true, false}
use mathlib.Core.Option.{Option, none, some}
use native.Mathlib.Omega.{arith}
use provisioning_station.Base.Bytes.{Text}

-- An error that comes from outside the model, with what `errors.Is` says of it.
pub record Failure : Type 0 where
  pub message : Text
  pub is_canceled : Bool
  pub is_deadline : Bool

module _ {ℓ} {E : Type ℓ} where
  -- `if err := m; err != nil { return err }`, then `k`.
  infixr 5 ◌>>◌
  abbrev pub ◌>>◌ : Option E → Option E → Option E
  none >> k = k
  some e >> k = some e

  -- `if c { return e }`.
  abbrev pub fail_if : Bool → E → Option E
  fail_if true e = some e
  fail_if false e = none

module _ {ℓ} {E : Type ℓ} where
  pub >>-eq_none : (m k : Option E) → (m >> k) ≡ none → (m ≡ none) × (k ≡ none)
  >>-eq_none m k h = ground arith

  pub fail_if-eq_none : (c : Bool) (e : E) → fail_if c e ≡ none → c ≡ false
  fail_if-eq_none c e h = ground arith
