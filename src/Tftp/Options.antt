-- ===== src/Tftp/Options.antt =====
-- Option negotiation (internal/tftp/server.go, `Config`, `negotiate`).
use provisioning_station.Base.{
  List, Map, Option, Text, [], atoi, codes, if◌then◌else◌, itoa, lookup, ltb, none, some, text_eq,
  text_key, ℕ, ◌*◌, ◌++◌, ◌^◌, ◌||◌, ◌∷◌,
}
use provisioning_station.Base.Int.{pos, ℤ}
use mathlib.Core.Option
pub mod Bounds

-- Numbers that `Listen` has checked to be positive; times are in nanoseconds.
pub record Limits : Type 0 where
  pub retries : ℕ
  pub timeout : ℕ
  pub max_block_size : ℕ

pub data OptionError : Type 0 where
  bad_blksize bad_timeout : Text → OptionError
  bad_tsize : OptionError

pub record Agreement : Type 0 where
  pub accepted_options : List (Text × Text)
  pub block_size : ℕ
  pub wait_time : ℕ

pub data Negotiated : Type 0 where
  agreed : Agreement → Negotiated
  disagreed : OptionError → Negotiated

-- `err != nil || requested < low || requested > high`, and the number otherwise.
unfoldable pub in_range : ℕ → ℕ → Option ℤ → Option ℕ
in_range low high (some (pos n)) = if ltb n low || ltb high n then none else some n
in_range low high _ = none

-- `if requested > max { requested = max }`.
abbrev pub at_most : ℕ → ℕ → ℕ
at_most top n = if ltb top n then top else n

abbrev pub accept : Text → Text → Agreement → Agreement
accept name value a = record a { accepted_options = a.accepted_options ++ (name, value) ∷ [] }

unfoldable pub negotiate_blksize : Limits → Option Text → Agreement → Negotiated
negotiate_blksize l none a = agreed a
negotiate_blksize l (some value) a = elim (in_range 8 65464 (atoi value)) [
  | none ↦ disagreed (bad_blksize value)
  | some n ↦
      let size = at_most l.max_block_size n in
      agreed (accept (codes "blksize") (itoa size) (record a { block_size = size }))
]

unfoldable pub negotiate_timeout : Option Text → Agreement → Negotiated
negotiate_timeout none a = agreed a
negotiate_timeout (some value) a = elim (in_range 1 255 (atoi value)) [
  | none ↦ disagreed (bad_timeout value)
  | some n ↦ agreed (accept (codes "timeout") (itoa n) (record a { wait_time = n * 10 ^ 9 }))
]

unfoldable pub negotiate_tsize : ℕ → Option Text → Agreement → Negotiated
negotiate_tsize size none a = agreed a
negotiate_tsize size (some value) a =
    if text_eq value (codes "0")
    then agreed (accept (codes "tsize") (itoa size) a)
    else disagreed bad_tsize

-- The next option is looked at when those before were agreed.
abbrev pub and_then : Negotiated → (Agreement → Negotiated) → Negotiated
and_then (agreed a) k = k a
and_then (disagreed e) k = disagreed e

unfoldable pub negotiate : Limits → Map Text Text → ℕ → Negotiated
negotiate l options size =
    and_then
      (and_then
        (negotiate_blksize l (lookup (codes "blksize") options)
          (record { accepted_options = []; block_size = 512; wait_time = l.timeout }))
        (negotiate_timeout (lookup (codes "timeout") options)))
      (negotiate_tsize size (lookup (codes "tsize") options))
