-- ===== src/Tftp/Options/Bounds.antt =====
-- What a negotiation can agree on.
use provisioning_station.Base.{
  Bool-cases, Map, Option, Text, [], arith, atoi, codes, inl, inr, lookup, ltb, none, refl, some,
  text_key, ℕ, ◌*◌, ◌^◌, ◌||◌, ◌≡◌, ◌≤◌, ◌⊎◌,
}
use provisioning_station.Base.Int.{negsuc, pos, ℤ}
use provisioning_station.Tftp.Options.{
  Agreement, Limits, Negotiated, agreed, and_then, at_most, disagreed, in_range, negotiate,
  negotiate_blksize, negotiate_timeout, negotiate_tsize,
}

in_range_cases :
    (low high : ℕ) (v : Option ℤ)
    → (in_range low high v ≡ none)
      ⊎ ((n : ℕ) × (in_range low high v ≡ some n) × (low ≤ n) × (n ≤ high))
unfolding in_range
in_range_cases low high none = inl refl
in_range_cases low high (some (negsuc k)) = inl refl
in_range_cases low high (some (pos k)) = elim (Bool-cases (ltb k low || ltb high k)) [
  | inl e ↦ inl (ground arith)
  | inr e ↦ inr (k, ground arith, ground arith, ground arith)
]

at_most_bounds :
    (low top n : ℕ) → low ≤ top → low ≤ n → (low ≤ at_most top n) × (at_most top n ≤ top)
at_most_bounds low top n h k = ground arith

blksize_bounds :
    (l : Limits) (asked : Option Text) (a b : Agreement)
    → 8 ≤ l.max_block_size
    → negotiate_blksize l asked a ≡ agreed b
    → (b.wait_time ≡ a.wait_time)
      × (((asked ≡ none) × (b.block_size ≡ a.block_size))
          ⊎ ((v : Text) × (asked ≡ some v)
              × (8 ≤ b.block_size)
              × (b.block_size ≤ l.max_block_size)))
unfolding negotiate_blksize
blksize_bounds l none a b m h = ground arith
blksize_bounds l (some value) a b m h = elim (in_range_cases 8 65464 (atoi value)) [
  | inl e ↦ ground (arith, e)
  | inr (n, e, low, high) ↦ ground (arith, e, at_most_bounds 8 l.max_block_size n m low)
]

timeout_bounds :
    (asked : Option Text) (a b : Agreement)
    → negotiate_timeout asked a ≡ agreed b
    → (b.block_size ≡ a.block_size)
      × (((asked ≡ none) × (b.wait_time ≡ a.wait_time))
          ⊎ ((v : Text) × (asked ≡ some v) × (10 ^ 9 ≤ b.wait_time) × (b.wait_time ≤ 255 * 10 ^ 9)))
unfolding negotiate_timeout
timeout_bounds none a b h = ground arith
timeout_bounds (some value) a b h = elim (in_range_cases 1 255 (atoi value)) [
  | inl e ↦ ground (arith, e)
  | inr (n, e, low, high) ↦
      let size : b.block_size ≡ a.block_size = ground (arith, e) in
      let wait : b.wait_time ≡ n * 10 ^ 9 = ground (arith, e) in
      (size, inr (value, refl, omega arith, omega arith))
]

tsize_kept :
    (size : ℕ) (asked : Option Text) (a b : Agreement)
    → negotiate_tsize size asked a ≡ agreed b
    → (b.block_size ≡ a.block_size) × (b.wait_time ≡ a.wait_time)
unfolding negotiate_tsize
tsize_kept size none a b h = ground arith
tsize_kept size (some value) a b h = ground arith

-- The agreement of two negotiations passed through the first.
and_then_agreed :
    (n : Negotiated) (k : Agreement → Negotiated) (b : Agreement)
    → and_then n k ≡ agreed b
    → (a : Agreement) × (n ≡ agreed a) × (k a ≡ agreed b)
and_then_agreed (agreed a) k b h = (a, refl, h)
and_then_agreed (disagreed e) k b h = absurd (cc h)

-- With a configured maximum of at least 8, an agreed block size is 512 where none was asked for,
-- and where one was asked for it lies between 8 and the maximum; an agreed timeout is the
-- configured one where none was asked for, and where one was asked for it lies between 1 and 255
-- seconds.
pub negotiate_bounds :
    (l : Limits) (options : Map Text Text) (size : ℕ) (a : Agreement)
    → 8 ≤ l.max_block_size
    → negotiate l options size ≡ agreed a
    → (((lookup (codes "blksize") options ≡ none) × (a.block_size ≡ 512))
        ⊎ ((v : Text) × (lookup (codes "blksize") options ≡ some v)
            × (8 ≤ a.block_size)
            × (a.block_size ≤ l.max_block_size)))
      × (((lookup (codes "timeout") options ≡ none) × (a.wait_time ≡ l.timeout))
          ⊎ ((v : Text) × (lookup (codes "timeout") options ≡ some v)
              × (10 ^ 9 ≤ a.wait_time)
              × (a.wait_time ≤ 255 * 10 ^ 9)))
unfolding negotiate
negotiate_bounds l options size a m h =
    let first : Agreement = record {
      accepted_options = [];
      block_size = 512;
      wait_time = l.timeout;
    } in
    let (second, h₂, h₃) = and_then_agreed _ _ a h in
    let (third, h₀, h₁) = and_then_agreed _ _ second h₂ in
    let kept = tsize_kept size (lookup (codes "tsize") options) second a h₃ in
    let waits = timeout_bounds (lookup (codes "timeout") options) third second h₁ in
    let sizes = blksize_bounds l (lookup (codes "blksize") options) first third m h₀ in ground arith
