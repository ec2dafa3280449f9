-- ===== src/Console/Write.antt =====
-- Writing to a serial console (internal/serialconsole/manager.go, `write`).
pub mod Laws
use provisioning_station.Base.{
  Failure, Option, Text, [], drop, if◌then◌else◌, length, lookup, none, some, suc, take, text_key,
  zero, ℕ, ◌++◌, ◌==◌, ◌∷◌,
}
use provisioning_station.Base.Int.{negsuc, pos, ℤ}
use provisioning_station.Console.Model.{
  Console, ConsoleError, console_failure, lease_not_held, short_write,
}

-- What one `Write` of the handle does: an error, or a number of bytes taken.
pub data Written : Type 0 where
  write_fails : Failure → Written
  takes : ℤ → Written

-- What the handle got, and the error.
pub record Sent : Type 0 where
  pub bytes : Text
  pub problem : Option ConsoleError

abbrev pub sent_after : Text → Sent → Sent
sent_after front s = record s { bytes = front ++ s.bytes }

-- The loop; each round but the last takes a byte at least, so `fuel` bytes take as many rounds.
unfoldable pub write_loop : (ℕ → Written) → (fuel : ℕ) → ℕ → Text → Sent
write_loop device fuel k [] = record { bytes = []; problem = none }
write_loop device zero k (b ∷ rest) = record { bytes = []; problem = some short_write }
write_loop device (suc fuel) k (b ∷ rest) = elim (device k) [
  | write_fails f ↦ record { bytes = []; problem = some (console_failure f) }
  | takes (negsuc n) ↦ record { bytes = []; problem = some short_write }
  | takes (pos zero) ↦ record { bytes = []; problem = some short_write }
  | takes (pos (suc n)) ↦
      sent_after (take (suc n) (b ∷ rest))
        (write_loop device fuel (suc k) (drop (suc n) (b ∷ rest)))
]

-- `write`: only the client that holds the lease may write.
unfoldable pub write : (ℕ → Written) → Console → Text → ℕ → Text → Sent
write device m k id bytes = elim (lookup k m.connections) [
  | none ↦ record { bytes = []; problem = some lease_not_held }
  | some c ↦
      let sent = write_loop device (length bytes) 0 bytes in
      if c.controller == id then sent else record { bytes = []; problem = some lease_not_held }
]
