-- ===== src/Console/Manager/Reach.antt =====
-- Everything that can happen to the serial console manager, in any order.
use provisioning_station.Base.{Failure, Option, Text, arith, lookup, refl, text_key, ℕ}
use provisioning_station.Base.Int.{ℤ}
use provisioning_station.Console.Attaching.{attach}
use provisioning_station.Console.Manager.{
  close_manager, consume_chunk, detach, new_console, read_round,
}
use provisioning_station.Console.Manager.Attach.{attach-Valid}
use provisioning_station.Console.Manager.Steps.{
  close_manager-Valid, consume_chunk-Valid, detach-Valid, read_round-Valid,
}
use provisioning_station.Console.Manager.Valid.{Valid}
use provisioning_station.Console.Model.{AttachEnv, AttachRequest, Console}

-- One part that holds the lock, or a client that takes a chunk out of its channel.
pub data ConsoleStep (m : Console) : Console → Type 0 where
  attaches : (e : AttachEnv) (r : AttachRequest) → ConsoleStep m (attach m e r).0
  reads :
      (tag : ℕ) (chunk : Text) (problem : Option Failure)
      → ConsoleStep m (read_round m tag chunk problem)
  detaches : (k : Text) (id : ℕ) → ConsoleStep m (detach m k id)
  takes_chunk : (k : Text) (id : ℕ) → ConsoleStep m (consume_chunk m k id)
  closes : ConsoleStep m (close_manager m)

pub data Reaches (m : Console) : Console → Type 0 where
  at_once : Reaches m m
  and_step : {m' m'' : Console} → Reaches m m' → ConsoleStep m' m'' → Reaches m m''

ConsoleStep-Valid : {m m' : Console} → ConsoleStep m m' → Valid m → Valid m'
ConsoleStep-Valid {m} (attaches e r) v = attach-Valid m e r v
ConsoleStep-Valid {m} (reads tag chunk problem) v = read_round-Valid m tag chunk problem v
ConsoleStep-Valid {m} (detaches k id) v = detach-Valid m k id v
ConsoleStep-Valid {m} (takes_chunk k id) v = consume_chunk-Valid m k id v
ConsoleStep-Valid {m} closes v = close_manager-Valid m v

pub new_console-Valid : (baud replay : ℤ) → Valid (new_console baud replay).1
unfolding new_console lookup
new_console-Valid baud replay = record {
  goods = λ k c f. absurd (cc f);
  accounted = λ t h. absurd (omega arith);
  none_if_closed = λ h. refl;
  released_bound = λ l t h. absurd (cc h);
  homes_bound = λ t k h. absurd (cc h);
}

-- Whatever attachments, reads, detachments, takes from channels and closes follow on the making
-- of a manager, in any order: in every open connection the clients have different identifiers,
-- all given out before, the controller is one of them or none, the ring stays within its limit
-- and no channel holds more than 128 chunks; every handle that was opened belongs to an open
-- connection or was closed, and never both; a closed manager has no connection.
pub Reaches-Valid :
    (baud replay : ℤ) {m : Console} → Reaches (new_console baud replay).1 m → Valid m
Reaches-Valid baud replay at_once = new_console-Valid baud replay
Reaches-Valid baud replay (and_step r st) = ConsoleStep-Valid st (Reaches-Valid baud replay r)
