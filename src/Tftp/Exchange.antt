-- ===== src/Tftp/Exchange.antt =====
-- Sending one packet until it is acknowledged (internal/tftp/server.go, `exchange`).
pub mod Laws
use provisioning_station.Base.{
  Bool, Failure, List, Option, Text, [], drop, if◌then◌else◌, leb, length, none, not, some, suc,
  zero, ℕ, ◌&&◌, ◌==◌, ◌∷◌,
}
use provisioning_station.Tftp.Packets.{opcode_ack, opcode_error, packet_message, read_word}

-- What `SetReadDeadline` and `ReadFromUDP` give in turn. `same_peer` says that the sender has the
-- address and the port of the client.
pub data Reception : Type 0 where
  no_deadline no_read : Failure → Reception
  datagram : (same_peer : Bool) (packet : Text) → Reception

-- The environment of one attempt. The reads time out after the last reception.
pub record Attempt : Type 0 where
  pub canceled : Option Failure
  pub write_error : Option Failure
  pub receptions : List Reception

pub data TransferError : Type 0 where
  stopped_by send_failed receive_failed read_failed : Failure → TransferError
  client_error : ℕ → Text → TransferError
  no_answer : TransferError

pub data Answer : Type 0 where
  acknowledged silent : Answer
  gave_up : TransferError → Answer

unfoldable pub is_ack : ℕ → Text → Bool
is_ack expected packet =
    leb 4 (length packet) && read_word packet == opcode_ack && read_word (drop 2 packet) == expected

unfoldable pub is_error : Text → Bool
is_error packet = leb 4 (length packet) && read_word packet == opcode_error

-- The inner loop, over the receptions before the deadline.
unfoldable pub await : ℕ → List Reception → Answer
await expected [] = silent
await expected (no_deadline f ∷ rest) = gave_up (stopped_by f)
await expected (no_read f ∷ rest) = gave_up (receive_failed f)
await expected (datagram same_peer packet ∷ rest) =
    let later = await expected rest in
    if not same_peer
    then later
    else if is_ack expected packet
    then acknowledged
    else if is_error packet
    then gave_up (client_error (read_word (drop 2 packet)) (packet_message packet))
    else later

-- What one exchange sends, and its error.
pub record Exchanged : Type 0 where
  pub sent : List Text
  pub problem : Option TransferError

abbrev pub send_first : Text → Exchanged → Exchanged
send_first packet x = record x { sent = packet ∷ x.sent }

-- The outer loop with `left` attempts to go.
unfoldable pub exchange : Text → ℕ → (left : ℕ) → (ℕ → Attempt) → ℕ → Exchanged
exchange packet expected zero attempts k = record { sent = []; problem = some no_answer }
exchange packet expected (suc left) attempts k =
    let later = exchange packet expected left attempts (suc k) in
    elim (attempts k).canceled [
      | some f ↦ record { sent = []; problem = some (stopped_by f) }
      | none ↦ elim (attempts k).write_error [
        | some f ↦ record { sent = []; problem = some (send_failed f) }
        | none ↦ elim (await expected (attempts k).receptions) [
          | acknowledged ↦ record { sent = packet ∷ []; problem = none }
          | gave_up e ↦ record { sent = packet ∷ []; problem = some e }
          | silent ↦ send_first packet later
        ]
      ]
    ]
