-- ===== src/Tftp/Transfer.antt =====
-- The lock-step transfer of a file (internal/tftp/server.go, the loop of `serveRequest`).
pub mod Received
pub mod Ending
use provisioning_station.Base.{
  Failure, List, Option, Text, [], drop, if◌then◌else◌, length, ltb, none, some, suc, take, zero, ℕ,
  ◌%◌, ◌++◌, ◌+◌, ◌^◌,
}
use provisioning_station.Tftp.Exchange.{Attempt, TransferError, exchange, read_failed, stopped_by}
use provisioning_station.Tftp.Packets.{data_packet}

-- The environment of one block.
pub record Round : Type 0 where
  pub canceled : Option Failure
  -- an error of `io.ReadFull` other than the end of the file
  pub read_error : Option Failure
  pub attempts : ℕ → Attempt

pub data TransferEnd : Type 0 where
  completed out_of_fuel : TransferEnd
  failed_with : TransferError → TransferEnd

pub record Transfer : Type 0 where
  pub packets : List Text
  pub transferred : ℕ
  pub ending : TransferEnd

-- `block++` on a uint16.
unfoldable pub next_block : ℕ → ℕ
next_block block = (block + 1) % 2 ^ 16

abbrev pub sent_before : List Text → Transfer → Transfer
sent_before packets t = record t { packets = packets ++ t.packets }

-- The loop, `left` being what is left of the file. One round of fuel is one block.
unfoldable pub send_blocks :
    (size retries : ℕ) → (ℕ → Round) → (fuel : ℕ) → (k block transferred : ℕ) → Text → Transfer
send_blocks size retries rounds zero k block transferred left = record {
  packets = [];
  transferred = transferred;
  ending = out_of_fuel;
}
send_blocks size retries rounds (suc fuel) k block transferred left =
    let chunk = take size left in
    let total = transferred + length chunk in
    let later =
      send_blocks size retries rounds fuel (suc k) (next_block block) total (drop size left) in
    let x = exchange (data_packet block chunk) block retries (rounds k).attempts 0 in
    elim (rounds k).canceled [
      | some f ↦ record {
        packets = [];
        transferred = transferred;
        ending = failed_with (stopped_by f);
      }
      | none ↦ elim (rounds k).read_error [
        | some f ↦ record {
          packets = [];
          transferred = transferred;
          ending = failed_with (read_failed f);
        }
        | none ↦ elim x.problem [
          | some e ↦ record { packets = x.sent; transferred = transferred; ending = failed_with e }
          | none ↦
              if ltb (length chunk) size
              then record { packets = x.sent; transferred = total; ending = completed }
              else sent_before x.sent later
        ]
      ]
    ]
