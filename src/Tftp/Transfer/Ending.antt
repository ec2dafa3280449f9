-- ===== src/Tftp/Transfer/Ending.antt =====
-- Every transfer ends, and one whose packets are answered completes.
use provisioning_station.Base.{
  Text, arith, drop, length, length-drop, length-take, none, subst, suc, sym, take, zero, ℕ, ◌%◌,
  ◌+◌, ◌<◌, ◌^◌, ◌≡◌, ◌≢◌, ◌≤◌,
}
use provisioning_station.Tftp.Exchange.{exchange}
use provisioning_station.Tftp.Exchange.Laws.{Answered, Lost, exchange-Answered}
use provisioning_station.Tftp.Packets.{data_packet}
use provisioning_station.Tftp.Transfer.{Round, completed, next_block, out_of_fuel, send_blocks}

-- With blocks of at least one byte, the loop over the blocks ends within one more round than the
-- file has bytes.
pub send_blocks-ends :
    (size retries : ℕ) (rounds : ℕ → Round) (fuel k block transferred : ℕ) (left : Text)
    → 1 ≤ size
    → length left < fuel
    → (send_blocks size retries rounds fuel k block transferred left).ending ≢ out_of_fuel
unfolding send_blocks
send_blocks-ends size retries rounds zero k block transferred left s f h = omega arith
send_blocks-ends size retries rounds (suc fuel) k block transferred left s f h = ground (
  arith,
  length-take size left,
  length-drop size left,
  send_blocks-ends size retries rounds fuel (suc k) (next_block block)
      (transferred + length (take size left)) (drop size left) s,
)

-- In every round nothing fails, and the client answers after fewer losses than there are attempts.
abbrev pub Served : ℕ → (ℕ → Round) → Type 0
Served retries rounds =
    (k : ℕ)
    → ((rounds k).canceled ≡ none)
      × ((rounds k).read_error ≡ none)
      × (lost : ℕ) × (lost < retries)
      × ((i : ℕ) → i < lost → Lost (suc k % 2 ^ 16) ((rounds k).attempts i))
      × Answered (suc k % 2 ^ 16) ((rounds k).attempts lost)

Served-exchange :
    (retries : ℕ) (rounds : ℕ → Round) (k : ℕ) (packet : Text)
    → Served retries rounds
    → (exchange packet (suc k % 2 ^ 16) retries (rounds k).attempts 0).problem ≡ none
Served-exchange retries rounds k packet s =
    let (c, r, lost, less, before, answer) = s k in
    exchange-Answered packet (suc k % 2 ^ 16) retries (rounds k).attempts 0 lost less
      (λ i below.
        subst (λ j. Lost (suc k % 2 ^ 16) ((rounds k).attempts j)) (omega arith) (before i below))
      (subst (λ j. Answered (suc k % 2 ^ 16) ((rounds k).attempts j)) (omega arith) answer)

-- If in every round nothing fails and the client answers after fewer losses than there are
-- attempts, the loop over the blocks completes, with one more round of fuel than the file has
-- bytes.
pub send_blocks-Served :
    (size retries : ℕ) (rounds : ℕ → Round) (fuel k block transferred : ℕ) (left : Text)
    → 1 ≤ size
    → length left < fuel
    → Served retries rounds
    → block ≡ suc k % 2 ^ 16
    → (send_blocks size retries rounds fuel k block transferred left).ending ≡ completed
unfolding send_blocks next_block
send_blocks-Served size retries rounds zero k block transferred left s f h e = absurd (omega arith)
send_blocks-Served size retries rounds (suc fuel) k block transferred left s f h e =
    let fine : (exchange (data_packet block (take size left)) block retries (rounds k).attempts
          0).problem
        ≡ none =
      subst
        (λ b.
          (exchange (data_packet block (take size left)) b retries (rounds k).attempts 0).problem
          ≡ none)
        (sym e) (Served-exchange retries rounds k (data_packet block (take size left)) h) in
    let no_cancel = (h k).0 in
    let no_error = (h k).1 in
    let following : (block + 1) % 2 ^ 16 ≡ suc (suc k) % 2 ^ 16 = omega arith in
    ground (
      arith,
      length-take size left,
      length-drop size left,
      send_blocks-Served size retries rounds fuel (suc k) ((block + 1) % 2 ^ 16)
          (transferred + length (take size left)) (drop size left) s,
    )
