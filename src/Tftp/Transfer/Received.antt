-- ===== src/Tftp/Transfer/Received.antt =====
-- What a client that follows RFC 1350 makes of the packets of a transfer.
use provisioning_station.Base.{
  List, Option, Text, [], ap, append_assoc, arith, drop, if◌then◌else◌, inl, inr, length,
  length-drop, length-take, ltb, none, refl, some, suc, take, take-append-drop, take_short, zero, ℕ,
  ◌&&◌, ◌++◌, ◌+◌, ◌<◌, ◌==◌, ◌^◌, ◌∙◌, ◌∷◌, ◌≡◌, ◌≢◌, ◌≤◌, ◌⊎◌,
}
use provisioning_station.Tftp.Exchange.{exchange}
use provisioning_station.Tftp.Exchange.Laws.{copies, exchange-copies}
use provisioning_station.Tftp.Packets.{
  data_packet, opcode_data, read_word, read_word-data_packet, word,
}
use provisioning_station.Tftp.Transfer.{Round, Transfer, completed, next_block, send_blocks}

-- A client that waits for a block with a given number: it takes the data of that block, leaves every
-- other packet alone, and has the file after a block that is not full.
unfoldable pub receive : (size : ℕ) → (expected : ℕ) → (got : Text) → List Text → Option Text
receive size expected got [] = none
receive size expected got (p ∷ rest) =
    let after = receive size (next_block expected) (got ++ drop 4 p) rest in
    let same_state = receive size expected got rest in
    if read_word p == opcode_data && read_word (drop 2 p) == expected
    then if ltb (length (drop 4 p)) size then some (got ++ drop 4 p) else after
    else same_state

-- Copies of a block that has been taken are left alone.
receive_again :
    (size block expected : ℕ) (payload got : Text) (n : ℕ) (rest : List Text)
    → block < 2 ^ 16
    → block ≢ expected
    → receive size expected got (copies n (data_packet block payload) ++ rest)
      ≡ receive size expected got rest
unfolding receive
receive_again size block expected payload got zero rest h d = refl
receive_again size block expected payload got (suc n) rest h d = ground (
  arith,
  receive_again size block expected payload got n rest h d,
  read_word-data_packet block payload h,
)

-- The first copy of the awaited block is taken.
receive_last :
    (size block : ℕ) (payload got : Text) (n : ℕ)
    → block < 2 ^ 16
    → length payload < size
    → receive size block got (copies (suc n) (data_packet block payload)) ≡ some (got ++ payload)
unfolding receive data_packet word read_word
receive_last size block payload got n h s = ground arith

next_block_ne : (block : ℕ) → block < 2 ^ 16 → block ≢ next_block block
unfolding next_block
next_block_ne block h e = omega arith

receive_full :
    (size block : ℕ) (payload got : Text) (n : ℕ) (rest : List Text)
    → block < 2 ^ 16
    → size ≤ length payload
    → receive size block got (copies (suc n) (data_packet block payload) ++ rest)
      ≡ receive size (next_block block) (got ++ payload) rest
unfolding receive data_packet word read_word
receive_full size block payload got n rest h s = ground (
  arith,
  receive_again size block (next_block block) payload (got ++ payload) n rest h
      (next_block_ne block h),
)

copies_of :
    (packets : List Text) (packet : Text) (n : ℕ)
    → packets ≡ copies n packet
    → 1 ≤ n
    → (m : ℕ) × (packets ≡ copies (suc m) packet)
copies_of packets packet zero e h = absurd (omega arith)
copies_of packets packet (suc n) e h = (n, e)

-- The two ways in which a round can be part of a transfer that completes.
Completes : (size retries : ℕ) → (ℕ → Round) → (fuel k block transferred : ℕ) → Text → Type 0
Completes size retries rounds fuel k block transferred left =
    let chunk = take size left in
    let x = exchange (data_packet block chunk) block retries (rounds k).attempts 0 in
    let t = send_blocks size retries rounds (suc fuel) k block transferred left in
    let later =
      send_blocks size retries rounds fuel (suc k) (next_block block) (transferred + length chunk)
        (drop size left) in
    (x.problem ≡ none)
    × (((length chunk < size) × (t.packets ≡ x.sent) × (t.transferred ≡ transferred + length chunk))
        ⊎ ((size ≤ length chunk)
            × (later.ending ≡ completed)
            × (t.packets ≡ x.sent ++ later.packets)
            × (t.transferred ≡ later.transferred)))

send_blocks-Completes :
    (size retries : ℕ) (rounds : ℕ → Round) (fuel k block transferred : ℕ) (left : Text)
    → (send_blocks size retries rounds (suc fuel) k block transferred left).ending ≡ completed
    → Completes size retries rounds fuel k block transferred left
unfolding Completes send_blocks
send_blocks-Completes size retries rounds fuel k block transferred left h = ground arith

next_block_bound : (block : ℕ) → next_block block < 2 ^ 16
unfolding next_block
next_block_bound block = omega arith

out_of_fuel_ne :
    (size retries : ℕ) (rounds : ℕ → Round) (k block transferred : ℕ) (left : Text)
    → ¬ ((send_blocks size retries rounds 0 k block transferred left).ending ≡ completed)
unfolding send_blocks
out_of_fuel_ne size retries rounds k block transferred left h = cc h

pub send_blocks-receive :
    (size retries : ℕ) (rounds : ℕ → Round) (fuel k block transferred : ℕ) (left got : Text)
    → block < 2 ^ 16
    → (send_blocks size retries rounds fuel k block transferred left).ending ≡ completed
    → (receive size block got
          (send_blocks size retries rounds fuel k block transferred left).packets
        ≡ some (got ++ left))
      × ((send_blocks size retries rounds fuel k block transferred left).transferred
          ≡ transferred + length left)
unfolding Completes
send_blocks-receive size retries rounds zero k block transferred left got b h =
    absurd (out_of_fuel_ne size retries rounds k block transferred left h)
send_blocks-receive size retries rounds (suc fuel) k block transferred left got b h =
    let chunk = take size left in
    let x = exchange (data_packet block chunk) block retries (rounds k).attempts 0 in
    let (fine, ways) = send_blocks-Completes size retries rounds fuel k block transferred left h in
    let (same_packets, bound, once) =
      exchange-copies (data_packet block chunk) block retries (rounds k).attempts 0 in
    let (n, e) =
      copies_of x.sent (data_packet block chunk) (length x.sent) same_packets (once fine) in
    elim ways [
      | inl (short, p, t) ↦
          let all_left = take_short size left short in
          (
            ap (receive size block got) (p ∙ e)
                ∙ receive_last size block chunk got n b short
                ∙ ap (λ c. some (got ++ c)) all_left,
            t ∙ ap (λ c. transferred + length c) all_left,
          )
      | inr (full, rest_done, p, t) ↦
          let after : Transfer =
            send_blocks size retries rounds fuel (suc k) (next_block block)
              (transferred + length chunk) (drop size left) in
          let (content, count) =
            send_blocks-receive size retries rounds fuel (suc k) (next_block block)
              (transferred + length chunk) (drop size left) (got ++ chunk) (next_block_bound block)
              rest_done in
          (
            ap (receive size block got) (p ∙ ap (λ c. c ++ after.packets) e)
                ∙ receive_full size block chunk got n after.packets b full
                ∙ content
                ∙ ap some (
                    append_assoc got chunk (drop size left)
                    ∙ ap (λ c. got ++ c) (take-append-drop size left)),
            t ∙ count ∙ omega (arith, length-take size left, length-drop size left),
          )
    ]
