-- ===== src/Tftp/Exchange/Laws.antt =====
-- What an exchange sends, and when it succeeds.
use provisioning_station.Base.{
  List, Text, [], arith, inl, inr, length, none, refl, subst, suc, true, zero, ℕ, ◌%◌, ◌*◌, ◌+◌,
  ◌/◌, ◌<◌, ◌∷◌, ◌≡◌, ◌≤◌, ◌⊎◌,
}
use provisioning_station.Tftp.Exchange.{
  Attempt, Reception, acknowledged, await, datagram, exchange, is_ack, no_deadline, no_read, silent,
}
use provisioning_station.Tftp.Packets.{ack_packet, read_word, word}

abbrev pub copies : ℕ → Text → List Text
copies zero packet = []
copies (suc n) packet = packet ∷ copies n packet

-- The receptions up to one that is the expected acknowledgement of the client.
abbrev pub HasAck : ℕ → List Reception → Type 0
HasAck expected [] = ⊥
HasAck expected (datagram same_peer packet ∷ rest) =
    ((same_peer ≡ true) × (is_ack expected packet ≡ true)) ⊎ HasAck expected rest
HasAck expected (_ ∷ rest) = ⊥

pub await-HasAck :
    (expected : ℕ) (receptions : List Reception)
    → await expected receptions ≡ acknowledged
    → HasAck expected receptions
unfolding await
await-HasAck expected [] h = absurd (cc h)
await-HasAck expected (no_deadline f ∷ rest) h = absurd (cc h)
await-HasAck expected (no_read f ∷ rest) h = absurd (cc h)
await-HasAck expected (datagram same_peer packet ∷ rest) h =
    ground (arith, await-HasAck expected rest)

-- An exchange sends nothing but its packet, at most as often as there are attempts; one that succeeds
-- sends it at least once.
pub exchange-copies :
    (packet : Text) (expected left : ℕ) (attempts : ℕ → Attempt) (k : ℕ)
    → (let x = exchange packet expected left attempts k in
        (x.sent ≡ copies (length x.sent) packet)
        × (length x.sent ≤ left)
        × (x.problem ≡ none → 1 ≤ length x.sent))
unfolding exchange
exchange-copies packet expected zero attempts k = (refl, omega arith, λ e. absurd (cc e))
exchange-copies packet expected (suc left) attempts k =
    ground (arith, exchange-copies packet expected left attempts (suc k))

exchange_success :
    (packet : Text) (expected left : ℕ) (attempts : ℕ → Attempt) (k : ℕ)
    → (exchange packet expected (suc left) attempts k).problem ≡ none
    → (await expected (attempts k).receptions ≡ acknowledged)
      ⊎ ((exchange packet expected left attempts (suc k)).problem ≡ none)
unfolding exchange
exchange_success packet expected left attempts k h = ground arith

-- An exchange that succeeds has, in one of its attempts, received the acknowledgement of the
-- expected block from the client, with nothing but datagrams before it.
pub exchange-HasAck :
    (packet : Text) (expected left : ℕ) (attempts : ℕ → Attempt) (k : ℕ)
    → (exchange packet expected left attempts k).problem ≡ none
    → (i : ℕ) × (k ≤ i) × (i < k + left) × HasAck expected (attempts i).receptions
unfolding exchange
exchange-HasAck packet expected zero attempts k h = absurd (cc h)
exchange-HasAck packet expected (suc left) attempts k h =
    elim (exchange_success packet expected left attempts k h) [
      | inl e ↦ (k, omega arith, omega arith, await-HasAck expected (attempts k).receptions e)
      | inr e ↦
          let (i, low, high, a) = exchange-HasAck packet expected left attempts (suc k) e in
          (i, omega arith, omega arith, a)
    ]

-- An attempt in which nothing fails and the client answers.
abbrev pub Answered : ℕ → Attempt → Type 0
Answered expected a =
    (a.canceled ≡ none) × (a.write_error ≡ none) × (await expected a.receptions ≡ acknowledged)

-- An attempt in which nothing fails and no answer comes.
abbrev pub Lost : ℕ → Attempt → Type 0
Lost expected a =
    (a.canceled ≡ none) × (a.write_error ≡ none) × (await expected a.receptions ≡ silent)

-- After fewer losses than attempts, an answer makes the exchange succeed.
pub exchange-Answered :
    (packet : Text) (expected left : ℕ) (attempts : ℕ → Attempt) (k lost : ℕ)
    → lost < left
    → ((i : ℕ) → i < lost → Lost expected (attempts (k + i)))
    → Answered expected (attempts (k + lost))
    → (exchange packet expected left attempts k).problem ≡ none
unfolding exchange
exchange-Answered packet expected zero attempts k lost h l a = absurd (omega arith)
exchange-Answered packet expected (suc left) attempts k zero h l a =
    let a' : Answered expected (attempts k) =
      subst (λ j. Answered expected (attempts j)) (omega arith) a in
    ground arith
exchange-Answered packet expected (suc left) attempts k (suc lost) h l a =
    let first : Lost expected (attempts k) =
      subst (λ j. Lost expected (attempts j)) (omega arith) (l 0 (omega arith)) in
    let rest =
      exchange-Answered packet expected left attempts (suc k) lost (omega arith)
        (λ i less. subst (λ j. Lost expected (attempts j)) (omega arith) (l (suc i) (omega arith)))
        (subst (λ j. Answered expected (attempts j)) (omega arith) a) in
    ground arith

pub is_ack-ack_packet : (block : ℕ) → block < 65536 → is_ack block (ack_packet block) ≡ true
unfolding is_ack read_word word
is_ack-ack_packet block h =
    let same_block : block / 256 % 256 * 256 + block % 256 ≡ block = omega arith in ground arith
