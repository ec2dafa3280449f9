-- ===== src/Tftp/Packets.antt =====
-- The packets of internal/tftp/server.go as lists of bytes.
use provisioning_station.Base.{
  List, Text, [], arith, drop, if◌then◌else◌, leb, length, refl, ℕ, ◌%◌, ◌*◌, ◌++◌, ◌+◌, ◌/◌, ◌<◌,
  ◌==◌, ◌∷◌, ◌≡◌,
}

-- `binary.BigEndian.PutUint16` of a uint16.
unfoldable pub word : ℕ → Text
word n = n / 256 % 256 ∷ n % 256 ∷ []

-- `binary.BigEndian.Uint16(packet[:2])`; the code has checked the length of the packet.
unfoldable pub read_word : Text → ℕ
read_word (a ∷ b ∷ _) = a * 256 + b
read_word _ = 0

abbrev pub opcode_rrq : ℕ
opcode_rrq = 1

abbrev pub opcode_data : ℕ
opcode_data = 3

abbrev pub opcode_ack : ℕ
opcode_ack = 4

abbrev pub opcode_error : ℕ
opcode_error = 5

abbrev pub opcode_oack : ℕ
opcode_oack = 6

unfoldable pub data_packet : ℕ → Text → Text
data_packet block payload = word opcode_data ++ word block ++ payload

-- A client's acknowledgement, which the server only reads.
abbrev pub ack_packet : ℕ → Text
ack_packet block = word opcode_ack ++ word block

-- Each name and value, ended by a zero.
unfoldable pub option_bytes : List (Text × Text) → Text
option_bytes [] = []
option_bytes ((name, value) ∷ rest) = name ++ 0 ∷ value ++ 0 ∷ option_bytes rest

unfoldable pub option_ack_packet : List (Text × Text) → Text
option_ack_packet options = 0 ∷ opcode_oack ∷ option_bytes options

-- `strings.ReplaceAll(message, "\x00", "")`.
unfoldable pub remove_zeros : Text → Text
remove_zeros [] = []
remove_zeros (c ∷ s) = if c == 0 then remove_zeros s else c ∷ remove_zeros s

unfoldable pub error_packet : ℕ → Text → Text
error_packet code message = word opcode_error ++ word code ++ remove_zeros message ++ 0 ∷ []

-- `message[:strings.IndexByte(message, 0)]`, the whole message where there is no zero.
unfoldable pub until_zero : Text → Text
until_zero [] = []
until_zero (c ∷ s) = if c == 0 then [] else c ∷ until_zero s

unfoldable pub packet_message : Text → Text
packet_message packet = if leb (length packet) 4 then [] else until_zero (drop 4 packet)

until_zero-remove_zeros : (s : Text) → until_zero (remove_zeros s ++ 0 ∷ []) ≡ remove_zeros s
unfolding until_zero remove_zeros
until_zero-remove_zeros [] = ground arith
until_zero-remove_zeros (c ∷ s) = ground (arith, until_zero-remove_zeros s)

-- An error packet is read back as an error with its 16-bit code and with its message less the
-- zero bytes.
pub packet_message-error_packet :
    (code : ℕ) (message : Text)
    → code < 65536
    → (read_word (error_packet code message) ≡ opcode_error)
      × (read_word (drop 2 (error_packet code message)) ≡ code)
      × (packet_message (error_packet code message) ≡ remove_zeros message)
unfolding error_packet packet_message word read_word
packet_message-error_packet code message h =
    (omega arith, omega arith, ground (arith, until_zero-remove_zeros message))

pub read_word-data_packet :
    (block : ℕ) (payload : Text)
    → block < 65536
    → read_word (drop 2 (data_packet block payload)) ≡ block
unfolding data_packet word read_word
read_word-data_packet block payload h = omega arith

pub drop-data_packet : (block : ℕ) (payload : Text) → drop 4 (data_packet block payload) ≡ payload
unfolding data_packet word
drop-data_packet block payload = refl
