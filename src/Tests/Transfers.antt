-- ===== src/Tests/Transfers.antt =====
-- A file of ten bytes for a client that asks for blocks of eight and loses every first packet.
use provisioning_station.Base.{
  All, Map, Text, [], arith, atoi, atoi-itoa, codes, contains, digits, drop, false, itoa, itoa_on,
  length, lookup, none, refl, reverse_onto, some, split_on, suc, text_eq, text_key, true, walk,
  zero, ℕ, ◌%◌, ◌*◌, ◌+◌, ◌<◌, ◌^◌, ◌∷◌, ◌≡◌, ◌≢◌, ◌≤◌, ◌⊎◌,
}
use provisioning_station.Base.Int.{pos}
use provisioning_station.Tftp.Exchange.{Attempt, await, datagram, exchange, is_ack}
use provisioning_station.Tftp.Exchange.Laws.{
  Answered, HasAck, Lost, exchange-HasAck, is_ack-ack_packet,
}
use provisioning_station.Tftp.Options.{
  Agreement, Limits, OptionError, agreed, in_range, negotiate, negotiate_blksize, negotiate_timeout,
  negotiate_tsize,
}
use provisioning_station.Tftp.Options.Bounds.{negotiate_bounds}
use provisioning_station.Tftp.Packets.{
  ack_packet, data_packet, error_packet, packet_message, packet_message-error_packet, read_word,
  remove_zeros, word,
}
use provisioning_station.Tftp.Request.{
  ReadRequest, RequestError, parse_request, parsed, validate_filename,
}
use provisioning_station.Tftp.Request.Encoded.{
  Fresh, IsField, option_fields, parse_request-request_packet, request_packet,
}
use provisioning_station.Tftp.Request.Inside.{parse_request-Inside}
use provisioning_station.Tftp.Server.{
  Server, Session, begin_transfer, begins, dispatch, ignored, is_allowed, serve_agreed,
  serve_blocks, serve_open, serve_request, transfer_key,
}
use provisioning_station.Tftp.Server.Delivery.{Reports, serve_request-delivers}
use provisioning_station.Tftp.Server.Dispatch.{dispatch-dispatch}
use provisioning_station.Tftp.Transfer.{Round, completed, next_block, out_of_fuel, send_blocks}
use provisioning_station.Tftp.Transfer.Ending.{Served, send_blocks-Served, send_blocks-ends}
use provisioning_station.Tftp.Transfer.Received.{receive}

abbrev late : ℕ → ℕ → Attempt
late block zero = record { canceled = none; write_error = none; receptions = [] }
late block (suc n) = record {
  canceled = none;
  write_error = none;
  receptions = datagram false (ack_packet block) ∷ datagram true (ack_packet block) ∷ [];
}

abbrev late_round : ℕ → Round
late_round k = record { canceled = none; read_error = none; attempts = late (suc k % 2 ^ 16) }

abbrev file : Text
file = codes "bootloader"

abbrev asked : Map Text Text
asked = (codes "blksize", codes "8") ∷ (codes "tsize", codes "0") ∷ []

abbrev boot_request : ReadRequest
boot_request = record { filename = codes "images/boot.bin"; options = asked }

abbrev session : Session
session = record {
  started_at = 1;
  ended_at = 2;
  lstat_error = none;
  is_regular = true;
  open_error = none;
  socket_error = none;
  size = 10;
  content = file;
  option_attempts = late 0;
  rounds = late_round;
}

abbrev peer : Text
peer = codes "10.0.0.2:2000"

abbrev some_limits : Limits
some_limits = record { retries = 2; timeout = 3 * 10 ^ 9; max_block_size = 1468 }

abbrev say_bad : OptionError → Text
say_bad e = codes "bad option"

abbrev same_text : Text → Text
same_text s = s

abbrev agreement : Agreement
agreement = record {
  accepted_options = (codes "blksize", codes "8") ∷ (codes "tsize", codes "10") ∷ [];
  block_size = 8;
  wait_time = 3 * 10 ^ 9;
}

completes :
    Reports session peer boot_request
      (serve_request session peer boot_request say_bad some_limits)
      10
unfolding serve_request serve_open serve_agreed serve_blocks send_blocks exchange await is_ack
    negotiate negotiate_blksize negotiate_timeout negotiate_tsize lookup atoi digits itoa itoa_on
    in_range read_word word text_eq next_block
completes = refl

serve_request-delivers_example :
    (a : Agreement) × (negotiate some_limits asked 10 ≡ agreed a)
    × (receive a.block_size 1 []
          (serve_request session peer boot_request say_bad some_limits).packets
        ≡ some file)
    × (10 ≡ length file)
serve_request-delivers_example =
    serve_request-delivers session peer boot_request say_bad some_limits 10 completes

late_before : (block i : ℕ) → i < 1 → Lost block (late block i)
unfolding await
late_before block zero h = (refl, refl, refl)
late_before block (suc i) h = absurd (omega arith)

late_after : (block : ℕ) → block < 65536 → Answered block (late block 1)
unfolding await
late_after block h = (refl, refl, rw (is_ack-ack_packet block h) refl)

late-Served : Served 2 late_round
late-Served k = (
  refl,
  refl,
  1,
  omega arith,
  late_before (suc k % 2 ^ 16),
  late_after (suc k % 2 ^ 16) (omega arith),
)

send_blocks-Served_example : (send_blocks 8 2 late_round 11 0 1 0 file).ending ≡ completed
send_blocks-Served_example =
    send_blocks-Served 8 2 late_round 11 0 1 0 file (omega arith) (omega arith) late-Served
      (omega arith)

send_blocks-ends_example : (send_blocks 8 2 late_round 11 0 1 0 file).ending ≢ out_of_fuel
send_blocks-ends_example = send_blocks-ends 8 2 late_round 11 0 1 0 file (omega arith) (omega arith)

packet_message-error_packet_example :
    (read_word (error_packet 1 (codes "file not found")) ≡ 5)
    × (read_word (drop 2 (error_packet 1 (codes "file not found"))) ≡ 1)
    × (packet_message (error_packet 1 (codes "file not found"))
        ≡ remove_zeros (codes "file not found"))
packet_message-error_packet_example =
    packet_message-error_packet 1 (codes "file not found") (omega arith)

atoi-itoa_example : atoi (itoa 1468) ≡ some (pos 1468)
atoi-itoa_example = atoi-itoa 1468 (omega arith)

agrees : negotiate some_limits asked 10 ≡ agreed agreement
unfolding negotiate negotiate_blksize negotiate_timeout negotiate_tsize lookup atoi digits itoa
    itoa_on in_range text_eq
agrees = refl

negotiate_bounds_example :
    (((lookup (codes "blksize") asked ≡ none) × (agreement.block_size ≡ 512))
      ⊎ ((v : Text) × (lookup (codes "blksize") asked ≡ some v) × (8 ≤ 8) × (8 ≤ 1468)))
    × (((lookup (codes "timeout") asked ≡ none) × (agreement.wait_time ≡ some_limits.timeout))
        ⊎ ((v : Text) × (lookup (codes "timeout") asked ≡ some v)
            × (10 ^ 9 ≤ 3 * 10 ^ 9)
            × (3 * 10 ^ 9 ≤ 255 * 10 ^ 9)))
negotiate_bounds_example = negotiate_bounds some_limits asked 10 agreement (omega arith) agrees

plain_fields : All IsField (codes "images/boot.bin" ∷ codes "octet" ∷ option_fields asked)
unfolding option_fields
plain_fields = ground arith

Fresh-options : Fresh same_text [] asked
unfolding lookup text_eq
Fresh-options = ground arith

plain_name : validate_filename (codes "images/boot.bin") ≡ none
unfolding validate_filename split_on text_eq
plain_name = refl

boot_parsed :
    parse_request same_text (request_packet (codes "images/boot.bin") (codes "octet") asked)
    ≡ parsed boot_request
unfolding text_eq
boot_parsed =
    parse_request-request_packet same_text (codes "images/boot.bin") (codes "octet") asked
      plain_name refl plain_fields Fresh-options

parse_request-request_packet_example :
    parse_request same_text (request_packet (codes "images/boot.bin") (codes "octet") asked)
    ≡ parsed boot_request
unfolding text_eq
parse_request-request_packet_example =
    parse_request-request_packet same_text (codes "images/boot.bin") (codes "octet") asked
      plain_name refl plain_fields Fresh-options

parse_request-Inside_example :
    walk (codes "root" ∷ []) (split_on b'/' (codes "images/boot.bin"))
    ≡ reverse_onto (split_on b'/' (codes "images/boot.bin")) (codes "root" ∷ [])
parse_request-Inside_example =
    parse_request-Inside same_text (request_packet (codes "images/boot.bin") (codes "octet") asked)
      boot_request (codes "root" ∷ []) boot_parsed

late-exchange : (exchange (data_packet 1 file) 1 2 (late 1) 0).problem ≡ none
unfolding exchange await is_ack read_word word
late-exchange = refl

exchange-HasAck_example : (i : ℕ) × (0 ≤ i) × (i < 0 + 2) × HasAck 1 (late 1 i).receptions
exchange-HasAck_example = exchange-HasAck (data_packet 1 file) 1 2 (late 1) 0 late-exchange

abbrev boot_server : Server
boot_server = record {
  config = record {
    listen_address = codes ":69";
    root = codes "/srv";
    allowed_client_ip = codes "10.0.0.2";
    retries = pos 2;
    timeout = pos (3 * 10 ^ 9);
    max_block_size = pos 1468;
    event_buffer = pos 64;
  };
  allowed_client = some (codes "10.0.0.2");
  event_room = pos 64;
  active = [];
}

abbrev say_refused : RequestError → Text
say_refused e = codes "refused"

abbrev boot_packet : Text
boot_packet = request_packet (codes "images/boot.bin") (codes "octet") asked

abbrev busy_server : Server
busy_server = record boot_server { active = transfer_key peer (codes "images/boot.bin") ∷ [] }

begun :
    dispatch same_text say_refused boot_server (codes "10.0.0.2") peer boot_packet
    ≡ (busy_server, begins boot_request)
unfolding dispatch is_allowed begin_transfer contains text_eq
begun = rw boot_parsed refl

dispatch-dispatch_example :
    (is_allowed boot_server (codes "10.0.0.2") ≡ true)
    × (parse_request same_text boot_packet ≡ parsed boot_request)
    × (dispatch same_text say_refused busy_server (codes "10.0.0.2") peer boot_packet
        ≡ (busy_server, ignored))
dispatch-dispatch_example =
    dispatch-dispatch same_text say_refused boot_server busy_server (codes "10.0.0.2") peer
      boot_packet boot_request begun
