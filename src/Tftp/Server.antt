-- ===== src/Tftp/Server.antt =====
-- The server (internal/tftp/server.go, `Listen`, the loop of `Serve`, `serveRequest`).
pub mod Delivery
pub mod Dispatch
use provisioning_station.Base.{
  Bool, Failure, List, Option, Text, [], codes, contains, fail_if, if◌then◌else◌, is_empty, is_some,
  length, none, not, some, suc, text_eq, true, ℕ, ◌++◌, ◌>>◌, ◌||◌, ◌∷◌,
}
use provisioning_station.Base.Int.{negsuc, pos, ℤ, ◌<ℤ◌}
use provisioning_station.Tftp.Exchange.{Attempt, TransferError, exchange}
use provisioning_station.Tftp.Options.{Agreement, Limits, OptionError, agreed, disagreed, negotiate}
use provisioning_station.Tftp.Packets.{error_packet, option_ack_packet}
use provisioning_station.Tftp.Request.{ReadRequest, RequestError, parse_request, parsed, rejected}
use provisioning_station.Tftp.Transfer.{Round, completed, failed_with, out_of_fuel, send_blocks}
use mathlib.Core.Option

pub record Config : Type 0 where
  pub listen_address : Text
  pub root : Text
  pub allowed_client_ip : Text
  pub retries : ℤ
  pub timeout : ℤ
  pub max_block_size : ℤ
  pub event_buffer : ℤ

pub record Server : Type 0 where
  pub config : Config
  pub allowed_client : Option Text
  pub event_room : ℤ
  -- the keys of the transfers that are running
  pub active : List Text

pub data ListenError : Type 0 where
  no_address bad_retries bad_wait bad_block_size no_directory : ListenError
  no_ip : Text → ListenError
  system : Failure → ListenError

-- What the operating system answers to `Listen`; `ip4` is `net.ParseIP` and `To4`.
pub record Surroundings : Type 0 where
  pub abs_error : Option Failure
  pub is_directory : Bool
  pub ip4 : Text → Option Text
  pub resolve_error : Option Failure
  pub listen_error : Option Failure

pub data Listened : Type 0 where
  listening : Server → Listened
  not_listening : ListenError → Listened

unfoldable pub check_config : Config → Option ListenError
check_config c =
    fail_if (is_empty c.listen_address) no_address
    >> fail_if (c.retries <ℤ pos 1) bad_retries
    >> fail_if (not (pos 0 <ℤ c.timeout)) bad_wait
    >> fail_if (c.max_block_size <ℤ pos 8 || pos 65464 <ℤ c.max_block_size) bad_block_size

-- The address of the only client that is served, where the configuration names one.
unfoldable pub check_client : Surroundings → Config → Option ListenError
check_client s c =
    if is_empty c.allowed_client_ip
    then none
    else fail_if (not (is_some (s.ip4 c.allowed_client_ip))) (no_ip c.allowed_client_ip)

unfoldable pub check_system : Surroundings → Config → Option ListenError
check_system s c =
    Option.map system s.abs_error
    >> fail_if (not s.is_directory) no_directory
    >> check_client s c
    >> Option.map system s.resolve_error
    >> Option.map system s.listen_error

unfoldable pub listen : Surroundings → Config → Listened
listen s c = elim (check_config c >> check_system s c) [
  | some e ↦ not_listening e
  | none ↦ listening (record {
    config = c;
    allowed_client = if is_empty c.allowed_client_ip then none else s.ip4 c.allowed_client_ip;
    event_room = if c.event_buffer <ℤ pos 1 then pos 64 else c.event_buffer;
    active = [];
  })
]

abbrev pub to_ℕ : ℤ → ℕ
to_ℕ (pos n) = n
to_ℕ (negsuc n) = 0

-- The numbers of a configuration that `Listen` has accepted.
abbrev pub limits : Config → Limits
limits c = record {
  retries = to_ℕ c.retries;
  timeout = to_ℕ c.timeout;
  max_block_size = to_ℕ c.max_block_size;
}

-- What becomes of one packet at the port of the server.
pub data Dispatched : Type 0 where
  answered : Text → Dispatched
  ignored : Dispatched
  begins : ReadRequest → Dispatched

abbrev pub transfer_key : (remote filename : Text) → Text
transfer_key remote filename = remote ++ 0 ∷ filename

unfoldable pub begin_transfer : Server → (remote : Text) → ReadRequest → Server × Dispatched
begin_transfer s remote r =
    let key = transfer_key remote r.filename in
    if contains s.active key then (s, ignored) else (record s { active = key ∷ s.active }, begins r)

unfoldable pub is_allowed : Server → Text → Bool
is_allowed s ip = elim s.allowed_client [ none ↦ true | some client ↦ text_eq ip client ]

-- The body of the loop of `Serve`; `say` is `Error()`.
unfoldable pub dispatch :
    (Text → Text) → (RequestError → Text) → Server → (ip remote packet : Text) → Server × Dispatched
dispatch unicode say s ip remote packet =
    if not (is_allowed s ip)
    then (s, answered (error_packet 2 (codes "TFTP client IP is not allowed")))
    else elim (parse_request unicode packet) [
      | rejected e ↦ (s, answered (error_packet 4 (say e)))
      | parsed r ↦ begin_transfer s remote r
    ]

-- The deferred end of a transfer.
abbrev pub without : List Text → Text → List Text
without [] key = []
without (k ∷ ks) key = if text_eq k key then without ks key else k ∷ without ks key

abbrev pub end_transfer : Server → (remote filename : Text) → Server
end_transfer s remote filename = record s {
  active = without s.active (transfer_key remote filename);
}

-- The environment of one request: the file, the socket, and the packets of the client.
pub record Session : Type 0 where
  pub started_at : ℕ
  pub ended_at : ℕ
  pub lstat_error : Option Failure
  pub is_regular : Bool
  pub open_error : Option Failure
  pub socket_error : Option Failure
  pub size : ℕ
  pub content : Text
  pub option_attempts : ℕ → Attempt
  pub rounds : ℕ → Round

pub data ServeError : Type 0 where
  file_not_found cannot_open no_socket : Failure → ServeError
  not_regular : ServeError
  option_error : OptionError → ServeError
  transfer_error : TransferError → ServeError
  -- never reported: the fuel is enough (Transfer.Ending)
  unfinished : ServeError

pub record TransferEvent : Type 0 where
  pub time : ℕ
  pub filename : Text
  pub remote : Text
  pub bytes : ℕ
  pub status : Text
  pub problem : Option ServeError

-- What is sent for one request, and what is reported of it.
pub record Service : Type 0 where
  pub packets : List Text
  pub events : List TransferEvent

unfoldable pub report :
    (time : ℕ) (filename remote : Text) (bytes : ℕ) → Option ServeError → Text → TransferEvent
report time filename remote bytes problem status = record {
  time = time;
  filename = filename;
  remote = remote;
  bytes = bytes;
  status = status;
  problem = problem;
}

module _ (s : Session) (remote : Text) (r : ReadRequest) where
  abbrev pub started_event : TransferEvent
  started_event = report s.started_at r.filename remote 0 none (codes "started")

  -- `emitFailure` after `sent`.
  abbrev pub failure : List Text → ℕ → ServeError → Service
  failure sent bytes e = record {
    packets = sent;
    events =
        started_event ∷ report s.ended_at r.filename remote bytes (some e) (codes "failed") ∷ [];
  }

  -- `transferFailure`: the client is told where a socket can be opened.
  unfoldable pub transfer_failure : ℕ → Text → ServeError → Service
  transfer_failure code message e =
      failure (elim s.socket_error [ none ↦ error_packet code message ∷ [] | some f ↦ [] ]) 0 e

  -- The loop over the blocks, after `sent`.
  unfoldable pub serve_blocks : Limits → Agreement → List Text → Service
  serve_blocks l a sent =
      let t =
        send_blocks a.block_size l.retries s.rounds (suc (length s.content)) 0 1 0 s.content in
      elim t.ending [
        | completed ↦ record {
          packets = sent ++ t.packets;
          events =
              started_event
              ∷ report s.ended_at r.filename remote t.transferred none (codes "completed")
              ∷ [];
        }
        | failed_with e ↦ failure (sent ++ t.packets) t.transferred (transfer_error e)
        | out_of_fuel ↦ failure (sent ++ t.packets) t.transferred unfinished
      ]

  -- The acknowledgement of the options, if there are any.
  unfoldable pub serve_agreed : Limits → Agreement → Service
  serve_agreed l a = elim a.accepted_options [
    | [] ↦ serve_blocks l a []
    | _ ∷ _ ↦
        let x = exchange (option_ack_packet a.accepted_options) 0 l.retries s.option_attempts 0 in
        elim x.problem [
          | some e ↦ failure x.sent 0 (transfer_error e)
          | none ↦ serve_blocks l a x.sent
        ]
  ]

  unfoldable pub serve_open : (OptionError → Text) → Limits → Service
  serve_open say l = elim (negotiate l r.options s.size) [
    | disagreed e ↦ failure (error_packet 8 (say e) ∷ []) 0 (option_error e)
    | agreed a ↦ serve_agreed l a
  ]

  -- `serveRequest`.
  unfoldable pub serve_request : (OptionError → Text) → Limits → Service
  serve_request say l = elim s.lstat_error [
    | some f ↦ transfer_failure 1 (codes "file not found") (file_not_found f)
    | none ↦
        if not s.is_regular
        then transfer_failure 2 (codes "requested path is not a regular file") not_regular
        else elim s.open_error [
          | some f ↦ transfer_failure 2 (codes "cannot open requested file") (cannot_open f)
          | none ↦ elim s.socket_error [
            | some f ↦ failure [] 0 (no_socket f)
            | none ↦ serve_open say l
          ]
        ]
  ]
