-- ===== src/Console/Manager.antt =====
-- The manager of serial consoles (internal/serialconsole/manager.go): one function for each part that
-- holds its lock.
pub mod Valid
pub mod Updated
pub mod Clients
pub mod Steps
pub mod Attach
pub mod Reach
use provisioning_station.Base.{
  Bool, Failure, List, Map, Option, Text, [], drop, erase, fail_if, false, if◌then◌else◌, is_empty,
  length, lookup, ltb, nat_eq, none, not, some, text_key, true, ℕ, ◌*◌, ◌++◌, ◌-◌, ◌==◌, ◌>>◌, ◌^◌,
  ◌||◌, ◌∷◌,
}
use provisioning_station.Base.Int.{negsuc, pos, ℤ, ◌<ℤ◌}
use provisioning_station.Console.Attaching.{or_default, put_connection}
use provisioning_station.Console.Model.{
  Client, Connection, Console, ConsoleError, Ended, console_failure, end_of_file, manager_stopped,
  slow_consumer,
}
use provisioning_station.Console.Ports.{valid_baud_rate}

abbrev pub has_client : ℕ → List Client → Bool
has_client id [] = false
has_client id (c ∷ cs) = c.id == id || has_client id cs

abbrev pub without_client : ℕ → List Client → List Client
without_client id [] = []
without_client id (c ∷ cs) = if c.id == id then without_client id cs else c ∷ without_client id cs

abbrev pub ended_client : ℕ → Option ConsoleError → List Client → List Ended
ended_client id reason [] = []
ended_client id reason (c ∷ cs) =
    if c.id == id
    then record { client = c; reason = reason } ∷ ended_client id reason cs
    else ended_client id reason cs

-- `closeSubscriberLocked` on the connection; one that is not among the clients is left alone.
unfoldable pub close_client : ℕ → Connection → Connection
close_client id c =
    if has_client id c.clients
    then record c {
      clients = without_client id c.clients;
      controller = if c.controller == id then 0 else c.controller;
    }
    else c

abbrev pub channel_room : ℕ
channel_room = 128

-- One chunk to every client: those with room, and those that are closed as too slow.
unfoldable pub offer : Text → List Client → List Client × List Ended
offer chunk [] = ([], [])
offer chunk (c ∷ cs) =
    let (kept, slow) = offer chunk cs in
    if ltb (length c.queue) channel_room
    then (record c { queue = c.queue ++ chunk ∷ [] } ∷ kept, slow)
    else (kept, record { client = c; reason = some slow_consumer } ∷ slow)

abbrev pub has_ended : ℕ → List Ended → Bool
has_ended id [] = false
has_ended id (e ∷ es) = e.client.id == id || has_ended id es

unfoldable pub last_bytes : ℕ → Text → Text
last_bytes n s = drop (length s - n) s

unfoldable pub add_to_ring : ℕ → Text → Text → Text
add_to_ring limit ring chunk = if limit == 0 then ring else last_bytes limit (ring ++ chunk)

abbrev pub no_clients : List Client → Bool
no_clients [] = true
no_clients (_ ∷ _) = false

-- The connection after a chunk, and the clients that were too slow.
unfoldable pub take_chunk : ℕ → Text → Connection → Connection × List Ended
take_chunk limit chunk c =
    let (kept, slow) = offer chunk c.clients in
    (
      record c {
        ring = add_to_ring limit c.ring chunk;
        clients = kept;
        controller = if has_ended c.controller slow then 0 else c.controller;
      },
      slow,
    )

-- A connection without clients leaves the map, and its handle is closed.
unfoldable pub keep_or_drop : Console → Text → Connection → Console
keep_or_drop m k c =
    if no_clients c.clients
    then record m { connections = erase k m.connections; released = c.tag ∷ m.released }
    else put_connection m k c

-- `broadcast` on a connection that may have left the map.
unfoldable pub broadcast : Console → Text → (tag : ℕ) → Text → Console
broadcast m k tag chunk = elim (lookup k m.connections) [
  | none ↦ m
  | some c ↦
      let (c₁, slow) = take_chunk m.replay_bytes chunk c in
      if c.tag == tag then keep_or_drop (record m { ended = slow ++ m.ended }) k c₁ else m
]

abbrev pub end_all : Option ConsoleError → List Client → List Ended
end_all reason [] = []
end_all reason (c ∷ cs) = record { client = c; reason = reason } ∷ end_all reason cs

abbrev pub release : ℕ → Console → Console
release tag m = record m { released = tag ∷ m.released }

-- `endConnection`; the handle is closed in any case.
unfoldable pub end_connection : Console → Text → (tag : ℕ) → ConsoleError → Console
end_connection m k tag reason = release tag (elim (lookup k m.connections) [
  | none ↦ m
  | some c ↦
      if c.tag == tag
      then record m {
        connections = erase k m.connections;
        ended = end_all (some reason) c.clients ++ m.ended;
      }
      else m
])

-- One round of `readLoop` of a connection: what was read is broadcast, and an error or an empty read
-- ends the connection.
unfoldable pub heard : Console → Text → (tag : ℕ) → Text → Console
heard m k tag chunk = if is_empty chunk then m else broadcast m k tag chunk

unfoldable pub read_at : Console → Text → (tag : ℕ) → Text → Option Failure → Console
read_at m k tag chunk (some f) = end_connection (heard m k tag chunk) k tag (console_failure f)
read_at m k tag chunk none =
    if is_empty chunk
    then end_connection (heard m k tag chunk) k tag end_of_file
    else heard m k tag chunk

unfoldable pub read_round : Console → (tag : ℕ) → Text → Option Failure → Console
read_round m tag chunk problem = elim (lookup tag m.homes) [
  | none ↦ m
  | some k ↦ read_at m k tag chunk problem
]

-- `detach`.
unfoldable pub detach : Console → Text → ℕ → Console
detach m k id = elim (lookup k m.connections) [
  | none ↦ m
  | some c ↦
      keep_or_drop (record m { ended = ended_client id none c.clients ++ m.ended }) k
        (close_client id c)
]

-- The client takes the oldest chunk out of its channel (`Data`).
abbrev pub without_oldest : List Text → List Text
without_oldest [] = []
without_oldest (chunk ∷ rest) = rest

unfoldable pub take_oldest : ℕ → List Client → List Client
take_oldest id [] = []
take_oldest id (c ∷ cs) =
    (if c.id == id then record c { queue = without_oldest c.queue } else c) ∷ take_oldest id cs

unfoldable pub consume_chunk : Console → Text → ℕ → Console
consume_chunk m k id = elim (lookup k m.connections) [
  | none ↦ m
  | some c ↦ put_connection m k (record c { clients = take_oldest id c.clients })
]

abbrev pub all_tags : Map Text Connection → List ℕ
all_tags [] = []
all_tags ((k, c) ∷ rest) = c.tag ∷ all_tags rest

abbrev pub end_everything : Map Text Connection → List Ended
end_everything [] = []
end_everything ((k, c) ∷ rest) = end_all (some manager_stopped) c.clients ++ end_everything rest

-- `Close`.
unfoldable pub close_manager : Console → Console
close_manager m = if m.closed then m else record m {
  closed = true;
  connections = [];
  ended = end_everything m.connections ++ m.ended;
  released = all_tags m.connections ++ m.released;
}

pub data NewError : Type 0 where
  bad_default_baud bad_replay_size : NewError

-- `New`: the defaults, and the checks on them.
unfoldable pub new_console : (default_baud replay : ℤ) → Option NewError × Console
new_console default_baud replay =
    let baud = or_default (pos 115200) default_baud in
    let size = or_default (pos (256 * 2 ^ 10)) replay in
    (
      fail_if (not (valid_baud_rate baud)) bad_default_baud
          >> fail_if (size <ℤ pos 0 || pos (16 * 2 ^ 20) <ℤ size) bad_replay_size,
      record {
        default_baud = baud;
        replay_bytes = elim size [ pos n ↦ n | negsuc n ↦ 0 ];
        connections = [];
        next_id = 0;
        closed = false;
        next_tag = 0;
        homes = [];
        ended = [];
        released = [];
      },
    )
