-- ===== src/Console/Model.antt =====
-- The data of the serial console manager (internal/serialconsole/manager.go).
-- A subscriber with the chunks in its channel.
use provisioning_station.Base.{Bool, Failure, List, Map, Option, Text, codes, ℕ}
use provisioning_station.Base.Int.{ℤ}
use provisioning_station.Console.Ports.{Discovery, Port}

pub record Client : Type 0 where
  pub id : ℕ
  pub queue : List Text

-- A connection; `tag` stands for its address, which no other connection has, and for its handle.
pub record Connection : Type 0 where
  pub tag : ℕ
  pub port : Port
  pub baud_rate : ℤ
  pub ring : Text
  pub clients : List Client
  -- 0 where there is no controller
  pub controller : ℕ

pub data ConsoleError : Type 0 where
  no_port_id invalid_baud_rate bad_access port_not_found manager_closed manager_stopped :
      ConsoleError
  mode_conflict controller_busy slow_consumer port_ambiguous lease_not_held short_write :
      ConsoleError
  end_of_file : ConsoleError
  console_failure : Failure → ConsoleError

-- A subscriber whose channels are closed, with its error; what its channel holds can still be read.
pub record Ended : Type 0 where
  pub client : Client
  pub reason : Option ConsoleError

pub record Console : Type 0 where
  pub default_baud : ℤ
  pub replay_bytes : ℕ
  pub connections : Map Text Connection
  pub next_id : ℕ
  pub closed : Bool
  pub next_tag : ℕ
  -- the identifier of the port of every connection that was opened, `current.port.ID`
  pub homes : Map ℕ Text
  pub ended : List Ended
  -- the handles that were closed
  pub released : List ℕ

abbrev pub observer : Text
observer = codes "observer"

abbrev pub controller_access : Text
controller_access = codes "controller"

pub record AttachRequest : Type 0 where
  pub port_id : Text
  pub baud_rate : ℤ
  pub access : Text
  pub replay : Bool

-- What the environment answers to `Attach`.
pub record AttachEnv : Type 0 where
  pub canceled : Option Failure
  pub discover_error : Option Failure
  pub discovery : Discovery
  pub open_error : Option Failure

pub record Attachment : Type 0 where
  pub port_id : Text
  pub client_id : ℕ
  pub port : Port
  pub baud_rate : ℤ
  pub access : Text

pub data Attached : Type 0 where
  attached : Attachment → Attached
  not_attached : ConsoleError → Attached
