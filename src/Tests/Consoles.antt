-- ===== src/Tests/Consoles.antt =====
-- A serial console with one board, two clients and a device that takes two bytes at a time.
use provisioning_station.Base.{
  List, Memᴰ, [], arith, codes, concat, contains, false, insert, lookup, none, refl, some, text_eq,
  text_key, true, ℕ, ◌++◌, ◌∷◌, ◌≡◌,
}
use provisioning_station.Base.Int.{pos}
use provisioning_station.Console.Attaching.{
  attach, attach_filled, attach_selected, check_attach, filled, is_controller, join,
  subscribe_client,
}
use provisioning_station.Console.Lease.{attach_selected-holder, holder}
use provisioning_station.Console.Listing.{
  annotate, find_match, list_ports, match_cable_serial, matched,
}
use provisioning_station.Console.Manager.{last_bytes, new_console, read_round}
use provisioning_station.Console.Manager.Reach.{Reaches-Valid, and_step, at_once, attaches, reads}
use provisioning_station.Console.Manager.Valid.{Valid}
use provisioning_station.Console.Matching.{match_cable_serial-discover}
use provisioning_station.Console.Model.{
  AttachEnv, AttachRequest, Attachment, Connection, Console, attached, controller_access,
  controller_busy, not_attached,
}
use provisioning_station.Console.Ports.{
  Candidate, Formats, Port, add_candidate, automatic_candidate, automatically_matchable,
  count_serial, discover, insert_port, new_manual_port, new_port, normalize_candidates,
  normalize_loop, port_before, port_from_identity, sort_ports, valid_baud_rate,
}
use provisioning_station.Console.Rejected.{attach-rejected}
use provisioning_station.Console.Stream.{queue_of, read_all, read_all-subscribe_client}
use provisioning_station.Console.Write.{Written, takes, write}
use provisioning_station.Console.Write.Laws.{TakesSome, write_lem}

abbrev console_formats : Formats
console_formats = record { digest = λ t. t; quote = λ t. t }

abbrev cable : Candidate
cable = record {
  name = codes "ttyUSB1";
  vendor_id = codes "0403";
  product_id = codes "6010";
  usb_serial = codes "A1";
  channel = codes "B";
}

abbrev other_cable : Candidate
other_cable = record cable { name = codes "ttyUSB3"; usb_serial = codes "A2" }

abbrev cables : List Candidate
cables = other_cable ∷ cable ∷ []

abbrev cable_port : Port
cable_port = new_port console_formats cable

abbrev attach_env : AttachEnv
attach_env = record {
  canceled = none;
  discover_error = none;
  discovery = discover console_formats cables;
  open_error = none;
}

abbrev lead_request : AttachRequest
lead_request = record {
  port_id = cable_port.id;
  baud_rate = pos 0;
  access = controller_access;
  replay = true;
}

abbrev first_console : Console
first_console = (new_console (pos 0) (pos 4)).1

abbrev lead_console : Console
lead_console = (attach first_console attach_env lead_request).0

abbrev filled_request : AttachRequest
filled_request = filled first_console lead_request

abbrev led_port : Port
led_port = record cable_port { busy = true; has_controller = true; active_baud_rate = pos 115200 }

abbrev lead_attachment : Attachment
lead_attachment = record {
  port_id = cable_port.id;
  client_id = 1;
  port = led_port;
  baud_rate = pos 115200;
  access = controller_access;
}

lead_selected :
    attach_selected first_console attach_env filled_request cable_port
    ≡ (lead_console, attached lead_attachment)
unfolding attach attach_filled attach_selected check_attach join subscribe_client discover
    normalize_candidates normalize_loop add_candidate count_serial sort_ports insert_port
    port_before new_port new_manual_port port_from_identity automatic_candidate lookup insert
    new_console valid_baud_rate text_eq contains
lead_selected = refl

lead_busy :
    attach lead_console attach_env lead_request ≡ (lead_console, not_attached controller_busy)
unfolding attach attach_filled attach_selected check_attach join subscribe_client discover
    normalize_candidates normalize_loop add_candidate count_serial sort_ports insert_port
    port_before new_port new_manual_port port_from_identity automatic_candidate lookup insert
    new_console valid_baud_rate text_eq contains
lead_busy = refl

Reaches-Valid_example :
    Valid (read_round (attach first_console attach_env lead_request).0 0 (codes "login") none)
Reaches-Valid_example =
    Reaches-Valid (pos 0) (pos 4) (
      and_step (and_step at_once (attaches attach_env lead_request)) (reads 0 (codes "login") none))

attach_selected-holder_example :
    (is_controller filled_request ≡ true
      → (holder first_console cable_port.id ≡ 0) × (holder lead_console cable_port.id ≡ 1))
    × (is_controller filled_request ≡ false
        → holder lead_console cable_port.id ≡ holder first_console cable_port.id)
attach_selected-holder_example =
    attach_selected-holder first_console lead_console attach_env filled_request cable_port
      lead_attachment lead_selected

attach-rejected_example : lead_console ≡ lead_console
attach-rejected_example =
    attach-rejected lead_console lead_console attach_env lead_request controller_busy lead_busy

cable_matched :
    match_cable_serial lead_console (discover console_formats cables) (codes "A1")
    ≡ matched led_port
unfolding attach attach_filled attach_selected check_attach join subscribe_client discover
    normalize_candidates normalize_loop add_candidate count_serial sort_ports insert_port
    port_before new_port new_manual_port port_from_identity automatic_candidate lookup insert
    new_console valid_baud_rate text_eq contains match_cable_serial list_ports annotate find_match
    automatically_matchable
cable_matched = refl

match_cable_serial-discover_example :
    (c : Candidate) × Memᴰ c cables
    × (led_port ≡ annotate lead_console (new_port console_formats c))
    × (c.usb_serial ≡ codes "A1")
    × (count_serial (codes "A1") cables ≡ 1)
match_cable_serial-discover_example =
    match_cable_serial-discover lead_console console_formats cables (codes "A1") led_port
      cable_matched

abbrev pair_device : ℕ → Written
pair_device k = takes (pos 2)

write_lem_example :
    ((write pair_device lead_console cable_port.id 1 (codes "boot")).problem ≡ none
      → ((write pair_device lead_console cable_port.id 1 (codes "boot")).bytes ≡ codes "boot")
        × (c : Connection) × (lookup cable_port.id lead_console.connections ≡ some c)
        × (c.controller ≡ 1))
    × ((c : Connection)
        → lookup cable_port.id lead_console.connections ≡ some c
        → c.controller ≡ 1
        → TakesSome pair_device
        → (write pair_device lead_console cable_port.id 1 (codes "boot")).problem ≡ none)
write_lem_example = write_lem pair_device lead_console cable_port.id 1 (codes "boot")

abbrev plain_connection : Connection
plain_connection = record {
  tag = 0;
  port = cable_port;
  baud_rate = pos 115200;
  ring = codes "ogin";
  clients = [];
  controller = 0;
}

ogin_ring : plain_connection.ring ≡ last_bytes 4 (codes "login")
unfolding last_bytes
ogin_ring = refl

read_all-subscribe_client_example :
    (concat (
        queue_of 7
          (read_all 4
            (codes ": " ∷ [])
            (subscribe_client 7 filled_request plain_connection)).clients)
      ≡ last_bytes 4 (codes "login") ++ concat (codes ": " ∷ []))
    × ((read_all 4 (codes ": " ∷ []) (subscribe_client 7 filled_request plain_connection)).ring
        ≡ last_bytes 4 (codes "login" ++ concat (codes ": " ∷ [])))
read_all-subscribe_client_example =
    read_all-subscribe_client 4 7 filled_request plain_connection (codes "login") (codes ": " ∷ [])
      (omega arith) ogin_ring refl (omega arith)
