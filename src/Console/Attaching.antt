-- ===== src/Console/Attaching.antt =====
-- `Attach` of internal/serialconsole/manager.go.
use provisioning_station.Base.{
  Bool, List, Option, Text, [], erase, fail_if, false, if◌then◌else◌, insert, is_empty, lookup,
  nat_eq, none, not, some, suc, text_eq, text_key, true, ℕ, ◌&&◌, ◌+◌, ◌==◌, ◌>>◌, ◌∷◌,
}
use provisioning_station.Base.Int.{is_zero, negsuc, pos, ℤ}
use provisioning_station.Console.Model.{
  AttachEnv, AttachRequest, Attached, Connection, Console, ConsoleError, attached, bad_access,
  console_failure, controller_access, controller_busy, invalid_baud_rate, manager_closed,
  mode_conflict, no_port_id, not_attached, observer, port_not_found,
}
use provisioning_station.Console.Ports.{Port, valid_baud_rate}
use mathlib.Core.Option

abbrev pub or_default : ℤ → ℤ → ℤ
or_default fallback v = if is_zero v then fallback else v

-- The defaults that `Attach` fills in.
abbrev pub filled : Console → AttachRequest → AttachRequest
filled m r = record r {
  baud_rate = or_default m.default_baud r.baud_rate;
  access = if is_empty r.access then observer else r.access;
}

unfoldable pub check_attach : AttachEnv → AttachRequest → Option ConsoleError
check_attach e r =
    fail_if (is_empty r.port_id) no_port_id
    >> fail_if (not (valid_baud_rate r.baud_rate)) invalid_baud_rate
    >> fail_if (not (text_eq r.access observer) && not (text_eq r.access controller_access))
        bad_access
    >> Option.map console_failure e.canceled
    >> Option.map console_failure e.discover_error

abbrev pub find_port : Text → List Port → Option Port
find_port id [] = none
find_port id (p ∷ ps) = if text_eq p.id id then some p else find_port id ps

abbrev pub is_controller : AttachRequest → Bool
is_controller r = text_eq r.access controller_access

abbrev pub same_int : ℤ → ℤ → Bool
same_int (pos a) (pos b) = a == b
same_int (negsuc a) (negsuc b) = a == b
same_int _ _ = false

abbrev pub mark_busy : Connection → Port → Port
mark_busy c p = record p {
  busy = true;
  has_controller = not (c.controller == 0);
  active_baud_rate = c.baud_rate;
}

abbrev pub put_connection : Console → Text → Connection → Console
put_connection m k c = record m { connections = insert k c m.connections }

-- A new subscriber of a connection, who may get the ring at once.
unfoldable pub subscribe_client : ℕ → AttachRequest → Connection → Connection
subscribe_client id r c = record c {
  clients =
      record { id = id; queue = if r.replay && not (is_empty c.ring) then c.ring ∷ [] else [] }
      ∷ c.clients;
  controller = if is_controller r then id else c.controller;
}

-- The end of `Attach` on a connection, which has just been opened where `created`.
unfoldable pub join :
    Console → (created : Bool) → AttachRequest → Port → Connection → Console × Attached
join m created r p c =
    if is_controller r && not (c.controller == 0)
    then (
      if created
          then record m { connections = erase p.id m.connections; released = c.tag ∷ m.released }
          else m,
      not_attached controller_busy,
    )
    else let id = m.next_id + 1 in
      let c₁ = subscribe_client id r c in
      (
        record m { next_id = id; connections = insert p.id c₁ m.connections },
        attached (record {
          port_id = p.id;
          client_id = id;
          port = mark_busy c₁ p;
          baud_rate = r.baud_rate;
          access = r.access;
        }),
      )

abbrev pub new_connection : Console → AttachRequest → Port → Connection
new_connection m r p = record {
  tag = m.next_tag;
  port = p;
  baud_rate = r.baud_rate;
  ring = [];
  clients = [];
  controller = 0;
}

-- `Attach` under the lock.
unfoldable pub attach_selected : Console → AttachEnv → AttachRequest → Port → Console × Attached
attach_selected m e r p =
    if m.closed then (m, not_attached manager_closed) else elim (lookup p.id m.connections) [
      | none ↦ elim e.open_error [
        | some f ↦ (m, not_attached (console_failure f))
        | none ↦
            let c = new_connection m r p in
            let m₁ = record (put_connection m p.id c) {
              next_tag = suc m.next_tag;
              homes = insert m.next_tag p.id m.homes;
            } in
            join m₁ true r p c
      ]
      | some c ↦
          if not (same_int c.baud_rate r.baud_rate)
          then (m, not_attached mode_conflict)
          else join m false r p c
    ]

unfoldable pub attach_filled : Console → AttachEnv → AttachRequest → Console × Attached
attach_filled m e r = elim (check_attach e r) [
  | some bad ↦ (m, not_attached bad)
  | none ↦ elim (find_port r.port_id e.discovery.ports) [
    | none ↦ (m, not_attached port_not_found)
    | some p ↦ attach_selected m e r p
  ]
]

-- `Attach`.
unfoldable pub attach : Console → AttachEnv → AttachRequest → Console × Attached
attach m e r = attach_filled m e (filled m r)
