-- ===== src/Console/Listing.antt =====
-- `List` and `MatchCableSerial` of internal/serialconsole/manager.go.
-- `List`: what is open is marked.
use provisioning_station.Base.{
  Bool, List, Text, [], codes, false, if◌then◌else◌, lookup, map, none, some, text_eq, text_key,
  ◌&&◌, ◌||◌, ◌∷◌,
}
use provisioning_station.Console.Attaching.{mark_busy}
use provisioning_station.Console.Model.{Console}
use provisioning_station.Console.Ports.{Discovery, Port, PortWarning, automatically_matchable}

unfoldable pub annotate : Console → Port → Port
annotate m p = elim (lookup p.id m.connections) [ none ↦ p | some c ↦ mark_busy c p ]

unfoldable pub list_ports : Console → Discovery → Discovery
list_ports m d = record d { ports = map (annotate m) d.ports }

pub data Match : Type 0 where
  matched : Port → Match
  ambiguous no_match : Match

unfoldable pub find_match : Text → List Port → Match
find_match serial [] = no_match
find_match serial (p ∷ ps) =
    let rest = find_match serial ps in
    if automatically_matchable p && text_eq p.usb_serial serial then matched p else rest

abbrev pub is_ambiguous : Text → List PortWarning → Bool
is_ambiguous serial [] = false
is_ambiguous serial (w ∷ ws) =
    (text_eq w.code (codes "serial_duplicate") && text_eq w.usb_serial serial)
    || is_ambiguous serial ws

-- `MatchCableSerial` on what discovery found.
unfoldable pub match_cable_serial : Console → Discovery → Text → Match
match_cable_serial m d serial =
    let l = list_ports m d in
    if is_ambiguous serial l.warnings then ambiguous else find_match serial l.ports
