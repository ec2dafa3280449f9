-- ===== src/Console/Matching.antt =====
-- Matching a port by the serial number of its cable.
use provisioning_station.Base.{
  &&-eq_true, All, Bool-cases, List, Memᴰ, Text, [], ap, arith, false, inl, inr, map, refl, sym,
  text_eq, text_eq_iff, true, ◌&&◌, ◌∙◌, ◌∷◌, ◌≡◌,
}
use provisioning_station.Console.Listing.{
  annotate, find_match, is_ambiguous, list_ports, match_cable_serial, matched,
}
use provisioning_station.Console.Model.{Console}
use provisioning_station.Console.Ports.{
  Candidate, Formats, Port, PortWarning, automatically_matchable, count_serial, discover,
  new_manual_port, new_port, port_from_identity,
}
use provisioning_station.Console.Ports.Unique.{Comes, discover-Comes, has_duplicate}

ambiguous-has_duplicate :
    (serial : Text) (ws : List PortWarning) → is_ambiguous serial ws ≡ has_duplicate serial ws
unfolding has_duplicate
ambiguous-has_duplicate serial [] = refl
ambiguous-has_duplicate serial (w ∷ ws) = ground (arith, ambiguous-has_duplicate serial ws)

-- A port that is marked as open is otherwise the same.
annotate_same :
    (m : Console) (p : Port)
    → (automatically_matchable (annotate m p) ≡ automatically_matchable p)
      × ((annotate m p).usb_serial ≡ p.usb_serial)
unfolding annotate automatically_matchable
annotate_same m p = ground arith

-- The identity of a port is that of its candidate.
port_serial :
    (f : Formats) (c : Candidate)
    → ((new_port f c).usb_serial ≡ c.usb_serial) × ((new_manual_port f c).usb_serial ≡ c.usb_serial)
unfolding new_port new_manual_port port_from_identity
port_serial f c = (refl, refl)

matched_eq : (p q : Port) → matched p ≡ matched q → p ≡ q
matched_eq p q h = cc

hit :
    (m : Console) (f : Formats) (found : List Candidate) (ws : List PortWarning) (serial : Text)
    (q p : Port)
    → Comes f found ws q
    → has_duplicate serial ws ≡ false
    → (automatically_matchable (annotate m q) && text_eq (annotate m q).usb_serial serial) ≡ true
    → matched (annotate m q) ≡ matched p
    → (c : Candidate) × Memᴰ c found
      × (p ≡ annotate m (new_port f c))
      × (c.usb_serial ≡ serial)
      × (count_serial serial found ≡ 1)
hit m f found ws serial q p (c, mem, inl (e, n)) d ok h =
    let (matchable, named) = &&-eq_true _ _ ok in
    let serial_eq : c.usb_serial ≡ serial =
      sym (port_serial f c).0
      ∙ ap (λ x. x.usb_serial) (sym e)
      ∙ sym (annotate_same m q).1
      ∙ (text_eq_iff (annotate m q).usb_serial serial).0 named in
    let one : annotate m q ≡ p = matched_eq (annotate m q) p h in
    (
      c,
      mem,
      sym one ∙ ap (annotate m) e,
      serial_eq,
      ap (λ s. count_serial s found) (sym serial_eq) ∙ n,
    )
hit m f found ws serial q p (c, mem, inr (e, warned)) d ok h =
    let (matchable, named) = &&-eq_true _ _ ok in
    let serial_eq : c.usb_serial ≡ serial =
      sym (port_serial f c).1
      ∙ ap (λ x. x.usb_serial) (sym e)
      ∙ sym (annotate_same m q).1
      ∙ (text_eq_iff (annotate m q).usb_serial serial).0 named in
    let duplicate : has_duplicate c.usb_serial ws ≡ true =
      warned (sym (annotate_same m q).0 ∙ matchable) in
    absurd (cc (sym (ap (λ s. has_duplicate s ws) serial_eq) ∙ duplicate, d))

find_match-found :
    (m : Console) (f : Formats) (found : List Candidate) (ws : List PortWarning) (serial : Text)
    (ps : List Port) (p : Port)
    → All (Comes f found ws) ps
    → has_duplicate serial ws ≡ false
    → find_match serial (map (annotate m) ps) ≡ matched p
    → (c : Candidate) × Memᴰ c found
      × (p ≡ annotate m (new_port f c))
      × (c.usb_serial ≡ serial)
      × (count_serial serial found ≡ 1)
unfolding find_match
find_match-found m f found ws serial [] p hs d h = absurd (cc h)
find_match-found m f found ws serial (q ∷ ps) p hs d h =
    elim (Bool-cases
      (automatically_matchable (annotate m q) && text_eq (annotate m q).usb_serial serial)) [
        | inr e ↦ find_match-found m f found ws serial ps p hs.1 d (rw e at h)
        | inl e ↦ hit m f found ws serial q p hs.0 d e (rw e at h)
      ]

-- A port that is matched to the serial of a JTAG cable is one of those discovered, marked with
-- what is open, carries that serial, and is the only FT2232H UART channel among the candidates
-- with it.
pub match_cable_serial-discover :
    (m : Console) (f : Formats) (found : List Candidate) (serial : Text) (p : Port)
    → match_cable_serial m (discover f found) serial ≡ matched p
    → (c : Candidate) × Memᴰ c found
      × (p ≡ annotate m (new_port f c))
      × (c.usb_serial ≡ serial)
      × (count_serial serial found ≡ 1)
unfolding match_cable_serial list_ports
match_cable_serial-discover m f found serial p h =
    let d = discover f found in
    elim (Bool-cases (is_ambiguous serial d.warnings)) [
      | inl e ↦ absurd (cc (rw e at h))
      | inr e ↦
          find_match-found m f found d.warnings serial d.ports p (discover-Comes f found)
            (sym (ambiguous-has_duplicate serial d.warnings) ∙ e) (rw e at h)
    ]
