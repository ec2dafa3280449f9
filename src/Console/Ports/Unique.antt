-- ===== src/Console/Ports/Unique.antt =====
-- Which ports can be matched by the serial number of their cable.
use provisioning_station.Base.{
  All, Bool, Bool-cases, List, Memᴰ, Text, [], arith, codes, contains, false, inl, inr, is_empty,
  refl, text_eq, text_eq_refl, true, ◌&&◌, ◌==◌, ◌||◌, ◌∷◌, ◌≡◌, ◌⊎◌,
}
use provisioning_station.Console.Ports.{
  Candidate, Discovery, Formats, Port, PortWarning, add_candidate, automatic_candidate,
  automatically_matchable, count_serial, discover, duplicate_warning, insert_port, missing_warning,
  new_manual_port, new_port, normalize_candidates, normalize_loop, port_before, port_from_identity,
  sort_ports,
}

unfoldable pub has_duplicate : Text → List PortWarning → Bool
has_duplicate serial [] = false
has_duplicate serial (w ∷ ws) =
    (text_eq w.code (codes "serial_duplicate") && text_eq w.usb_serial serial)
    || has_duplicate serial ws

-- A port comes from a candidate: a matchable one whose serial number is there once, or one that
-- is selected by hand and has a warning where it looks matchable.
abbrev pub Comes : Formats → List Candidate → List PortWarning → Port → Type 0
Comes f found ws p =
    (c : Candidate) × Memᴰ c found
    × (((p ≡ new_port f c) × (count_serial c.usb_serial found ≡ 1))
        ⊎ ((p ≡ new_manual_port f c)
            × (automatically_matchable p ≡ true → has_duplicate c.usb_serial ws ≡ true)))

Comes-cons :
    (f : Formats) (found : List Candidate) (ws : List PortWarning) (w : PortWarning)
    (ps : List Port)
    → All (Comes f found ws) ps
    → All (Comes f found (w ∷ ws)) ps
unfolding has_duplicate
Comes-cons f found ws w [] h = tt
Comes-cons f found ws w (p ∷ ps) ((c, m, inl e), hs) =
    ((c, m, inl e), Comes-cons f found ws w ps hs)
Comes-cons f found ws w (p ∷ ps) ((c, m, inr (e, d)), hs) =
    ((c, m, inr (e, λ a. ground (arith, d a))), Comes-cons f found ws w ps hs)

abbrev Sound : Formats → List Candidate → Discovery → Type 0
Sound f found d = All (Comes f found d.warnings) d.ports

matchable-manual :
    (f : Formats) (c : Candidate)
    → automatically_matchable (new_manual_port f c) ≡ true
    → (automatic_candidate c ≡ true) × (is_empty c.usb_serial ≡ false)
unfolding automatically_matchable new_manual_port port_from_identity automatic_candidate
matchable-manual f c h = ground arith

duplicate_found :
    (f : Formats) (c : Candidate) (ws : List PortWarning)
    → has_duplicate c.usb_serial (duplicate_warning f c ∷ ws) ≡ true
unfolding has_duplicate text_eq
duplicate_found f c ws = ground (arith, text_eq_refl c.usb_serial)

add_candidate-Sound :
    (f : Formats) (found : List Candidate) (c : Candidate) (d : Discovery)
    → Memᴰ c found
    → Sound f found d
    → Sound f found (add_candidate f found c d)
unfolding add_candidate
add_candidate-Sound f found c d m s = elim (Bool-cases (automatic_candidate c)) [
  | inr e ↦ rw e ((c, m, inr (refl, λ a. absurd (cc (matchable-manual f c a).0))), s)
  | inl e ↦ elim (Bool-cases (is_empty c.usb_serial)) [
    | inl g ↦
        rw (e, g)
          (
            (c, m, inr (refl, λ a. absurd (cc (matchable-manual f c a).1))),
            Comes-cons f found d.warnings (missing_warning c) d.ports s,
          )
    | inr g ↦ elim (Bool-cases (count_serial c.usb_serial found == 1)) [
      | inl k ↦ rw (e, g, k) ((c, m, inl (refl, ground arith)), s)
      | inr k ↦
          rw (e, g, k)
            (
              (c, m, inr (refl, λ a. duplicate_found f c d.warnings)),
              Comes-cons f found d.warnings (duplicate_warning f c) d.ports s,
            )
    ]
  ]
]

normalize_loop-Sound :
    (f : Formats) (found : List Candidate) (names : List Text) (cs : List Candidate)
    → ((c : Candidate) → Memᴰ c cs → Memᴰ c found)
    → Sound f found (normalize_loop f found names cs)
unfolding normalize_loop
normalize_loop-Sound f found names [] sub = tt
normalize_loop-Sound f found names (c ∷ cs) sub =
    elim (Bool-cases (is_empty c.name || contains names c.name)) [
      | inl e ↦ rw e (normalize_loop-Sound f found names cs (λ x m. sub x (Memᴰ.tail m)))
      | inr e ↦ rw e (
          add_candidate-Sound f found c _ (sub c (Memᴰ.head refl))
            (normalize_loop-Sound f found (c.name ∷ names) cs (λ x m. sub x (Memᴰ.tail m))))
    ]

insert_port-All {ℓ} :
    (P : Port → Type ℓ) (p : Port) (ps : List Port) → P p → All P ps → All P (insert_port p ps)
unfolding insert_port
insert_port-All P p [] h hs = (h, tt)
insert_port-All P p (q ∷ qs) h hs = elim (Bool-cases (port_before q p)) [
  | inl e ↦ rw e (hs.0, insert_port-All P p qs h hs.1)
  | inr e ↦ rw e (h, hs)
]

sort_ports-All {ℓ} : (P : Port → Type ℓ) (ps : List Port) → All P ps → All P (sort_ports ps)
unfolding sort_ports
sort_ports-All P [] h = tt
sort_ports-All P (p ∷ ps) h = insert_port-All P p (sort_ports ps) h.0 (sort_ports-All P ps h.1)

-- Every port that discovery lists comes from a candidate.
pub discover-Comes :
    (f : Formats) (found : List Candidate)
    → All (Comes f found (discover f found).warnings) (discover f found).ports
unfolding discover normalize_candidates
discover-Comes f found =
    sort_ports-All _ (normalize_loop f found [] found).ports
      (normalize_loop-Sound f found [] found (λ c m. m))
