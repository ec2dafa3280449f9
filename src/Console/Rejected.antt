-- ===== src/Console/Rejected.antt =====
-- Attachments that are refused (internal/serialconsole/manager.go, `Attach`).
use provisioning_station.Base.{Option-cases, arith, false, inl, inr, refl, sym, true, ◌∙◌, ◌≡◌}
use provisioning_station.Console.Attaching.{
  attach, attach_filled, attach_selected, check_attach, filled, find_port, join, new_connection,
}
use provisioning_station.Console.Manager.Attach.{attach_selected_cases}
use provisioning_station.Console.Model.{
  AttachEnv, AttachRequest, Connection, Console, ConsoleError, not_attached,
}
use provisioning_station.Console.Ports.{Port}

join-free :
    (m m' : Console) (r : AttachRequest) (p : Port) (c : Connection) (bad : ConsoleError)
    → c.controller ≡ 0
    → ¬ (join m true r p c ≡ (m', not_attached bad))
unfolding join
join-free m m' r p c bad free h = ground (arith, free, h)

join-rejected :
    (m m' : Console) (r : AttachRequest) (p : Port) (c : Connection) (bad : ConsoleError)
    → join m false r p c ≡ (m', not_attached bad)
    → m' ≡ m
unfolding join
join-rejected m m' r p c bad h = ground (arith, h)

attach_selected-rejected :
    (m m' : Console) (e : AttachEnv) (r : AttachRequest) (p : Port) (bad : ConsoleError)
    → attach_selected m e r p ≡ (m', not_attached bad)
    → m' ≡ m
attach_selected-rejected m m' e r p bad h = elim (attach_selected_cases m e r p) [
  | inl (other, q) ↦ cc (sym q ∙ h)
  | inr (inl (c, found, q)) ↦ join-rejected m m' r p c bad (sym q ∙ h)
  | inr (inr (live, free, q)) ↦
      absurd (join-free _ m' r p (new_connection m r p) bad refl (sym q ∙ h))
]

-- An attachment that is refused, for whatever reason, leaves the manager as it was: no
-- connection, client, lease or handle of it remains.
pub attach-rejected :
    (m m' : Console) (e : AttachEnv) (r : AttachRequest) (bad : ConsoleError)
    → attach m e r ≡ (m', not_attached bad)
    → m' ≡ m
unfolding attach attach_filled
attach-rejected m m' e r bad h = elim (Option-cases (check_attach e (filled m r))) [
  | inr (other, q) ↦ cc (rw (q, attach_filled) at h)
  | inl fine ↦ elim (Option-cases (find_port (filled m r).port_id e.discovery.ports)) [
    | inl q ↦ cc (rw (fine, q, attach_filled) at h)
    | inr (p, q) ↦
        attach_selected-rejected m m' e (filled m r) p bad (rw (fine, q, attach_filled) at h)
  ]
]
