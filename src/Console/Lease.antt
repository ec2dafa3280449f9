-- ===== src/Console/Lease.antt =====
-- The lease of the controller (`Attach` and `write` of internal/serialconsole/manager.go).
use provisioning_station.Base.{
  Bool, Text, ap, arith, false, if◌then◌else◌, inl, inr, insert, lookup, lookup-insert_self, none,
  refl, some, sym, text_key, true, ℕ, ◌+◌, ◌∙◌, ◌≡◌,
}
use provisioning_station.Console.Attaching.{
  attach_selected, is_controller, join, new_connection, subscribe_client,
}
use provisioning_station.Console.Manager.Attach.{attach_selected_cases, just_opened}
use provisioning_station.Console.Model.{
  AttachEnv, AttachRequest, Attachment, Connection, Console, attached,
}
use provisioning_station.Console.Ports.{Port}

join-lease :
    (m m' : Console) (created : Bool) (r : AttachRequest) (p : Port) (c : Connection)
    (a : Attachment)
    → join m created r p c ≡ (m', attached a)
    → (a.port_id ≡ p.id)
      × (a.client_id ≡ m.next_id + 1)
      × (is_controller r ≡ true → c.controller ≡ 0)
      × (m'.connections ≡ insert p.id (subscribe_client (m.next_id + 1) r c) m.connections)
unfolding join
join-lease m m' created r p c a h = ground arith

subscribe_client-controller :
    (id : ℕ) (r : AttachRequest) (c : Connection)
    → (subscribe_client id r c).controller ≡ (if is_controller r then id else c.controller)
unfolding subscribe_client
subscribe_client-controller id r c = refl

-- The controller of the connection at a key, 0 if there is none.
abbrev pub holder : Console → Text → ℕ
holder m k = elim (lookup k m.connections) [ none ↦ 0 | some c ↦ c.controller ]

holder_found :
    (m : Console) (k : Text) (c : Connection)
    → lookup k m.connections ≡ some c
    → holder m k ≡ c.controller
holder_found m k c e = ground (arith, e)

holder_free : (m : Console) (k : Text) → lookup k m.connections ≡ none → holder m k ≡ 0
holder_free m k e = ground (arith, e)

-- The lease after a client has joined.
join-holder :
    (m m' : Console) (created : Bool) (r : AttachRequest) (p : Port) (c : Connection)
    (a : Attachment)
    → join m created r p c ≡ (m', attached a)
    → (is_controller r ≡ true → (c.controller ≡ 0) × (holder m' p.id ≡ a.client_id))
      × (is_controller r ≡ false → holder m' p.id ≡ c.controller)
join-holder m m' created r p c a h =
    let (port, client, free, cs) = join-lease m m' created r p c a h in
    let c₁ = subscribe_client (m.next_id + 1) r c in
    let there : lookup p.id m'.connections ≡ some c₁ =
      ap (lookup p.id) cs ∙ lookup-insert_self p.id c₁ m.connections in
    let held = holder_found m' p.id c₁ there in
    let gives = subscribe_client-controller (m.next_id + 1) r c in
    (λ e. (free e, ground (arith, e, held, gives, client)), λ e. ground (arith, e, held, gives))

-- If a port is attached as controller, no one held its lease before and the new client holds it
-- afterwards; if it is attached as observer, the lease stays as it was.
pub attach_selected-holder :
    (m m' : Console) (e : AttachEnv) (r : AttachRequest) (p : Port) (a : Attachment)
    → attach_selected m e r p ≡ (m', attached a)
    → (is_controller r ≡ true → (holder m p.id ≡ 0) × (holder m' p.id ≡ a.client_id))
      × (is_controller r ≡ false → holder m' p.id ≡ holder m p.id)
attach_selected-holder m m' e r p a h = elim (attach_selected_cases m e r p) [
  | inl (bad, q) ↦ absurd (cc (sym q ∙ h))
  | inr (inl (c, found, q)) ↦
      let (leads, follows) = join-holder m m' false r p c a (sym q ∙ h) in
      let held = holder_found m p.id c found in
      (λ i. (held ∙ (leads i).0, (leads i).1), λ i. follows i ∙ sym held)
  | inr (inr (live, free, q)) ↦
      let (leads, follows) =
        join-holder (just_opened m r p) m' true r p (new_connection m r p) a (sym q ∙ h) in
      let held = holder_free m p.id free in (λ i. (held, (leads i).1), λ i. follows i ∙ sym held)
]
