-- ===== src/Console/Manager/Attach.antt =====
-- Attaching to a serial console keeps the invariant, and gives out the lease of the controller once.
use provisioning_station.Base.{
  Bool-cases, Map, Option-cases, Text, [], ap, arith, false, inl, inr, insert, lookup, nat_eq, none,
  not, refl, some, suc, text_eq_refl, text_key, true, ℕ, ◌&&◌, ◌+◌, ◌==◌, ◌∷◌, ◌≡◌, ◌⊎◌,
}
use provisioning_station.Console.Attaching.{
  attach, attach_filled, attach_selected, check_attach, filled, find_port, is_controller, join,
  new_connection, put_connection, same_int, subscribe_client,
}
use provisioning_station.Console.Manager.Clients.{Kept, subscribe_client-Well}
use provisioning_station.Console.Manager.Updated.{changed-Valid, opened-Valid}
use provisioning_station.Console.Manager.Valid.{Valid, Well}
use provisioning_station.Console.Model.{
  AttachEnv, AttachRequest, Connection, Console, ConsoleError, console_failure, manager_closed,
  mode_conflict, not_attached,
}
use provisioning_station.Console.Ports.{Port}

new_connection-Kept :
    (m : Console) (r : AttachRequest) (p : Port)
    → Kept m.replay_bytes m.next_id (new_connection m r p)
new_connection-Kept m r p = record {
  ring_bound = omega arith;
  leased = inl refl;
  known = tt;
  roomy = tt;
}

Well-Kept : (limit top : ℕ) (c : Connection) → Well limit top c → Kept limit top c
Well-Kept limit top c w = record {
  ring_bound = w.ring_bound;
  leased = w.leased;
  known = w.known;
  roomy = w.roomy;
}

subscribe_client_same :
    (id : ℕ) (r : AttachRequest) (c : Connection)
    → ((subscribe_client id r c).tag ≡ c.tag) × ((subscribe_client id r c).port ≡ c.port)
unfolding subscribe_client
subscribe_client_same id r c = (refl, refl)

-- Joining a connection that is there.
join_old-Valid :
    (m : Console) (r : AttachRequest) (p : Port) (c : Connection)
    → Valid m
    → lookup p.id m.connections ≡ some c
    → Valid (join m false r p c).0
unfolding join
join_old-Valid m r p c v e = elim (Bool-cases (is_controller r && not (c.controller == 0))) [
  | inl busy ↦ rw busy v
  | inr room ↦
      let (tag, port) = subscribe_client_same (m.next_id + 1) r c in
      rw room (
        changed-Valid m v p.id c e (subscribe_client (m.next_id + 1) r c) (m.next_id + 1) m.ended
          (subscribe_client-Well m.replay_bytes m.next_id r c
            (Well-Kept m.replay_bytes m.next_id c (v.goods p.id c e).well))
          tag port (omega arith))
]

insert-insert {ℓ} :
    {V : Type ℓ} (k : Text) (a b : V) (cs : Map Text V) → insert k b (insert k a cs) ≡ insert k b cs
unfolding insert
insert-insert k a b [] = ground (arith, text_eq_refl k)
insert-insert k a b ((j, w) ∷ cs) = ground (arith, text_eq_refl k, insert-insert k a b cs)

-- The state in which a connection has just been opened.
abbrev pub just_opened : Console → AttachRequest → Port → Console
just_opened m r p = record (put_connection m p.id (new_connection m r p)) {
  next_tag = suc m.next_tag;
  homes = insert m.next_tag p.id m.homes;
}

join_new-Valid :
    (m : Console) (r : AttachRequest) (p : Port)
    → Valid m
    → m.closed ≡ false
    → lookup p.id m.connections ≡ none
    → Valid (join (just_opened m r p) true r p (new_connection m r p)).0
unfolding join
join_new-Valid m r p v live free =
    let c = new_connection m r p in
    let c₁ = subscribe_client (m.next_id + 1) r c in
    let (tag, port) = subscribe_client_same (m.next_id + 1) r c in
    let no_lease : (is_controller r && not (0 == 0)) ≡ false = ground arith in
    let twice : insert p.id c₁ (insert p.id c m.connections) ≡ insert p.id c₁ m.connections =
      insert-insert p.id c c₁ m.connections in
    rw (no_lease, twice)
      (opened-Valid m v p.id c₁ (m.next_id + 1) m.ended free
        (subscribe_client-Well m.replay_bytes m.next_id r c (new_connection-Kept m r p)) tag
        (ap (λ q. q.id) port) (omega arith) live)

-- The outcomes of an attachment to a port that was found.
pub attach_selected_cases :
    (m : Console) (e : AttachEnv) (r : AttachRequest) (p : Port)
    → ((bad : ConsoleError) × (attach_selected m e r p ≡ (m, not_attached bad)))
      ⊎ ((c : Connection) × (lookup p.id m.connections ≡ some c)
          × (attach_selected m e r p ≡ join m false r p c))
      ⊎ ((m.closed ≡ false)
          × (lookup p.id m.connections ≡ none)
          × (attach_selected m e r p ≡ join (just_opened m r p) true r p (new_connection m r p)))
unfolding attach_selected
attach_selected_cases m e r p = elim (Bool-cases m.closed) [
  | inl closed ↦ inl (manager_closed, ground arith)
  | inr live ↦ elim (Option-cases (lookup p.id m.connections)) [
    | inl free ↦ elim (Option-cases e.open_error) [
      | inl fine ↦ inr (inr (live, free, ground arith))
      | inr (f, bad) ↦ inl (console_failure f, ground arith)
    ]
    | inr (c, found) ↦ elim (Bool-cases (same_int c.baud_rate r.baud_rate)) [
      | inl fits ↦ inr (inl (c, found, ground arith))
      | inr other ↦ inl (mode_conflict, ground arith)
    ]
  ]
]

pub attach_selected-Valid :
    (m : Console) (e : AttachEnv) (r : AttachRequest) (p : Port)
    → Valid m
    → Valid (attach_selected m e r p).0
attach_selected-Valid m e r p v = elim (attach_selected_cases m e r p) [
  | inl (bad, q) ↦ rw q v
  | inr (inl (c, found, q)) ↦ rw q (join_old-Valid m r p c v found)
  | inr (inr (live, free, q)) ↦ rw q (join_new-Valid m r p v live free)
]

pub attach-Valid :
    (m : Console) (e : AttachEnv) (r : AttachRequest) → Valid m → Valid (attach m e r).0
unfolding attach attach_filled
attach-Valid m e r v = elim (Option-cases (check_attach e (filled m r))) [
  | inr (bad, q) ↦ rw (q, attach_filled) v
  | inl fine ↦ elim (Option-cases (find_port (filled m r).port_id e.discovery.ports)) [
    | inl q ↦ rw (fine, q, attach_filled) v
    | inr (p, q) ↦ rw (fine, q, attach_filled) (attach_selected-Valid m e (filled m r) p v)
  ]
]
