-- ===== src/Console/Manager/Clients.antt =====
-- What the operations on one connection keep.
use provisioning_station.Base.{
  Bool-cases, List, Text, [], arith, false, if◌then◌else◌, inl, inr, length, length-append,
  length-drop, ltb, refl, true, ℕ, ◌++◌, ◌+◌, ◌-◌, ◌<◌, ◌==◌, ◌||◌, ◌∙◌, ◌∷◌, ◌≡◌, ◌≤◌, ◌⊎◌,
}
use provisioning_station.Console.Attaching.{subscribe_client}
use provisioning_station.Console.Manager.{
  add_to_ring, channel_room, close_client, has_client, has_ended, last_bytes, no_clients, offer,
  take_chunk, take_oldest, without_client, without_oldest,
}
use provisioning_station.Console.Manager.Valid.{KnownClients, KnownClients-grows, Roomy, Well}
use provisioning_station.Console.Model.{AttachRequest, Client, Connection}

-- The connection without the demand that somebody is attached.
pub record Kept (limit top : ℕ) (c : Connection) : Type 0 where
  pub ring_bound : length c.ring ≤ limit
  pub leased : (c.controller ≡ 0) ⊎ (has_client c.controller c.clients ≡ true)
  pub known : KnownClients top c.clients
  pub roomy : Roomy c.clients

pub Kept-Well :
    (limit top : ℕ) (c : Connection)
    → Kept limit top c
    → no_clients c.clients ≡ false
    → Well limit top c
Kept-Well limit top c w u = record {
  ring_bound = w.ring_bound;
  used = u;
  leased = w.leased;
  known = w.known;
  roomy = w.roomy;
}

-- Every client is kept or closed as too slow.
offer-has_client :
    (chunk : Text) (id : ℕ) (cs : List Client)
    → has_client id cs ≡ (has_client id (offer chunk cs).0 || has_ended id (offer chunk cs).1)
unfolding offer
offer-has_client chunk id [] = refl
offer-has_client chunk id (c ∷ cs) = ground (arith, offer-has_client chunk id cs)

offer-KnownClients :
    (chunk : Text) (top : ℕ) (cs : List Client)
    → KnownClients top cs
    → KnownClients top (offer chunk cs).0
unfolding offer
offer-KnownClients chunk top [] k = tt
offer-KnownClients chunk top (c ∷ cs) (one, bound, apart, rest) =
    let later = offer-KnownClients chunk top cs rest in
    elim (Bool-cases (ltb (length c.queue) channel_room)) [
      | inl e ↦ rw e (one, bound, ground (arith, offer-has_client chunk c.id cs), later)
      | inr e ↦ rw e later
    ]

offer-Roomy : (chunk : Text) (cs : List Client) → Roomy cs → Roomy (offer chunk cs).0
unfolding offer
offer-Roomy chunk [] k = tt
offer-Roomy chunk (c ∷ cs) (few, rest) =
    let later = offer-Roomy chunk cs rest in
    elim (Bool-cases (ltb (length c.queue) channel_room)) [
      | inl e ↦ rw e (ground (arith, e, length-append c.queue (chunk ∷ [])), later)
      | inr e ↦ rw e later
    ]

last_bytes_bound : (n : ℕ) (s : Text) → length (last_bytes n s) ≤ n
unfolding last_bytes
last_bytes_bound n s = omega (arith, length-drop (length s - n) s)

add_to_ring_bound :
    (limit : ℕ) (ring chunk : Text)
    → length ring ≤ limit
    → length (add_to_ring limit ring chunk) ≤ limit
unfolding add_to_ring
add_to_ring_bound limit ring chunk h = ground (arith, last_bytes_bound limit (ring ++ chunk))

pub take_chunk-Kept :
    (limit top : ℕ) (chunk : Text) (c : Connection)
    → Well limit top c
    → Kept limit top (take_chunk limit chunk c).0
unfolding take_chunk
take_chunk-Kept limit top chunk c w = record {
  ring_bound = add_to_ring_bound limit c.ring chunk w.ring_bound;
  leased = ground (arith, w.leased, offer-has_client chunk c.controller c.clients);
  known = offer-KnownClients chunk top c.clients w.known;
  roomy = offer-Roomy chunk c.clients w.roomy;
}

without_client-has_client :
    (id x : ℕ) (cs : List Client)
    → has_client x (without_client id cs) ≡ (if x == id then false else has_client x cs)
without_client-has_client id x [] = ground arith
without_client-has_client id x (c ∷ cs) = ground (arith, without_client-has_client id x cs)

without_client-KnownClients :
    (id top : ℕ) (cs : List Client) → KnownClients top cs → KnownClients top (without_client id cs)
without_client-KnownClients id top [] k = tt
without_client-KnownClients id top (c ∷ cs) (one, bound, apart, rest) =
    let later = without_client-KnownClients id top cs rest in
    elim (Bool-cases (c.id == id)) [
      | inl e ↦ rw e later
      | inr e ↦ rw e (one, bound, ground (arith, without_client-has_client id c.id cs), later)
    ]

without_client-Roomy : (id : ℕ) (cs : List Client) → Roomy cs → Roomy (without_client id cs)
without_client-Roomy id [] k = tt
without_client-Roomy id (c ∷ cs) (few, rest) =
    let later = without_client-Roomy id cs rest in
    elim (Bool-cases (c.id == id)) [ inl e ↦ rw e later | inr e ↦ rw e (few, later) ]

pub close_client-Kept :
    (limit top id : ℕ) (c : Connection) → Well limit top c → Kept limit top (close_client id c)
unfolding close_client
close_client-Kept limit top id c w = elim (Bool-cases (has_client id c.clients)) [
  | inr e ↦
      rw e
        (record { ring_bound = w.ring_bound; leased = w.leased; known = w.known; roomy = w.roomy })
  | inl e ↦ rw e (record {
    ring_bound = w.ring_bound;
    leased = ground (arith, w.leased, without_client-has_client id c.controller c.clients);
    known = without_client-KnownClients id top c.clients w.known;
    roomy = without_client-Roomy id c.clients w.roomy;
  })
]

unknown_client :
    (top id : ℕ) (cs : List Client) → top < id → KnownClients top cs → has_client id cs ≡ false
unknown_client top id [] h k = refl
unknown_client top id (c ∷ cs) h (one, bound, apart, rest) =
    ground (arith, unknown_client top id cs h rest)

-- A new client with the next identifier.
pub subscribe_client-Well :
    (limit top : ℕ) (r : AttachRequest) (c : Connection)
    → Kept limit top c
    → Well limit (top + 1) (subscribe_client (top + 1) r c)
unfolding subscribe_client
subscribe_client-Well limit top r c w = record {
  ring_bound = w.ring_bound;
  used = refl;
  leased = ground (arith, w.leased);
  known = (
    omega arith,
    omega arith,
    unknown_client top (top + 1) c.clients (omega arith) w.known,
    KnownClients-grows top (top + 1) c.clients (omega arith) w.known,
  );
  roomy = (ground arith, w.roomy);
}

pub take_chunk_same :
    (limit : ℕ) (chunk : Text) (c : Connection)
    → ((take_chunk limit chunk c).0.tag ≡ c.tag) × ((take_chunk limit chunk c).0.port ≡ c.port)
unfolding take_chunk
take_chunk_same limit chunk c = (refl, refl)

pub close_client_same :
    (id : ℕ) (c : Connection)
    → ((close_client id c).tag ≡ c.tag) × ((close_client id c).port ≡ c.port)
unfolding close_client
close_client_same id c = ground arith

take_oldest-has_client :
    (id x : ℕ) (cs : List Client) → has_client x (take_oldest id cs) ≡ has_client x cs
unfolding take_oldest
take_oldest-has_client id x [] = refl
take_oldest-has_client id x (c ∷ cs) = ground (arith, take_oldest-has_client id x cs)

take_oldest-KnownClients :
    (id top : ℕ) (cs : List Client) → KnownClients top cs → KnownClients top (take_oldest id cs)
unfolding take_oldest
take_oldest-KnownClients id top [] k = tt
take_oldest-KnownClients id top (c ∷ cs) (one, bound, apart, rest) =
    let later = take_oldest-KnownClients id top cs rest in
    let same_clients = take_oldest-has_client id c.id cs ∙ apart in
    elim (Bool-cases (c.id == id)) [
      | inl e ↦ rw e (one, bound, same_clients, later)
      | inr e ↦ rw e (one, bound, same_clients, later)
    ]

without_oldest_bound : (q : List Text) (n : ℕ) → length q ≤ n → length (without_oldest q) ≤ n
without_oldest_bound [] n h = h
without_oldest_bound (chunk ∷ rest) n h = omega (arith, h)

take_oldest-Roomy : (id : ℕ) (cs : List Client) → Roomy cs → Roomy (take_oldest id cs)
unfolding take_oldest
take_oldest-Roomy id [] k = tt
take_oldest-Roomy id (c ∷ cs) (few, rest) =
    let later = take_oldest-Roomy id cs rest in
    elim (Bool-cases (c.id == id)) [
      | inl e ↦ rw e (without_oldest_bound c.queue 128 few, later)
      | inr e ↦ rw e (few, later)
    ]

pub take_oldest-Well :
    (limit top id : ℕ) (c : Connection)
    → Well limit top c
    → Well limit top (record c { clients = take_oldest id c.clients })
unfolding take_oldest
take_oldest-Well limit top id c w = record {
  ring_bound = w.ring_bound;
  used = ground (arith, w.used);
  leased = ground (arith, w.leased, take_oldest-has_client id c.controller c.clients);
  known = take_oldest-KnownClients id top c.clients w.known;
  roomy = take_oldest-Roomy id c.clients w.roomy;
}
