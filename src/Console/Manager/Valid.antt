-- ===== src/Console/Manager/Valid.antt =====
-- The invariant of the serial console manager, and the three ways in which its connections change.
use provisioning_station.Base.{
  Bool, Bool-cases, List, Map, Text, [], ap, arith, erase, false, inl, inr, length, lookup,
  lookup-erase, nat_eq, some, sym, text_eq, text_eq_iff, text_eq_refl, text_key, true, ℕ, ◌<◌, ◌==◌,
  ◌||◌, ◌∙◌, ◌∷◌, ◌≡◌, ◌≢◌, ◌≤◌, ◌⊎◌,
}
use provisioning_station.Console.Manager.{has_client, no_clients}
use provisioning_station.Console.Model.{Client, Connection, Console, Ended}

abbrev pub has_tag : ℕ → List ℕ → Bool
has_tag t [] = false
has_tag t (u ∷ us) = u == t || has_tag t us

-- Identifiers of clients are given out from 1 on, and none twice.
abbrev pub KnownClients : ℕ → List Client → Type 0
KnownClients top [] = Unit
KnownClients top (c ∷ cs) =
    (1 ≤ c.id) × (c.id ≤ top) × (has_client c.id cs ≡ false) × KnownClients top cs

-- No channel holds more than 128 chunks.
abbrev pub Roomy : List Client → Type 0
Roomy [] = Unit
Roomy (c ∷ cs) = (length c.queue ≤ 128) × Roomy cs

-- A connection that is open: its ring and its channels are within their limits, somebody is attached, and the controller is
-- one of them if there is one.
pub record Well (limit top : ℕ) (c : Connection) : Type 0 where
  pub ring_bound : length c.ring ≤ limit
  pub used : no_clients c.clients ≡ false
  pub leased : (c.controller ≡ 0) ⊎ (has_client c.controller c.clients ≡ true)
  pub known : KnownClients top c.clients
  pub roomy : Roomy c.clients

-- The connection under a key.
pub record Good (m : Console) (k : Text) (c : Connection) : Type 0 where
  pub well : Well m.replay_bytes m.next_id c
  pub at_key : c.port.id ≡ k
  pub tag_bound : c.tag < m.next_tag
  pub handle_open : has_tag c.tag m.released ≡ false
  pub at_home : lookup c.tag m.homes ≡ some k

-- A handle that was opened is closed, or it is that of a connection.
abbrev pub Accounted : Console → ℕ → Type 0
Accounted m t =
    (has_tag t m.released ≡ true)
    ⊎ ((k : Text) × (c : Connection) × (lookup k m.connections ≡ some c) × (c.tag ≡ t))

pub record Valid (m : Console) : Type 0 where
  pub goods : (k : Text) (c : Connection) → lookup k m.connections ≡ some c → Good m k c
  pub accounted : (t : ℕ) → t < m.next_tag → Accounted m t
  pub none_if_closed : m.closed ≡ true → m.connections ≡ []
  pub released_bound : m.closed ≡ false → (t : ℕ) → has_tag t m.released ≡ true → t < m.next_tag
  pub homes_bound : (t : ℕ) (k : Text) → lookup t m.homes ≡ some k → t < m.next_tag

-- A connection that is dropped, with its handle closed.
abbrev pub dropped : Console → Text → ℕ → Console
dropped m k tag = record m { connections = erase k m.connections; released = tag ∷ m.released }

pub some_eq {ℓ} : {A : Type ℓ} (a b : A) → some a ≡ some b → a ≡ b
some_eq a b h = cc

pub KnownClients-grows :
    (top top' : ℕ) (cs : List Client) → top ≤ top' → KnownClients top cs → KnownClients top' cs
KnownClients-grows top top' [] h k = tt
KnownClients-grows top top' (c ∷ cs) h (one, bound, apart, rest) =
    (one, omega arith, apart, KnownClients-grows top top' cs h rest)

pub Well-grows :
    (limit top top' : ℕ) (c : Connection) → top ≤ top' → Well limit top c → Well limit top' c
Well-grows limit top top' c h w = record {
  ring_bound = w.ring_bound;
  used = w.used;
  leased = w.leased;
  known = KnownClients-grows top top' c.clients h w.known;
  roomy = w.roomy;
}

-- A connection that is found without a key is found with it, at another key.
pub found_elsewhere :
    (j k : Text) (d : Connection) (cs : Map Text Connection)
    → lookup j (erase k cs) ≡ some d
    → (text_eq k j ≡ false) × (lookup j cs ≡ some d)
found_elsewhere j k d cs f = ground (arith, lookup-erase j k cs)

module _ (m : Console) (v : Valid m) (k : Text) (c : Connection)
    (e : lookup k m.connections ≡ some c) where
  tag_ne :
      (j : Text) (d : Connection)
      → lookup j m.connections ≡ some d
      → text_eq k j ≡ false
      → c.tag ≢ d.tag
  tag_ne j d f ne q =
      let one = (v.goods k c e).at_home in
      let two = (v.goods j d f).at_home in
      let same_key : k ≡ j = some_eq k j (sym one ∙ ap (λ t. lookup t m.homes) q ∙ two) in
      cc (sym (text_eq_refl k) ∙ ap (text_eq k) same_key ∙ ne)

  -- A manager that has a connection is not closed.
  pub closed_ne : m.closed ≢ true
  unfolding lookup
  closed_ne h = cc (v.none_if_closed h, e)

  module _ (es : List Ended) where
    left : Console
    left = record (dropped m k c.tag) { ended = es }

    Good-dropped :
        (j : Text) (d : Connection) → lookup j (erase k m.connections) ≡ some d → Good left j d
    unfolding left
    Good-dropped j d f =
        let (ne, f') = found_elsewhere j k d m.connections f in
        let g = v.goods j d f' in
        let other = tag_ne j d f' ne in
        record {
          well = g.well;
          at_key = g.at_key;
          tag_bound = g.tag_bound;
          handle_open = ground (arith, g.handle_open, other);
          at_home = g.at_home;
        }

    Accounted-dropped : (t : ℕ) → t < m.next_tag → Accounted left t
    unfolding left
    Accounted-dropped t h = elim (v.accounted t h) [
      | inl r ↦ inl (ground arith)
      | inr (j, d, f, q) ↦ elim (Bool-cases (text_eq k j)) [
        | inl same_key ↦
            let key : k ≡ j = (text_eq_iff k j).0 same_key in
            let one : c ≡ d = some_eq c d (sym e ∙ ap (λ i. lookup i m.connections) key ∙ f) in
            inl (ground (arith, ap (λ x. x.tag) one))
        | inr other ↦ inr (j, d, ground (arith, lookup-erase j k m.connections), q)
      ]
    ]

  pub dropped-Valid : (es : List Ended) → Valid (record (dropped m k c.tag) { ended = es })
  unfolding left
  dropped-Valid es = record {
    goods = Good-dropped es;
    accounted = Accounted-dropped es;
    none_if_closed = λ h. absurd (closed_ne h);
    released_bound = λ l t h. ground (arith, v.released_bound l t, (v.goods k c e).tag_bound);
    homes_bound = v.homes_bound;
  }
