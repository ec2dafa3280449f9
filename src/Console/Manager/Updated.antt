-- ===== src/Console/Manager/Updated.antt =====
-- A connection that changes, and one that is opened.
use provisioning_station.Base.{
  Bool-cases, List, Text, ap, arith, false, inl, inr, insert, lookup, lookup-insert,
  lookup-insert_ne, lookup-insert_self, nat_eq, none, some, subst, suc, sym, text_eq, text_eq_iff,
  text_key, ℕ, ◌<◌, ◌==◌, ◌∙◌, ◌≡◌, ◌≢◌, ◌≤◌,
}
use provisioning_station.Console.Manager.Valid.{
  Accounted, Good, Valid, Well, Well-grows, closed_ne, has_tag, some_eq,
}
use provisioning_station.Console.Model.{Connection, Console, Ended}

module _ (m : Console) (v : Valid m) (k : Text) (c : Connection)
    (e : lookup k m.connections ≡ some c) where
  -- A connection that changes and stays, while identifiers may be given out.
  module _ (c' : Connection) (top : ℕ) (es : List Ended) where
    changed : Console
    changed = record m { connections = insert k c' m.connections; next_id = top; ended = es }

    module _ (w : Well m.replay_bytes top c') (same_tag : c'.tag ≡ c.tag)
        (same_port : c'.port ≡ c.port) (grows : m.next_id ≤ top) where
      Good-changed :
          (j : Text) (d : Connection)
          → lookup j (insert k c' m.connections) ≡ some d
          → Good changed j d
      unfolding changed
      Good-changed j d f = elim (Bool-cases (text_eq k j)) [
        | inl here ↦
            let key : k ≡ j = (text_eq_iff k j).0 here in
            let one : c' ≡ d = ground (arith, here, f, lookup-insert j k c' m.connections) in
            let g = v.goods k c e in
            subst (λ x. Good changed j x) one
              (subst (λ i. Good changed i c') key
                (record {
                  well = w;
                  at_key = ap (λ p. p.id) same_port ∙ g.at_key;
                  tag_bound = ground (arith, same_tag, g.tag_bound);
                  handle_open = ap (λ t. has_tag t m.released) same_tag ∙ g.handle_open;
                  at_home = ap (λ t. lookup t m.homes) same_tag ∙ g.at_home;
                }))
        | inr other ↦
            let f' : lookup j m.connections ≡ some d =
              ground (arith, other, f, lookup-insert j k c' m.connections) in
            let g = v.goods j d f' in
            record {
              well = Well-grows m.replay_bytes m.next_id top d grows g.well;
              at_key = g.at_key;
              tag_bound = g.tag_bound;
              handle_open = g.handle_open;
              at_home = g.at_home;
            }
      ]

      Accounted-changed : (t : ℕ) → t < m.next_tag → Accounted changed t
      unfolding changed
      Accounted-changed t h = elim (v.accounted t h) [
        | inl r ↦ inl r
        | inr (j, d, f, q) ↦ elim (Bool-cases (text_eq k j)) [
          | inl here ↦
              let key : k ≡ j = (text_eq_iff k j).0 here in
              let one : c ≡ d = some_eq c d (sym e ∙ ap (λ i. lookup i m.connections) key ∙ f) in
              inr (k, c', lookup-insert_self k c' m.connections, same_tag ∙ ap (λ x. x.tag) one ∙ q)
          | inr other ↦ inr (j, d, ground (arith, other, f, lookup-insert j k c' m.connections), q)
        ]
      ]

      pub changed-Valid :
          Valid (record m { connections = insert k c' m.connections; next_id = top; ended = es })
      unfolding changed
      changed-Valid = record {
        goods = Good-changed;
        accounted = Accounted-changed;
        none_if_closed = λ h. absurd (closed_ne m v k c e h);
        released_bound = v.released_bound;
        homes_bound = v.homes_bound;
      }

-- A connection that is opened at a free key, with the first client.
module _ (m : Console) (v : Valid m) (k : Text) (c : Connection) (top : ℕ) (es : List Ended) where
  abbrev pub opened : Console
  opened = record m {
    connections = insert k c m.connections;
    next_id = top;
    next_tag = suc m.next_tag;
    homes = insert m.next_tag k m.homes;
    ended = es;
  }

  module _ (free : lookup k m.connections ≡ none) (w : Well m.replay_bytes top c)
      (new_tag : c.tag ≡ m.next_tag) (at_port : c.port.id ≡ k) (grows : m.next_id ≤ top)
      (live : m.closed ≡ false) where
    free_ne : (j : Text) (d : Connection) → k ≡ j → lookup j m.connections ≢ some d
    free_ne j d s f = cc (sym free ∙ ap (λ i. lookup i m.connections) s ∙ f)

    older : (j : Text) (d : Connection) → lookup j m.connections ≡ some d → Good opened j d
    older j d f =
        let g = v.goods j d f in
        record {
          well = Well-grows m.replay_bytes m.next_id top d grows g.well;
          at_key = g.at_key;
          tag_bound = omega (arith, g.tag_bound);
          handle_open = g.handle_open;
          at_home =
              lookup-insert_ne d.tag m.next_tag k m.homes (λ q. omega (arith, g.tag_bound, q))
              ∙ g.at_home;
        }

    newer : Good opened k c
    newer = record {
      well = w;
      at_key = at_port;
      tag_bound = omega (arith, new_tag);
      handle_open = elim (Bool-cases (has_tag c.tag m.released)) [
        | inl r ↦ absurd (omega (arith, v.released_bound live c.tag r, new_tag))
        | inr r ↦ r
      ];
      at_home =
          ap (λ t. lookup t (insert m.next_tag k m.homes)) new_tag
          ∙ lookup-insert_self m.next_tag k m.homes;
    }

    Good-opened :
        (j : Text) (d : Connection) → lookup j (insert k c m.connections) ≡ some d → Good opened j d
    Good-opened j d f = elim (Bool-cases (text_eq k j)) [
      | inl here ↦
          let key : k ≡ j = (text_eq_iff k j).0 here in
          let one : c ≡ d = ground (arith, here, f, lookup-insert j k c m.connections) in
          subst (λ x. Good opened j x) one (subst (λ i. Good opened i c) key newer)
      | inr other ↦ older j d (ground (arith, other, f, lookup-insert j k c m.connections))
    ]

    Accounted-opened : (t : ℕ) → t < suc m.next_tag → Accounted opened t
    Accounted-opened t h = elim (Bool-cases (t == m.next_tag)) [
      | inl q ↦ inr (k, c, lookup-insert_self k c m.connections, ground (arith, q, new_tag))
      | inr q ↦ elim (v.accounted t (ground (arith, q))) [
        | inl r ↦ inl r
        | inr (j, d, f, g) ↦
            inr (j, d, lookup-insert_ne j k c m.connections (λ s. free_ne j d s f) ∙ f, g)
      ]
    ]

    pub opened-Valid : Valid opened
    opened-Valid = record {
      goods = Good-opened;
      accounted = Accounted-opened;
      none_if_closed = λ h. cc (live, h);
      released_bound = λ l t h. omega (arith, v.released_bound l t h);
      homes_bound = λ t j h. elim (Bool-cases (m.next_tag == t)) [
        | inl q ↦ ground (arith, q)
        | inr q ↦
            omega (
              arith,
              v.homes_bound t j (ground (arith, q, h, lookup-insert t m.next_tag k m.homes)),
            )
      ];
    }
