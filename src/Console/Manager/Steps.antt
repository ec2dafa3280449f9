-- ===== src/Console/Manager/Steps.antt =====
-- Every part of the serial console manager that holds its lock keeps the invariant.
use provisioning_station.Base.{
  Bool-cases, Failure, List, Map, Option, Option-cases, Text, [], ap, arith, false, inl, inr,
  is_empty, lookup, nat_eq, none, refl, some, subst, sym, text_eq_iff, text_key, true, ℕ, ◌++◌,
  ◌==◌, ◌∙◌, ◌∷◌, ◌≡◌, ◌≢◌,
}
use provisioning_station.Console.Manager.{
  all_tags, broadcast, close_client, close_manager, consume_chunk, detach, end_connection,
  end_everything, heard, keep_or_drop, no_clients, read_at, read_round, release, take_chunk,
  take_oldest,
}
use provisioning_station.Console.Manager.Clients.{
  Kept, Kept-Well, close_client-Kept, close_client_same, take_chunk-Kept, take_chunk_same,
  take_oldest-Well,
}
use provisioning_station.Console.Manager.Updated.{changed-Valid}
use provisioning_station.Console.Manager.Valid.{Valid, dropped-Valid, has_tag, some_eq}
use provisioning_station.Console.Model.{
  Connection, Console, ConsoleError, Ended, console_failure, end_of_file,
}

keep_or_drop-Valid :
    (m : Console) (es : List Ended) (k : Text) (c c' : Connection)
    → Valid m
    → lookup k m.connections ≡ some c
    → Kept m.replay_bytes m.next_id c'
    → c'.tag ≡ c.tag
    → c'.port ≡ c.port
    → Valid (keep_or_drop (record m { ended = es }) k c')
unfolding keep_or_drop
keep_or_drop-Valid m es k c c' v e w t p = elim (Bool-cases (no_clients c'.clients)) [
  | inl gone ↦ rw gone (rw t (dropped-Valid m v k c e es))
  | inr used ↦ rw used (
      changed-Valid m v k c e c' m.next_id es (Kept-Well m.replay_bytes m.next_id c' w used) t p
        (omega arith))
]

pub broadcast-Valid :
    (m : Console) (k : Text) (tag : ℕ) (chunk : Text) → Valid m → Valid (broadcast m k tag chunk)
unfolding broadcast
broadcast-Valid m k tag chunk v = elim (Option-cases (lookup k m.connections)) [
  | inl e ↦ rw (e, broadcast) v
  | inr (c, e) ↦ elim (Bool-cases (c.tag == tag)) [
    | inr q ↦ rw (e, broadcast) (rw q v)
    | inl q ↦
        rw (e, broadcast)
          (rw q (
            keep_or_drop-Valid m _ k c (take_chunk m.replay_bytes chunk c).0 v e
              (take_chunk-Kept m.replay_bytes m.next_id chunk c (v.goods k c e).well)
              (take_chunk_same m.replay_bytes chunk c).0
              (take_chunk_same m.replay_bytes chunk c).1))
  ]
]

pub detach-Valid : (m : Console) (k : Text) (id : ℕ) → Valid m → Valid (detach m k id)
unfolding detach
detach-Valid m k id v = elim (Option-cases (lookup k m.connections)) [
  | inl e ↦ rw (e, detach) v
  | inr (c, e) ↦
      let (tag, port) = close_client_same id c in
      rw (e, detach)
        (keep_or_drop-Valid m _ k c (close_client id c) v e
          (close_client-Kept m.replay_bytes m.next_id id c (v.goods k c e).well) tag port)
]

-- A handle that is closed again, or whose connection has left the map.
release-Valid :
    (m : Console) (k : Text) (tag : ℕ)
    → lookup tag m.homes ≡ some k
    → ((c : Connection) → lookup k m.connections ≡ some c → c.tag ≢ tag)
    → Valid m
    → Valid (release tag m)
release-Valid m k tag home stale v = record {
  goods = λ j d f.
      let g = v.goods j d f in
      record {
        well = g.well;
        at_key = g.at_key;
        tag_bound = g.tag_bound;
        handle_open = elim (Bool-cases (tag == d.tag)) [
          | inr q ↦ rw q g.handle_open
          | inl q ↦
              let same_tag : d.tag ≡ tag = ground (arith, q) in
              let same_key : j ≡ k =
                some_eq j k (sym g.at_home ∙ ap (λ t. lookup t m.homes) same_tag ∙ home) in
              absurd (stale d (ap (λ i. lookup i m.connections) (sym same_key) ∙ f) same_tag)
        ];
        at_home = g.at_home;
      };
  accounted = λ t h. elim (v.accounted t h) [ inl r ↦ inl (ground arith) | inr held ↦ inr held ];
  none_if_closed = v.none_if_closed;
  released_bound = λ l t h. ground (arith, v.released_bound l t, v.homes_bound tag k home);
  homes_bound = v.homes_bound;
}

pub end_connection-Valid :
    (m : Console) (k : Text) (tag : ℕ) (reason : ConsoleError)
    → lookup tag m.homes ≡ some k
    → Valid m
    → Valid (end_connection m k tag reason)
unfolding end_connection
end_connection-Valid m k tag reason home v = elim (Option-cases (lookup k m.connections)) [
  | inl e ↦ rw (e, end_connection) (release-Valid m k tag home (λ c f. absurd (cc (sym e ∙ f))) v)
  | inr (c, e) ↦ elim (Bool-cases (c.tag == tag)) [
    | inr q ↦
        rw (e, end_connection)
          (rw q (
            release-Valid m k tag home
              (λ d f same_tag. ground (arith, q, ap (λ x. x.tag) (some_eq c d (sym e ∙ f)))) v))
    | inl q ↦
        let same_tag : c.tag ≡ tag = ground (arith, q) in
        rw (e, end_connection) (rw q (rw (← same_tag) (dropped-Valid m v k c e _)))
  ]
]

broadcast-homes :
    (m : Console) (k : Text) (tag : ℕ) (chunk : Text) → (broadcast m k tag chunk).homes ≡ m.homes
unfolding broadcast keep_or_drop
broadcast-homes m k tag chunk = ground arith

module _ (m : Console) (k : Text) (tag : ℕ) (chunk : Text) (v : Valid m) where
  heard-Valid : Valid (heard m k tag chunk)
  unfolding heard
  heard-Valid = elim (Bool-cases (is_empty chunk)) [
    | inl e ↦ rw e v
    | inr e ↦ rw e (broadcast-Valid m k tag chunk v)
  ]

  heard-homes : (heard m k tag chunk).homes ≡ m.homes
  unfolding heard
  heard-homes = ground (arith, broadcast-homes m k tag chunk)

  read_at-Valid :
      (problem : Option Failure)
      → lookup tag m.homes ≡ some k
      → Valid (read_at m k tag chunk problem)
  unfolding read_at
  read_at-Valid (some f) home =
      end_connection-Valid (heard m k tag chunk) k tag (console_failure f)
        (ap (lookup tag) heard-homes ∙ home) heard-Valid
  read_at-Valid none home = elim (Bool-cases (is_empty chunk)) [
    | inl e ↦ rw e (
        end_connection-Valid (heard m k tag chunk) k tag end_of_file
          (ap (lookup tag) heard-homes ∙ home) heard-Valid)
    | inr e ↦ rw e heard-Valid
  ]

pub read_round-Valid :
    (m : Console) (tag : ℕ) (chunk : Text) (problem : Option Failure)
    → Valid m
    → Valid (read_round m tag chunk problem)
unfolding read_round
read_round-Valid m tag chunk problem v = elim (Option-cases (lookup tag m.homes)) [
  | inl e ↦ rw (e, read_round) v
  | inr (k, e) ↦ rw (e, read_round) (read_at-Valid m k tag chunk v problem e)
]

-- The tag of a connection is among those of the map.
tag_listed :
    (t : ℕ) (cs : Map Text Connection) (more : List ℕ) (k : Text) (c : Connection)
    → lookup k cs ≡ some c
    → c.tag ≡ t
    → has_tag t (all_tags cs ++ more) ≡ true
unfolding lookup
tag_listed t [] more k c e q = absurd (cc e)
tag_listed t ((j, d) ∷ cs) more k c e q = ground (arith, tag_listed t cs more k c, text_eq_iff j k)

tag_kept :
    (t : ℕ) (cs : Map Text Connection) (more : List ℕ)
    → has_tag t more ≡ true
    → has_tag t (all_tags cs ++ more) ≡ true
tag_kept t [] more h = h
tag_kept t ((j, d) ∷ cs) more h = ground (arith, tag_kept t cs more)

close_manager_once : (m : Console) → m.closed ≡ true → close_manager m ≡ m
unfolding close_manager
close_manager_once m e = ground arith

abbrev emptied : Console → Console
emptied m = record m {
  closed = true;
  connections = [];
  ended = end_everything m.connections ++ m.ended;
  released = all_tags m.connections ++ m.released;
}

close_manager_open : (m : Console) → m.closed ≡ false → close_manager m ≡ emptied m
unfolding close_manager
close_manager_open m e = ground arith

emptied-Valid : (m : Console) → Valid m → Valid (emptied m)
unfolding lookup
emptied-Valid m v = record {
  goods = λ k c f. absurd (cc f);
  accounted = λ t h. elim (v.accounted t h) [
    | inl r ↦ inl (tag_kept t m.connections m.released r)
    | inr (k, c, f, q) ↦ inl (tag_listed t m.connections m.released k c f q)
  ];
  none_if_closed = λ h. refl;
  released_bound = λ h. absurd (cc h);
  homes_bound = v.homes_bound;
}

pub close_manager-Valid : (m : Console) → Valid m → Valid (close_manager m)
close_manager-Valid m v = elim (Bool-cases m.closed) [
  | inl e ↦ subst Valid (sym (close_manager_once m e)) v
  | inr e ↦ subst Valid (sym (close_manager_open m e)) (emptied-Valid m v)
]

pub consume_chunk-Valid : (m : Console) (k : Text) (id : ℕ) → Valid m → Valid (consume_chunk m k id)
unfolding consume_chunk
consume_chunk-Valid m k id v = elim (Option-cases (lookup k m.connections)) [
  | inl e ↦ rw (e, consume_chunk) v
  | inr (c, e) ↦
      rw (e, consume_chunk)
        (changed-Valid m v k c e (record c { clients = take_oldest id c.clients }) m.next_id m.ended
          (take_oldest-Well m.replay_bytes m.next_id id c (v.goods k c e).well) refl refl
          (omega arith))
]
