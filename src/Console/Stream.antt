-- ===== src/Console/Stream.antt =====
-- What the subscribers of a console get (`broadcast` of internal/serialconsole/manager.go).
use provisioning_station.Base.{
  List, Text, [], ap, append-nil, append_assoc, arith, concat, concat-append, drop, false,
  if◌then◌else◌, length, length-append, length-drop, refl, suc, sym, true, zero, ℕ, ◌++◌, ◌+◌, ◌-◌,
  ◌<◌, ◌==◌, ◌∙◌, ◌∷◌, ◌≡◌, ◌≤◌,
}
use provisioning_station.Console.Attaching.{subscribe_client}
use provisioning_station.Console.Manager.{
  add_to_ring, channel_room, has_client, last_bytes, offer, take_chunk,
}
use provisioning_station.Console.Model.{AttachRequest, Client, Connection}

-- Chunks that are read one after the other.
unfoldable pub read_all : ℕ → List Text → Connection → Connection
read_all limit [] c = c
read_all limit (chunk ∷ rest) c = read_all limit rest (take_chunk limit chunk c).0

abbrev pub queue_of : ℕ → List Client → List Text
queue_of id [] = []
queue_of id (c ∷ cs) = if c.id == id then c.queue else queue_of id cs

drop-append : (n : ℕ) (s t : Text) → n ≤ length s → drop n (s ++ t) ≡ drop n s ++ t
drop-append zero s t h = refl
drop-append (suc n) [] t h = absurd (omega arith)
drop-append (suc n) (c ∷ s) t h = drop-append n s t (omega arith)

drop-nil : (n : ℕ) → ◌≡◌ {A = Text} (drop n []) []
drop-nil zero = refl
drop-nil (suc n) = refl

drop-drop : (n k : ℕ) (s : Text) → drop n (drop k s) ≡ drop (k + n) s
drop-drop n zero s = let e : n ≡ 0 + n = omega arith in ap (λ i. drop i s) e
drop-drop n (suc k) [] = drop-nil n ∙ sym (drop-nil (suc k + n))
drop-drop n (suc k) (c ∷ s) =
    let e : suc (k + n) ≡ suc k + n = omega arith in drop-drop n k s ∙ ap (λ i. drop i (c ∷ s)) e

-- Cutting twice is cutting once.
last_bytes-append :
    (n : ℕ) (s t : Text) → last_bytes n (last_bytes n s ++ t) ≡ last_bytes n (s ++ t)
unfolding last_bytes
last_bytes-append n s t =
    let k = length s - n in
    let moved : (drop k s ++ t) ≡ drop k (s ++ t) = sym (drop-append k s t (omega arith)) in
    let count : k + (length (drop k (s ++ t)) - n) ≡ length (s ++ t) - n =
      omega (arith, length-drop k (s ++ t), length-append s t) in
    ap (λ u. drop (length u - n) u) moved
    ∙ drop-drop (length (drop k (s ++ t)) - n) k (s ++ t)
    ∙ ap (λ i. drop i (s ++ t)) count

-- The ring after chunks that were read is the end of all that was read.
read_all-ring :
    (limit : ℕ) (chunks : List Text) (c : Connection) (before : Text)
    → 1 ≤ limit
    → c.ring ≡ last_bytes limit before
    → (read_all limit chunks c).ring ≡ last_bytes limit (before ++ concat chunks)
unfolding read_all take_chunk add_to_ring
read_all-ring limit [] c before l h = h ∙ ap (last_bytes limit) (sym (append-nil before))
read_all-ring limit (chunk ∷ rest) c before l h =
    let some_limit : (limit == 0) ≡ false = ground arith in
    let ring : add_to_ring limit c.ring chunk ≡ last_bytes limit (before ++ chunk) =
      rw some_limit
        (ap (λ r. last_bytes limit (r ++ chunk)) h ∙ last_bytes-append limit before chunk) in
    read_all-ring limit rest (take_chunk limit chunk c).0 (before ++ chunk) l ring
    ∙ ap (last_bytes limit) (append_assoc before chunk (concat rest))

-- A client with room in its channel keeps its place and gets the chunk.
offer-queue :
    (chunk : Text) (id : ℕ) (cs : List Client)
    → has_client id cs ≡ true
    → length (queue_of id cs) < channel_room
    → (has_client id (offer chunk cs).0 ≡ true)
      × (queue_of id (offer chunk cs).0 ≡ queue_of id cs ++ chunk ∷ [])
unfolding offer
offer-queue chunk id [] h l = absurd (cc h)
offer-queue chunk id (c ∷ cs) h l = ground (arith, offer-queue chunk id cs)

read_all-queue :
    (limit : ℕ) (chunks : List Text) (id : ℕ) (c : Connection)
    → has_client id c.clients ≡ true
    → length (queue_of id c.clients) + length chunks ≤ channel_room
    → queue_of id (read_all limit chunks c).clients ≡ queue_of id c.clients ++ chunks
unfolding read_all take_chunk
read_all-queue limit [] id c h l = sym (append-nil _)
read_all-queue limit (chunk ∷ rest) id c h l =
    let (stays, gets) = offer-queue chunk id c.clients h (omega (arith, l)) in
    let count : length (queue_of id (offer chunk c.clients).0) + length rest ≤ channel_room =
      omega (arith, l, ap length gets, length-append (queue_of id c.clients) (chunk ∷ [])) in
    read_all-queue limit rest id (take_chunk limit chunk c).0 stays count
    ∙ ap (λ q. q ++ rest) gets
    ∙ append_assoc (queue_of id c.clients) (chunk ∷ []) rest

-- A new client's channel holds the ring.
subscribed_queue :
    (id : ℕ) (r : AttachRequest) (c : Connection)
    → r.replay ≡ true
    → (has_client id (subscribe_client id r c).clients ≡ true)
      × (concat (queue_of id (subscribe_client id r c).clients) ≡ c.ring)
      × (length (queue_of id (subscribe_client id r c).clients) ≤ 1)
unfolding subscribe_client
subscribed_queue id r c h = let nil = append-nil c.ring in ground arith

-- If the ring holds the end of what a device has sent, within a limit of at least one byte, and
-- a client joins with replay and then fewer than 128 chunks are read, the channel of the client
-- holds that end followed by all the chunks, and the ring holds the end of the whole.
pub read_all-subscribe_client :
    (limit id : ℕ) (r : AttachRequest) (c : Connection) (before : Text) (chunks : List Text)
    → 1 ≤ limit
    → c.ring ≡ last_bytes limit before
    → r.replay ≡ true
    → length chunks < channel_room
    → (let after = read_all limit chunks (subscribe_client id r c) in
        (concat (queue_of id after.clients) ≡ last_bytes limit before ++ concat chunks)
        × (after.ring ≡ last_bytes limit (before ++ concat chunks)))
unfolding subscribe_client
read_all-subscribe_client limit id r c before chunks l h replay room =
    let (there, held, few) = subscribed_queue id r c replay in
    let gets =
      read_all-queue limit chunks id (subscribe_client id r c) there (omega (arith, room, few)) in
    (
      ap concat gets
          ∙ concat-append (queue_of id (subscribe_client id r c).clients) chunks
          ∙ ap (λ t. t ++ concat chunks) (held ∙ h),
      read_all-ring limit chunks (subscribe_client id r c) before l h,
    )
