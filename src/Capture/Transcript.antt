-- ===== src/Capture/Transcript.antt =====
-- The transcript and the counts after each chunk of a capture (internal/jobs/serial_capture.go).
use provisioning_station.Base.{
  Bool-cases, List, Text, [], ap, append-nil, arith, false, inl, inr, length, length-append, ltb,
  none, refl, suc, sym, take, zero, ℕ, ◌++◌, ◌-◌, ◌∙◌, ◌∷◌, ◌≡◌, ◌≤◌,
}
use provisioning_station.Capture.{
  Capture, CaptureEvent, FileWrite, channel_closed, chunk_seen, count_chunk, mark_limit, room_left,
  stop_seen, store_chunk, take_capture, write_chunk,
}

-- The chunks that `run` takes before it ends, if no write fails.
unfoldable pub chunks_of : List CaptureEvent → List Text
chunks_of [] = []
chunks_of (stop_seen ∷ rest) = []
chunks_of (channel_closed stopped error ∷ rest) = []
chunks_of (chunk_seen chunk w ∷ rest) = chunk ∷ chunks_of rest

-- The capture after the bytes `seen`, with no failed write.
pub record Holds (seen : Text) (c : Capture) : Type 0 where
  pub kept : c.transcript ≡ take c.limit seen
  pub received : c.metadata.received_bytes ≡ length seen
  pub retained : c.metadata.retained_bytes ≡ length (take c.limit seen)
  pub marked : c.metadata.truncated ≡ ltb c.limit (length seen)
  pub no_error : c.write_error ≡ none

take-length : (s : Text) → take (length s) s ≡ s
take-length [] = refl
take-length (c ∷ s) = ap (λ t. c ∷ t) (take-length s)

-- The front of two texts.
take-append : (n : ℕ) (s t : Text) → take n (s ++ t) ≡ take n s ++ take (n - length (take n s)) t
take-append zero s t = refl
take-append (suc n) [] t = let e : suc n ≡ suc n - 0 = omega arith in ap (λ i. take i t) e
take-append (suc n) (c ∷ s) t =
    let count : suc n - suc (length (take n s)) ≡ n - length (take n s) = omega arith in
    ap (λ u. c ∷ u) (take-append n s t) ∙ ap (λ i. c ∷ (take n s ++ take i t)) (sym count)

write_chunk-whole :
    (to_write : Text) (w : FileWrite) (c : Capture)
    → (write_chunk to_write w c).write_error ≡ none
    → (c.write_error ≡ none) × (w.written ≡ length to_write)
unfolding write_chunk
write_chunk-whole to_write w c h = ground arith

-- What storing a chunk makes of the transcript.
record Stored (seen chunk : Text) (c c' : Capture) : Type 0 where
  same_limit : c'.limit ≡ c.limit
  kept : c'.transcript ≡ take c.limit (seen ++ chunk)
  retained : c'.metadata.retained_bytes ≡ length (take c.limit (seen ++ chunk))
  same_received : c'.metadata.received_bytes ≡ c.metadata.received_bytes
  same_mark : c'.metadata.truncated ≡ c.metadata.truncated
  no_error : c.write_error ≡ none

module _ (seen chunk : Text) (w : FileWrite) (c : Capture) (kept : c.transcript ≡ take c.limit seen)
    (retained : c.metadata.retained_bytes ≡ length (take c.limit seen)) where
  room_eq : c.limit - length (take c.limit seen) ≡ room_left c
  room_eq = omega (arith, retained)

  front_eq : take c.limit (seen ++ chunk) ≡ take c.limit seen ++ take (room_left c) chunk
  front_eq = take-append c.limit seen chunk ∙ ap (λ i. take c.limit seen ++ take i chunk) room_eq

  write_chunk-Stored :
      (write_chunk (take (room_left c) chunk) w c).write_error ≡ none
      → Stored seen chunk c (write_chunk (take (room_left c) chunk) w c)
  unfolding write_chunk
  write_chunk-Stored h =
      let to_write = take (room_left c) chunk in
      let (before, whole) = write_chunk-whole to_write w c h in
      let all_written : take w.written to_write ≡ to_write =
        ap (λ n. take n to_write) whole ∙ take-length to_write in
      record {
        same_limit = refl;
        kept =
            ap (λ t. t ++ take w.written to_write) kept
            ∙ ap (λ t. take c.limit seen ++ t) all_written
            ∙ sym front_eq;
        retained = omega (
          arith,
          retained,
          whole,
          ap length front_eq,
          length-append (take c.limit seen) to_write,
        );
        same_received = refl;
        same_mark = refl;
        no_error = before;
      }

  no_room : c.limit ≤ c.metadata.retained_bytes → take c.limit (seen ++ chunk) ≡ take c.limit seen
  no_room full_now =
      let nothing : room_left c ≡ 0 = omega (arith, full_now) in
      front_eq
      ∙ ap (λ i. take c.limit seen ++ take i chunk) nothing
      ∙ append-nil (take c.limit seen)

  store_chunk-Stored :
      (store_chunk chunk w c).write_error ≡ none → Stored seen chunk c (store_chunk chunk w c)
  unfolding store_chunk
  store_chunk-Stored h = elim (Bool-cases (ltb c.metadata.retained_bytes c.limit)) [
    | inl e ↦ rw e (write_chunk-Stored (rw e at h))
    | inr e ↦
        let same_front = no_room (ground (arith, e)) in
        rw e (record {
          same_limit = refl;
          kept = kept ∙ sym same_front;
          retained = retained ∙ ap length (sym same_front);
          same_received = refl;
          same_mark = refl;
          no_error = rw e at h;
        })
  ]

module _ (seen chunk : Text) (c : Capture) (s : Holds seen c) where
  received_all : (count_chunk chunk c).metadata.received_bytes ≡ length (seen ++ chunk)
  received_all = omega (arith, s.received, length-append seen chunk)

  still_marked :
      ltb c.limit (length (seen ++ chunk)) ≡ false
      → c.metadata.truncated ≡ ltb c.limit (length (seen ++ chunk))
  still_marked h = ground (arith, h, s.marked, length-append seen chunk)

  mark_limit-Holds :
      (d : Capture)
      → Stored seen chunk (count_chunk chunk c) d
      → (mark_limit d).write_error ≡ none
      → Holds (seen ++ chunk) (mark_limit d)
  unfolding mark_limit
  mark_limit-Holds d t h =
      let kept : d.transcript ≡ take d.limit (seen ++ chunk) =
        t.kept ∙ ap (λ n. take n (seen ++ chunk)) (sym t.same_limit) in
      let retained : d.metadata.retained_bytes ≡ length (take d.limit (seen ++ chunk)) =
        t.retained ∙ ap (λ n. length (take n (seen ++ chunk))) (sym t.same_limit) in
      let received : d.metadata.received_bytes ≡ length (seen ++ chunk) =
        t.same_received ∙ received_all in
      let same_test : ltb d.limit d.metadata.received_bytes ≡ ltb d.limit (length (seen ++ chunk)) =
        ap (λ n. ltb d.limit n) received in
      let same_limit_test : ltb d.limit (length (seen ++ chunk))
          ≡ ltb c.limit (length (seen ++ chunk)) =
        ap (λ n. ltb n (length (seen ++ chunk))) t.same_limit in
      elim (Bool-cases (ltb d.limit d.metadata.received_bytes)) [
        | inl e ↦ rw e (record {
          kept = kept;
          received = received;
          retained = retained;
          marked = sym e ∙ same_test;
          no_error = rw e at h;
        })
        | inr e ↦ rw e (record {
          kept = kept;
          received = received;
          retained = retained;
          marked =
              t.same_mark
              ∙ still_marked (sym same_limit_test ∙ sym same_test ∙ e)
              ∙ sym same_limit_test;
          no_error = rw e at h;
        })
      ]

mark_limit-error : (c : Capture) → (mark_limit c).write_error ≡ c.write_error
unfolding mark_limit
mark_limit-error c = ground arith

pub take_capture-Holds :
    (seen chunk : Text) (w : FileWrite) (c : Capture)
    → Holds seen c
    → (take_capture chunk w c).write_error ≡ none
    → Holds (seen ++ chunk) (take_capture chunk w c)
unfolding take_capture
take_capture-Holds seen chunk w c s h =
    let d = store_chunk chunk w (count_chunk chunk c) in
    mark_limit-Holds seen chunk c s d
      (store_chunk-Stored seen chunk w (count_chunk chunk c) s.kept s.retained
        (sym (mark_limit-error d) ∙ h))
      h
