-- ===== src/Capture/Stopped.antt =====
-- What a capture that was stopped has kept (internal/jobs/serial_capture.go).
use provisioning_station.Base.{
  Bool, List, Option, Text, [], ap, append-nil, append_assoc, arith, concat, false, if◌then◌else◌,
  length, ltb, none, refl, some, suc, sym, take, true, zero, ℕ, ◌++◌, ◌∙◌, ◌∷◌, ◌≡◌,
}
use provisioning_station.Capture.{
  Capture, CaptureError, CaptureEvent, FileWrite, capture_run, channel_closed, chunk_seen,
  console_ended, end_run, fail_capture, final_state, mark_limit, start_capture, stop_capture,
  stop_seen, store_chunk, take_capture, warn_once, write_chunk,
}
use provisioning_station.Capture.Transcript.{Holds, chunks_of, take_capture-Holds}
use provisioning_station.Jobs.Model.{complete, failed, truncated}

warn_once-Holds : (seen : Text) (c : Capture) → Holds seen c → Holds seen (warn_once c)
warn_once-Holds seen c s =
    elim c.metadata.truncated as (λ b. Holds seen (if b then record c { warned = true } else c)) [
      | true ↦ record {
        kept = s.kept;
        received = s.received;
        retained = s.retained;
        marked = s.marked;
        no_error = s.no_error;
      }
      | false ↦ s
    ]

fail_capture-error :
    (e : CaptureError) (c : Capture) → (fail_capture e c).write_error ≡ c.write_error
unfolding fail_capture
fail_capture-error e c = ground arith

fail_capture-Holds :
    (seen : Text) (e : CaptureError) (c : Capture) → Holds seen c → Holds seen (fail_capture e c)
unfolding fail_capture
fail_capture-Holds seen e c s =
    elim c.failure_error
      as (λ f. Holds seen (elim f [ none ↦ record c { failure_error = some e } | some f ↦ c ])) [
        | none ↦ record {
          kept = s.kept;
          received = s.received;
          retained = s.retained;
          marked = s.marked;
          no_error = s.no_error;
        }
        | some f ↦ s
      ]

end_run-Holds :
    (seen : Text) (error : Option CaptureError) (after later : Capture)
    → after.write_error ≡ error
    → (end_run error after later).write_error ≡ none
    → (after.write_error ≡ none → later.write_error ≡ none → Holds seen later)
    → Holds seen (end_run error after later)
unfolding end_run
end_run-Holds seen none after later eq h holds = holds eq h
end_run-Holds seen (some e) after later eq h holds = ground (arith, fail_capture-error e after)

capture_run-Holds :
    (events : List CaptureEvent) (seen : Text) (c : Capture)
    → Holds seen c
    → (capture_run events c).write_error ≡ none
    → Holds (seen ++ concat (chunks_of events)) (capture_run events c)
unfolding capture_run chunks_of
capture_run-Holds [] seen c s h = rw (append-nil seen) s
capture_run-Holds (stop_seen ∷ rest) seen c s h = rw (append-nil seen) s
capture_run-Holds (channel_closed true error ∷ rest) seen c s h = rw (append-nil seen) s
capture_run-Holds (channel_closed false none ∷ rest) seen c s h = rw (append-nil seen) s
capture_run-Holds (channel_closed false (some f) ∷ rest) seen c s h =
    rw (append-nil seen) (fail_capture-Holds seen (console_ended f) c s)
capture_run-Holds (chunk_seen chunk w ∷ rest) seen c s h =
    let after = take_capture chunk w c in
    let later = capture_run rest (warn_once after) in
    rw⁻¹ (append_assoc seen chunk (concat (chunks_of rest))) (
      end_run-Holds ((seen ++ chunk) ++ concat (chunks_of rest)) after.write_error after later refl
        h
        (λ no_error.
          capture_run-Holds rest (seen ++ chunk) (warn_once after)
            (warn_once-Holds (seen ++ chunk) after (take_capture-Holds seen chunk w c s no_error))))

take-nil : (n : ℕ) → take {A = ℕ} n [] ≡ []
take-nil zero = refl
take-nil (suc n) = refl

start_capture-Holds : (limit now : ℕ) → Holds [] (start_capture limit now)
start_capture-Holds limit now = record {
  kept = sym (take-nil limit);
  received = refl;
  retained = ap length (sym (take-nil limit));
  marked = ground arith;
  no_error = refl;
}

take_capture-limit :
    (chunk : Text) (w : FileWrite) (c : Capture) → (take_capture chunk w c).limit ≡ c.limit
unfolding take_capture mark_limit store_chunk write_chunk
take_capture-limit chunk w c = ground arith

fail_capture-limit : (e : CaptureError) (c : Capture) → (fail_capture e c).limit ≡ c.limit
unfolding fail_capture
fail_capture-limit e c = ground arith

warn_once-limit : (c : Capture) → (warn_once c).limit ≡ c.limit
warn_once-limit c = ground arith

end_run-limit :
    (error : Option CaptureError) (after later : Capture)
    → later.limit ≡ after.limit
    → (end_run error after later).limit ≡ after.limit
unfolding end_run
end_run-limit none after later h = h
end_run-limit (some e) after later h = fail_capture-limit e after

capture_run-limit :
    (events : List CaptureEvent) (c : Capture) → (capture_run events c).limit ≡ c.limit
unfolding capture_run end_run
capture_run-limit [] c = refl
capture_run-limit (stop_seen ∷ rest) c = refl
capture_run-limit (channel_closed true error ∷ rest) c = refl
capture_run-limit (channel_closed false none ∷ rest) c = refl
capture_run-limit (channel_closed false (some f) ∷ rest) c = fail_capture-limit (console_ended f) c
capture_run-limit (chunk_seen chunk w ∷ rest) c =
    let after = take_capture chunk w c in
    end_run-limit after.write_error after (capture_run rest (warn_once after))
      (capture_run-limit rest (warn_once after) ∙ warn_once-limit after)
    ∙ take_capture-limit chunk w c

final_state-ok :
    (run_failed : Bool) (c : Capture)
    → ¬ (final_state run_failed c ≡ failed)
    → (c.write_error ≡ none)
      × (final_state run_failed c ≡ (if c.metadata.truncated then truncated else complete))
unfolding final_state
final_state-ok run_failed c h = ground (arith, h)

-- A capture that is not left failed has counted all bytes of the chunks it got, its transcript
-- is the front of them within its limit, as long as the count of retained bytes says, and it is
-- left truncated exactly if there were more bytes than the limit, else complete.
pub stop_capture-capture_run :
    (events : List CaptureEvent) (limit started now : ℕ) (run_failed : Bool)
    (close_error : Option CaptureError)
    → ¬ (final_state run_failed (capture_run events (start_capture limit started)) ≡ failed)
    → let c = capture_run events (start_capture limit started) in
      let everything = concat (chunks_of events) in
      let m = (stop_capture now run_failed close_error c).0 in
      (c.transcript ≡ take limit everything)
      × (m.received_bytes ≡ length everything)
      × (m.retained_bytes ≡ length c.transcript)
      × (m.state ≡ (if ltb limit (length everything) then truncated else complete))
unfolding stop_capture
stop_capture-capture_run events limit started now run_failed close_error h =
    let c = capture_run events (start_capture limit started) in
    let everything = concat (chunks_of events) in
    let (no_error, state_eq) = final_state-ok run_failed c h in
    let s =
      capture_run-Holds events [] (start_capture limit started) (start_capture-Holds limit started)
        no_error in
    let same_limit : c.limit ≡ limit = capture_run-limit events (start_capture limit started) in
    let kept : c.transcript ≡ take limit everything =
      s.kept ∙ ap (λ n. take n everything) same_limit in
    let mark : c.metadata.truncated ≡ ltb limit (length everything) =
      s.marked ∙ ap (λ n. ltb n (length everything)) same_limit in
    (
      kept,
      s.received,
      s.retained ∙ ap length (sym s.kept),
      state_eq ∙ ap (λ b. if b then truncated else complete) mark,
    )
