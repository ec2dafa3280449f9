-- ===== src/Tests/Captures.antt =====
-- A capture with room for four bytes.
use provisioning_station.Base.{
  List, [], codes, concat, false, if◌then◌else◌, length, ltb, none, refl, sym, take, ◌∙◌, ◌∷◌, ◌≡◌,
}
use provisioning_station.Capture.{
  Capture, CaptureEvent, capture_run, chunk_seen, end_run, final_state, mark_limit, start_capture,
  stop_capture, stop_seen, store_chunk, take_capture, write_chunk,
}
use provisioning_station.Capture.Stopped.{stop_capture-capture_run}
use provisioning_station.Capture.Transcript.{chunks_of}
use provisioning_station.Jobs.Model.{complete, truncated}

abbrev boot_events : List CaptureEvent
boot_events =
    chunk_seen (codes "abc") (record { written = 3; error = none })
    ∷ chunk_seen (codes "def") (record { written = 1; error = none })
    ∷ stop_seen
    ∷ []

abbrev boot_capture : Capture
boot_capture = capture_run boot_events (start_capture 4 10)

boot_capture_kept : final_state false boot_capture ≡ truncated
unfolding capture_run take_capture store_chunk write_chunk mark_limit end_run final_state
boot_capture_kept = refl

stop_capture-capture_run_example :
    (boot_capture.transcript ≡ take 4 (concat (chunks_of boot_events)))
    × ((stop_capture 20 false none boot_capture).0.received_bytes
        ≡ length (concat (chunks_of boot_events)))
    × ((stop_capture 20 false none boot_capture).0.retained_bytes ≡ length boot_capture.transcript)
    × ((stop_capture 20 false none boot_capture).0.state
        ≡ (if ltb 4 (length (concat (chunks_of boot_events))) then truncated else complete))
stop_capture-capture_run_example =
    stop_capture-capture_run boot_events 4 10 20 false none (λ h. cc (sym boot_capture_kept ∙ h))
