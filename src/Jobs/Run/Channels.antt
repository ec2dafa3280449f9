-- ===== src/Jobs/Run/Channels.antt =====
-- The channels of the subscribers of a job that is canceled while it waits.
use provisioning_station.Base.{
  Failure, List, Option, Text, [], ap, arith, codes, false, length, lookup, lookup-insert_self,
  none, refl, some, subst, text_key, ℕ, ◌+◌, ◌∙◌, ◌∷◌, ◌≡◌,
}
use provisioning_station.Jobs.Events.{append_event, deliver, emit_locked}
use provisioning_station.Jobs.Events.Cases.{emit_cases}
use provisioning_station.Jobs.Model.{Event, Job, canceled, terminal}
use provisioning_station.Jobs.Persist.{persist_locked}
use provisioning_station.Jobs.Run.{announce, cancel}
use provisioning_station.Jobs.Run.Updates.{announce-Updates}
use provisioning_station.Jobs.State.{
  Host, Manager, Subscriber, find_job, or_nil, put_job, subscribers_of,
}

length-deliver : (event : Event) (ss : List Subscriber) → length (deliver event ss) ≡ length ss
unfolding deliver
length-deliver event [] = refl
length-deliver event (s ∷ ss) = omega (arith, length-deliver event ss)

-- As many channels are open for a job in both.
abbrev pub SameChannels : Text → Manager → Manager → Type 0
SameChannels id m m' = length (subscribers_of m' id) ≡ length (subscribers_of m id)

append_event-SameChannels :
    (h : Host) (now : ℕ) (m : Manager) (job : Job) (level message : Text)
    → SameChannels job.id m (append_event h now m job level message).0
unfolding append_event
append_event-SameChannels h now m job level message =
    let event : Event = record {
      sequence = job.event_count + 1;
      time = now;
      level = level;
      message = message;
    } in
    let after = deliver event (subscribers_of m job.id) in
    ap (λ o. length (or_nil o)) (lookup-insert_self job.id after m.subscribers)
    ∙ length-deliver event (subscribers_of m job.id)

emit_locked-SameChannels :
    (h : Host) (now : ℕ) (m : Manager) (job : Job) (level message : Text)
    → SameChannels job.id m (emit_locked h now m job level message).0
emit_locked-SameChannels h now m job level message =
    emit_cases h now m job level message (λ r. SameChannels job.id m r.0)
      (λ j text s.
        subst (λ id. SameChannels id m (append_event h now m j level text).0) (ap (λ k. k.id) s)
          (append_event-SameChannels h now m j level text))
      (λ j s. refl)

persist_locked-SameChannels :
    (h : Host) (io : Option Failure) (m : Manager) (job : Job) (id : Text)
    → SameChannels id m (persist_locked h io m job).0
unfolding persist_locked
persist_locked-SameChannels h io m job id = ground arith

announce-SameChannels :
    (h : Host) (now : ℕ) (io : Option Failure) (m : Manager) (job : Job) (level message : Text)
    → SameChannels job.id m (announce h now io m job level message)
unfolding announce
announce-SameChannels h now io m job level message =
    let r = emit_locked h now m job level message in
    persist_locked-SameChannels h io r.0 r.1 job.id
    ∙ emit_locked-SameChannels h now m job level message

-- A waiting job without a context that is canceled, and that stands under its identifier, is
-- canceled afterwards, and as many channels of subscribers are open for it as before: canceling
-- a waiting job does not close them.
pub cancel-SameChannels :
    (h : Host) (now : ℕ) (io : Option Failure) (m : Manager) (id : Text) (job : Job)
    → find_job m id ≡ some job
    → job.id ≡ id
    → terminal job.state ≡ false
    → lookup id m.cancellers ≡ none
    → ((j : Job) × (find_job (cancel h now io m id) id ≡ some j) × (j.state ≡ canceled))
      × SameChannels id m (cancel h now io m id)
unfolding cancel
cancel-SameChannels h now io m id job found named live waiting =
    let ended : Job = record job { state = canceled; finished = some now } in
    let after : Manager =
      announce h now io (put_job m ended) ended (codes "warning")
        (codes "Job canceled before execution") in
    let u =
      announce-Updates h now io (put_job m ended) ended (codes "warning")
        (codes "Job canceled before execution") in
    let channels =
      announce-SameChannels h now io (put_job m ended) ended (codes "warning")
        (codes "Job canceled before execution") in
    let ends : cancel h now io m id ≡ after = ground arith in
    let stored : find_job after id ≡ some u.stored =
      subst (λ i. find_job after i ≡ some u.stored) named u.found in
    (
      (u.stored, ap (λ v. find_job v id) ends ∙ stored, u.state_kept),
      ap (λ v. length (subscribers_of v id)) ends
          ∙ subst (λ i. SameChannels i m after) named channels,
    )
