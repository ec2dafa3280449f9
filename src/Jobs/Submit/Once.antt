-- ===== src/Jobs/Submit/Once.antt =====
-- Exactly-once admission: `CreateSubmissionContext` under a request identifier that is in use.
use provisioning_station.Base.{
  Bool, Text, [], ap, arith, inl, inr, lookup, lookup-insert_self, none, refl, some, text_eq_iff,
  text_key, true, ◌∙◌, ◌≡◌, ◌≢◌,
}
use provisioning_station.Jobs.Model.{
  Job, Request, clone_job, clone_request, clone_request_idem, is_request_id,
}
use provisioning_station.Jobs.State.{Host, Manager, conflict, inspect_job}
use provisioning_station.Jobs.Submit.{
  Admission, Ensure, Submitted, accepted, create_submission, known_submission, refused, replayed,
}
use provisioning_station.Jobs.Submit.Enter.{enter-Entered}
use provisioning_station.Jobs.Submit.Replay.{
  Admitted, Holds, IsEnsure, admit-Admitted, create-accepted, create_context-accepted, replay_known,
  unknown_parts,
}
use provisioning_station.Retention.Gate.{GateEnv, station_ensure, station_ensure-IsEnsure}
use provisioning_station.Retention.Guarded.{Linked}

-- What is known is answered from what is stored.
module _ (h : Host) (ensure : Ensure) (a : Admission) (m : Manager) (r : Request) where
  pub create_known :
      (answer : Submitted)
      → is_request_id r.request_id ≡ true
      → m.admission_error ≡ none
      → known_submission h a m (clone_request r) ≡ some answer
      → create_submission h ensure a m r ≡ (m, answer)
  unfolding create_submission clone_request
  create_known answer v e k = ground arith

pub nonempty : (t : Text) → is_request_id t ≡ true → t ≢ []
unfolding is_request_id
nonempty t v e = ground arith

inspected_request :
    (available : Bool) (job : Job) (s : Request)
    → job.request ≡ clone_request s
    → (inspect_job available job).request ≡ clone_request s
unfolding inspect_job clone_job
inspected_request available job s e = ap clone_request e ∙ clone_request_idem s

inspected_id : (available : Bool) (job : Job) → (inspect_job available job).id ≡ job.id
unfolding inspect_job clone_job
inspected_id available job = refl

-- While admission is open and the manager holds a submission under a well-formed identifier, a
-- request with that identifier never changes the manager: one with the same JSON is answered by the
-- job held, and one with other JSON is refused as a conflict.
pub create-Holds :
    (h : Host) (ensure : Ensure) (a : Admission) (m : Manager) (r s : Request) (jid : Text)
    → is_request_id r.request_id ≡ true
    → Holds m r.request_id jid s
    → ((create_submission h ensure a m r).0 ≡ m)
      × (h.marshal (clone_request s) ≡ h.marshal (clone_request r)
          → (job : Job) × ((create_submission h ensure a m r).1 ≡ replayed job) × (job.id ≡ jid))
      × (h.marshal (clone_request s) ≢ h.marshal (clone_request r)
          → (create_submission h ensure a m r).1 ≡ refused (conflict r.request_id))
create-Holds h ensure a m r s jid v o =
    let known =
      replay_known h a m r o.job jid (nonempty r.request_id v) o.unexpired o.registered o.found in
    let ran = create_known h ensure a m r _ v o.admits known in
    let q = inspected_request a.available o.job s o.request_kept in
    let i = inspected_id a.available o.job ∙ o.named in
    let eq = text_eq_iff (h.marshal (clone_request s)) (h.marshal (clone_request r)) in
    (
      ground (arith, ran),
      λ e. (inspect_job a.available o.job, ground (arith, ran, q, eq, e), i),
      λ ne. ground (arith, ran, q, eq, ne),
    )

before_open :
    (h : Host) (ensure : Ensure) (a : Admission) (m : Manager) (r : Request) (m' : Manager)
    (job : Job)
    → IsEnsure ensure
    → Linked m
    → r.request_id ≢ []
    → m.admission_error ≡ none
    → known_submission h a m r ≡ none
    → (d : Admitted h ensure a m r m' job)
    → (d.before.admission_error ≡ none) × (lookup r.request_id d.before.expired ≡ none)
before_open h ensure a m r m' job law linked ne adm unknown d =
    let (x, s) = unknown_parts h a m r ne unknown in
    elim d.room [
      | inl e ↦ (rw e adm, rw e x)
      | inr (n, b, e) ↦ (
        rw e (law.admission_kept n (record m { budget = b }) ∙ adm),
        rw e (law.unknown_kept n (record m { budget = b }) r.request_id linked s x),
      )
    ]

entered-Holds :
    (h : Host) (ensure : Ensure) (a : Admission) (m : Manager) (r : Request) (m' : Manager)
    (job : Job)
    → IsEnsure ensure
    → Linked m
    → r.request_id ≢ []
    → m.admission_error ≡ none
    → known_submission h a m (clone_request r) ≡ none
    → Admitted h ensure a m (clone_request r) m' job
    → Holds m' r.request_id job.id r
unfolding clone_request inspect_job clone_job
entered-Holds h ensure a m r m' job law linked ne adm unknown d =
    let (b, x) = before_open h ensure a m (clone_request r) m' job law linked ne adm unknown d in
    let n =
      enter-Entered h a d.before (clone_request r) d.after job
        (create_context-accepted h a d.before (clone_request r) d.after job d.entered) in
    record {
      job = n.stored;
      admits = ground (arith, d.reserved, n.admission_kept, b);
      unexpired = ground (arith, d.reserved, n.expired_kept, x);
      registered = ground (
        arith,
        d.reserved,
        n.registered,
        n.answered,
        n.named,
        lookup-insert_self r.request_id a.random_id d.before.submissions,
      );
      found = ground (arith, d.reserved, n.found, n.answered, n.named);
      named = ground (arith, n.answered);
      request_kept = n.request_kept ∙ clone_request_idem r;
    }

-- Once a request with an identifier is accepted, the manager holds its submission under that identifier.
pub accepted-Holds :
    (h : Host) (ensure : Ensure) (a : Admission) (m : Manager) (r : Request) (m' : Manager)
    (job : Job)
    → IsEnsure ensure
    → Linked m
    → r.request_id ≢ []
    → create_submission h ensure a m r ≡ (m', accepted job)
    → Holds m' r.request_id job.id r
accepted-Holds h ensure a m r m' job law linked ne e =
    let (unknown, adm, ran) = create-accepted h ensure a m r m' job e in
    entered-Holds h ensure a m r m' job law linked ne adm unknown
      (admit-Admitted h ensure a m (clone_request r) m' job ran)

-- If the submissions of the jobs of the manager are registered, a request with a well-formed
-- identifier that was accepted once and is sent again to the manager that this left, whatever
-- room the storage gate had to make by a cleanup before and has to make now, is answered by the
-- job that it got, and the manager stays as it is: nothing is queued a second time.
pub accepted_once :
    (h : Host) (g g' : GateEnv) (a b : Admission) (m : Manager) (r : Request) (m' : Manager)
    (job : Job)
    → Linked m
    → is_request_id r.request_id ≡ true
    → create_submission h (station_ensure h g) a m r ≡ (m', accepted job)
    → ((create_submission h (station_ensure h g') b m' r).0 ≡ m')
      × ((again : Job) × ((create_submission h (station_ensure h g') b m' r).1 ≡ replayed again)
          × (again.id ≡ job.id))
accepted_once h g g' a b m r m' job linked v e =
    let o =
      accepted-Holds h (station_ensure h g) a m r m' job (station_ensure-IsEnsure h g) linked
        (nonempty r.request_id v) e in
    let (kept, again, _) = create-Holds h (station_ensure h g') b m' r r job.id v o in
    (kept, again refl)
