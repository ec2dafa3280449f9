-- ===== src/Jobs/Run/Life.antt =====
-- What holds over every sequence of critical sections.
use provisioning_station.Base.{Text, arith, refl, some, ◌≡◌}
use provisioning_station.Jobs.Model.{Job, running}
use provisioning_station.Jobs.Run.Begin.{start-Sound}
use provisioning_station.Jobs.Run.Change.{cancel-Sound}
use provisioning_station.Jobs.Run.Finish.{create-Sound, finish-Sound}
use provisioning_station.Jobs.Run.Keep.{
  Touched-Sound, add_task_error-Touched, begin_capture-Touched, emit-Touched, observe-Touched,
  set_capture-Touched, set_outcome-Touched, stop-Sound,
}
use provisioning_station.Jobs.Run.Retire.{cleanup-Sound, subscribe-Sound, unsubscribe-Sound}
use provisioning_station.Jobs.Run.System.{
  Reach, Sound, Sound-alike, Step, System, begins, books, cancels, captures, complains, creates,
  decides, dequeues, emits, finishes, here, next, observes, prunes, starts, stops, subscribes,
  unsubscribes,
}
use provisioning_station.Jobs.State.{Host, find_job}

-- Every critical section keeps the system sound: exactly the job of the worker is running, exactly it
-- has a context to cancel, and jobs keep their names and directories.
pub Step-Sound : (h : Host) (s t : System) → Sound s → Step h s t → Sound t
Step-Sound h s t v (creates a r) = create-Sound h s v a r
Step-Sound h s t v (cancels now io id) = cancel-Sound h s v now io id
Step-Sound h s t v (emits now id level message) =
    Touched-Sound s _ v (emit-Touched h s.manager now id level message)
Step-Sound h s t v (starts now io id m idle e) = start-Sound h s v now io id m idle e
Step-Sound h s t v (begins now io id c w) =
    Touched-Sound s _ v (begin_capture-Touched h s.manager now io id c)
Step-Sound h s t v (captures io id c w) =
    Touched-Sound s _ v (set_capture-Touched h s.manager io id c)
Step-Sound h s t v (observes now io id o message w) =
    Touched-Sound s _ v (observe-Touched h s.manager now io id o message)
Step-Sound h s t v (decides io id outcome err w) =
    Touched-Sound s _ v (set_outcome-Touched h s.manager io id outcome err)
Step-Sound h s t v (complains now id message w) =
    Touched-Sound s _ v (add_task_error-Touched h s.manager now id message)
Step-Sound h s t v (finishes now io id err w) = finish-Sound h s v now io id err w
Step-Sound h s t v stops = stop-Sound s v
Step-Sound h s t v (dequeues id rest idle q) = Sound-alike s _ refl refl refl v
Step-Sound h s t v (subscribes id after fresh m history channel e) =
    subscribe-Sound h s v id after fresh m history channel e
Step-Sound h s t v (unsubscribes id channel) = unsubscribe-Sound h s v id channel
Step-Sound h s t v (books budget) = Sound-alike s _ refl refl refl v
Step-Sound h s t v (prunes e apply need) = cleanup-Sound h s v e apply need

-- Every sequence of the critical sections of Step (submissions, cancellations, the parts of a
-- run, subscriptions, the dequeue of the worker, reservations and cleanups, also failed ones)
-- keeps a system sound: the running job is the one of the worker and is stored, exactly that job
-- has a context to cancel, and every job stands under its identifier and has its directory.
pub Reach-Sound : (h : Host) (s t : System) → Sound s → Reach h s t → Sound t
Reach-Sound h s t v here = v
Reach-Sound h s t v (next {t = u} r st) = Step-Sound h u t (Reach-Sound h s u v r) st

-- From a sound system, whatever sequence of the critical sections of Step happens, cleanups and
-- dequeues among them, two jobs that are running are the same job.
pub one_runs :
    (h : Host) (s t : System) (i j : Text) (a b : Job)
    → Sound s
    → Reach h s t
    → find_job t.manager i ≡ some a
    → find_job t.manager j ≡ some b
    → a.state ≡ running
    → b.state ≡ running
    → i ≡ j
one_runs h s t i j a b v r e f p q =
    let w = Reach-Sound h s t v r in
    ground (arith, w.running_works i a e p, w.running_works j b f q)
