-- ===== src/Tests/Histories.antt =====
-- Events of a job, emitted and read in pages.
use provisioning_station.Base.{
  List, [], arith, codes, false, lookup, none, refl, some, text_eq, text_key, ℕ, ◌++◌, ◌∷◌, ◌≡◌,
}
use provisioning_station.Jobs.Events.{behind, collect, emit_locked}
use provisioning_station.Jobs.Events.Order.{HasOrder, behind-collect, cursor, emit_locked-HasOrder}
use provisioning_station.Jobs.Model.{Event, Job, canceled, terminal}
use provisioning_station.Jobs.Run.{cancel}
use provisioning_station.Jobs.Run.Channels.{SameChannels, cancel-SameChannels}
use provisioning_station.Jobs.State.{Manager, Subscriber, find_job}
use provisioning_station.Jobs.Submit.{new_job}
use provisioning_station.Tests.Samples.{admission, empty, host, request}

abbrev waiting_job : Job
waiting_job = new_job admission request

no_jobs : HasOrder empty
unfolding lookup
no_jobs = λ id job e. absurd (cc e)

emit_locked-HasOrder_example :
    HasOrder (emit_locked host 5 empty waiting_job (codes "info") (codes "Job queued")).0
unfolding lookup
emit_locked-HasOrder_example =
    emit_locked-HasOrder host 5 empty waiting_job (codes "info") (codes "Job queued") no_jobs
      (omega arith)

abbrev line : ℕ → Event
line n = record { sequence = n; time = 0; level = []; message = [] }

abbrev history : List Event
history = line 1 ∷ line 2 ∷ line 4 ∷ []

behind-collect_example :
    behind 1 history ≡ collect 1 1 history ++ behind (cursor 1 (collect 1 1 history)) history
behind-collect_example = behind-collect 0 1 1 history 4 (omega arith)

-- A waiting job that one client follows.
abbrev channel : Subscriber
channel = record { id = 1; buffer = []; closed = false }

abbrev watched : Manager
watched = record empty {
  jobs = (waiting_job.id, waiting_job) ∷ [];
  subscribers = (waiting_job.id, channel ∷ []) ∷ [];
}

abbrev after_cancel : Manager
after_cancel = cancel host 6 none watched waiting_job.id

watched_found : find_job watched waiting_job.id ≡ some waiting_job
unfolding lookup text_eq
watched_found = refl

cancel-SameChannels_example :
    ((j : Job) × (find_job after_cancel waiting_job.id ≡ some j) × (j.state ≡ canceled))
    × SameChannels waiting_job.id watched after_cancel
unfolding lookup terminal
cancel-SameChannels_example =
    cancel-SameChannels host 6 none watched waiting_job.id waiting_job watched_found refl refl refl
