-- ===== src/Retention/Leads.antt =====
-- Where the identifier of a submission leads after a cleanup (`cleanupLocked` of
-- internal/jobs/retention.go).
use provisioning_station.Base.{
  Bool, Bool-cases, Memᴰ, Text, [], ap, arith, inl, inr, insert, lookup, lookup-erase,
  lookup-insert, none, some, subst, sym, text_eq, text_eq_iff, text_key, ℕ, ◌∙◌, ◌≡◌, ◌≢◌, ◌⊎◌,
}
use provisioning_station.Jobs.Events.{close_subscribers}
use provisioning_station.Jobs.Model.{Job}
use provisioning_station.Jobs.State.{Host, Manager}
use provisioning_station.Retention.Buried.{Tombed}
use provisioning_station.Retention.Cleaning.{
  cleanup, expire_submission, forget_job, to_prune, tombstone_of,
}
use provisioning_station.Retention.Guarded.{Keyed, Linked}
use provisioning_station.Retention.Members.{to_prune-Memᴰ}
use provisioning_station.Retention.Model.{CleanupEnv, all_jobs, is_active}
use provisioning_station.Retention.Rule.{IsKept, cleanup_rule}

-- The identifier of a submission leads to its job, which is there, or else to the tombstone of it.
unfoldable pub Leads : Host → Text → Text → Job → Manager → Type 0
Leads h rid jid job m =
    ((lookup rid m.submissions ≡ some jid)
      × (lookup jid m.jobs ≡ some job)
      × (lookup rid m.expired ≡ none))
    ⊎ (lookup rid m.expired ≡ some (tombstone_of h job))

module _ (h : Host) (m : Manager) (rid jid : Text) (job : Job) (keyed : Keyed m) (linked : Linked m)
    (known : lookup rid m.submissions ≡ some jid) (found : lookup jid m.jobs ≡ some job)
    (asked : job.request.request_id ≡ rid) (given : rid ≢ []) where
  -- The job under the identifier is the one.
  job_of : (j : Job) → Memᴰ j (all_jobs m.jobs) → j.id ≡ jid → j ≡ job
  job_of j there alike = cc (sym (keyed j there) ∙ ap (λ k. lookup k m.jobs) alike ∙ found)

  expire_submission-Leads :
      (m' : Manager) (j : Job)
      → Memᴰ j (all_jobs m.jobs)
      → lookup j.request.request_id m.submissions ≡ some j.id
      → Leads h rid jid job m'
      → Leads h rid jid job (expire_submission h j m')
  unfolding expire_submission Leads
  expire_submission-Leads m' j there link still =
      let inserted = lookup-insert rid j.request.request_id (tombstone_of h j) m'.expired in
      elim (Bool-cases (text_eq j.request.request_id rid)) [
        | inl e ↦
            let alike : j.id ≡ jid = cc (
              sym link
              ∙ ap (λ r. lookup r m.submissions) ((text_eq_iff j.request.request_id rid).0 e)
              ∙ known) in
            inr (
              subst
                (λ x.
                  lookup rid (insert j.request.request_id (tombstone_of h j) m'.expired)
                  ≡ some (tombstone_of h x))
                (job_of j there alike) (ground (arith, e, inserted)))
        | inr e ↦ elim still [
          | inl (q, f, x) ↦ inl (
            ground (arith, e, q, lookup-erase rid j.request.request_id m'.submissions),
            f,
            ground (arith, e, x, inserted),
          )
          | inr t ↦ inr (ground (arith, e, t, inserted))
        ]
      ]

  -- The job itself is forgotten only when its identifier has expired.
  forget_job-Leads :
      (m' : Manager) (stays : Bool) (j : Job)
      → Memᴰ j (all_jobs m.jobs)
      → Tombed h j m'
      → Leads h rid jid job m'
      → Leads h rid jid job (forget_job stays j m')
  unfolding forget_job close_subscribers Leads Tombed
  forget_job-Leads m' stays j there tombed still = elim still [
    | inr t ↦ inr t
    | inl (q, f, x) ↦ elim (Bool-cases (text_eq j.id jid)) [
      | inr e ↦ inl (q, ground (arith, e, f, lookup-erase jid j.id m'.jobs), x)
      | inl e ↦
          let one : j ≡ job = job_of j there ((text_eq_iff j.id jid).0 e) in
          let same_rid : j.request.request_id ≡ rid = ap (λ y. y.request.request_id) one ∙ asked in
          let tomb = tombed (λ none_given. given (sym same_rid ∙ none_given)) in
          inr (
            ap (λ r. lookup r m'.expired) (sym same_rid)
            ∙ tomb
            ∙ ap (λ y. some (tombstone_of h y)) one)
    ]
  ]

  Leads-IsKept : IsKept h (λ j. Memᴰ j (to_prune m)) (is_active m) (λ m' d. Leads h rid jid job m')
  unfolding Leads
  Leads-IsKept = record {
    wrote = λ m' d j e p. p;
    expired = λ m' d j e g p.
        let there = (to_prune-Memᴰ m j e).0 in
        expire_submission-Leads m' j there (linked j there g) p;
    removed = λ m' d j e b p. p;
    forgotten = λ m' d stays j e b x p. forget_job-Leads m' stays j (to_prune-Memᴰ m j e).0 x p;
    evicted = λ m' d a idle p. p;
  }

-- If each job stands under its identifier once and the submissions of the jobs are registered, a
-- submission identifier that is given, has not expired and leads to its job before a cleanup
-- leads afterwards to that same job, which is still there, and has not expired, or else it has
-- expired with the tombstone of that job, whatever fails in the cleanup: no accepted submission
-- becomes unknown or dangling.
pub cleanup-Leads :
    (h : Host) (s : CleanupEnv) (m : Manager) (apply : Bool) (need : ℕ) (rid jid : Text) (job : Job)
    → Keyed m
    → Linked m
    → lookup rid m.submissions ≡ some jid
    → lookup jid m.jobs ≡ some job
    → job.request.request_id ≡ rid
    → rid ≢ []
    → lookup rid m.expired ≡ none
    → Leads h rid jid job (cleanup h s m apply need).0.manager
unfolding Leads
cleanup-Leads h s m apply need rid jid job keyed linked known found asked given fresh =
    cleanup_rule h s m apply need (λ m' d. Leads h rid jid job m')
      (Leads-IsKept h m rid jid job keyed linked known found asked given)
      (inl (known, found, fresh))
