-- ===== src/Retention/Members.antt =====
-- Which jobs are to be pruned (`cleanupLocked` of internal/jobs/retention.go).
use provisioning_station.Base.{
  Bool-cases, List, Map, Memᴰ, Text, [], ap, arith, contains, drop, false, inl, inr, lookup, refl,
  some, subst, suc, sym, take, text_eq, text_eq_iff, text_key, true, zero, ℕ, ◌∙◌, ◌∷◌, ◌≡◌, ◌⊎◌,
}
use provisioning_station.Jobs.Model.{Job, terminal}
use provisioning_station.Jobs.State.{Manager}
use provisioning_station.Retention.Cleaning.{to_prune}
use provisioning_station.Retention.Model.{
  all_jobs, completed_job_limit, completed_jobs, completed_of, insert_job, jobs_after, newer,
  sort_jobs,
}

pub insert_job-Memᴰ : (j x : Job) (js : List Job) → Memᴰ x (insert_job j js) → (x ≡ j) ⊎ Memᴰ x js
unfolding insert_job
insert_job-Memᴰ j x [] (Memᴰ.head e) = inl e
insert_job-Memᴰ j x [] (Memᴰ.tail i) = inr i
insert_job-Memᴰ j x (k ∷ ks) i = elim (Bool-cases (newer k j)) [
  | inl e ↦ elim (rw e at i) [
    | Memᴰ.head q ↦ inr (Memᴰ.head q)
    | Memᴰ.tail rest ↦ elim (insert_job-Memᴰ j x ks rest) [
      | inl q ↦ inl q
      | inr r ↦ inr (Memᴰ.tail r)
    ]
  ]
  | inr e ↦ elim (rw e at i) [ Memᴰ.head q ↦ inl q | Memᴰ.tail rest ↦ inr rest ]
]

pub sort_jobs-Memᴰ : (x : Job) (js : List Job) → Memᴰ x (sort_jobs js) → Memᴰ x js
unfolding sort_jobs
sort_jobs-Memᴰ x [] i = i
sort_jobs-Memᴰ x (j ∷ js) i = elim (insert_job-Memᴰ j x (sort_jobs js) i) [
  | inl e ↦ Memᴰ.head e
  | inr r ↦ Memᴰ.tail (sort_jobs-Memᴰ x js r)
]

pub completed_of-Memᴰ :
    (x : Job) (js : List Job) → Memᴰ x (completed_of js) → Memᴰ x js × (terminal x.state ≡ true)
completed_of-Memᴰ x [] i = elim i [ ]
completed_of-Memᴰ x (j ∷ js) i = elim (Bool-cases (terminal j.state)) [
  | inl e ↦ elim (rw e at i) [
    | Memᴰ.head q ↦ (Memᴰ.head q, ap (λ y. terminal y.state) q ∙ e)
    | Memᴰ.tail r ↦ let (there, ended) = completed_of-Memᴰ x js r in (Memᴰ.tail there, ended)
  ]
  | inr e ↦ let (there, ended) = completed_of-Memᴰ x js (rw e at i) in (Memᴰ.tail there, ended)
]

pub drop-Memᴰ {ℓ} : {A : Type ℓ} (n : ℕ) (x : A) (xs : List A) → Memᴰ x (drop n xs) → Memᴰ x xs
drop-Memᴰ zero x xs i = i
drop-Memᴰ (suc n) x [] i = i
drop-Memᴰ (suc n) x (y ∷ ys) i = Memᴰ.tail (drop-Memᴰ n x ys i)

-- A job that is pruned is one of the manager's, and it has ended.
pub to_prune-Memᴰ :
    (m : Manager) (j : Job)
    → Memᴰ j (to_prune m)
    → Memᴰ j (all_jobs m.jobs) × (terminal j.state ≡ true)
unfolding completed_jobs
to_prune-Memᴰ m j i = completed_of-Memᴰ j (all_jobs m.jobs) (
    sort_jobs-Memᴰ j (completed_of (all_jobs m.jobs))
      (drop-Memᴰ completed_job_limit j (completed_jobs m) i))

pub insert_job-there : (j x : Job) (js : List Job) → (x ≡ j) ⊎ Memᴰ x js → Memᴰ x (insert_job j js)
unfolding insert_job
insert_job-there j x [] (inl e) = Memᴰ.head e
insert_job-there j x [] (inr i) = elim i [ ]
insert_job-there j x (k ∷ ks) i = elim (Bool-cases (newer k j)) [
  | inl e ↦ rw e (elim i [
    | inl q ↦ Memᴰ.tail (insert_job-there j x ks (inl q))
    | inr (Memᴰ.head q) ↦ Memᴰ.head q
    | inr (Memᴰ.tail r) ↦ Memᴰ.tail (insert_job-there j x ks (inr r))
  ])
  | inr e ↦ rw e (elim i [ inl q ↦ Memᴰ.head q | inr r ↦ Memᴰ.tail r ])
]

pub sort_jobs-there : (x : Job) (js : List Job) → Memᴰ x js → Memᴰ x (sort_jobs js)
unfolding sort_jobs
sort_jobs-there x [] i = elim i [ ]
sort_jobs-there x (j ∷ js) (Memᴰ.head e) = insert_job-there j x (sort_jobs js) (inl e)
sort_jobs-there x (j ∷ js) (Memᴰ.tail i) =
    insert_job-there j x (sort_jobs js) (inr (sort_jobs-there x js i))

pub completed_of-there :
    (x : Job) (js : List Job) → terminal x.state ≡ true → Memᴰ x js → Memᴰ x (completed_of js)
completed_of-there x [] ended i = elim i [ ]
completed_of-there x (j ∷ js) ended (Memᴰ.head e) =
    let t : terminal j.state ≡ true = ap (λ y. terminal y.state) (sym e) ∙ ended in
    rw t (Memᴰ.head e)
completed_of-there x (j ∷ js) ended (Memᴰ.tail i) =
    let rest = completed_of-there x js ended i in
    elim (Bool-cases (terminal j.state)) [ inl t ↦ rw t (Memᴰ.tail rest) | inr t ↦ rw t rest ]

pub take_or_drop {ℓ} :
    {A : Type ℓ} (n : ℕ) (x : A) (xs : List A) → Memᴰ x xs → Memᴰ x (take n xs) ⊎ Memᴰ x (drop n xs)
take_or_drop zero x xs i = inr i
take_or_drop (suc n) x [] i = elim i [ ]
take_or_drop (suc n) x (y ∷ ys) (Memᴰ.head e) = inl (Memᴰ.head e)
take_or_drop (suc n) x (y ∷ ys) (Memᴰ.tail i) = elim (take_or_drop n x ys i) [
  | inl r ↦ inl (Memᴰ.tail r)
  | inr r ↦ inr r
]

-- A job of the map is one of `jobs_after`, unless its key was seen.
lookup-jobs_after :
    (k : Text) (x : Job) (seen : List Text) (js : Map Text Job)
    → contains seen k ≡ false
    → lookup k js ≡ some x
    → Memᴰ x (jobs_after seen js)
unfolding lookup jobs_after contains
lookup-jobs_after k x seen [] fresh h = cc h
lookup-jobs_after k x seen ((i, j) ∷ rest) fresh h = elim (Bool-cases (text_eq i k)) [
  | inl e ↦
      let f : contains seen i ≡ false =
        subst (λ t. contains seen t ≡ false) (sym ((text_eq_iff i k).0 e)) fresh in
      rw f (Memᴰ.head (cc (rw e at h)))
  | inr e ↦
      let there = lookup-jobs_after k x (i ∷ seen) rest (ground (arith, e, fresh)) (rw e at h) in
      elim (Bool-cases (contains seen i)) [ inl q ↦ rw q there | inr q ↦ rw q (Memᴰ.tail there) ]
]

pub lookup-all_jobs :
    (k : Text) (x : Job) (js : Map Text Job) → lookup k js ≡ some x → Memᴰ x (all_jobs js)
unfolding contains
lookup-all_jobs k x js h = lookup-jobs_after k x [] js refl h

-- A job of `jobs_after` is found in the map, under a key that was not seen.
jobs_after-lookup :
    (x : Job) (seen : List Text) (js : Map Text Job)
    → Memᴰ x (jobs_after seen js)
    → (k : Text) × (contains seen k ≡ false) × (lookup k js ≡ some x)
unfolding lookup jobs_after contains
jobs_after-lookup x seen [] h = elim h [ ]
jobs_after-lookup x seen ((i, j) ∷ rest) h =
    let further : Memᴰ x (jobs_after (i ∷ seen) rest)
        → (k : Text) × (contains seen k ≡ false) × (lookup k ((i, j) ∷ rest) ≡ some x) =
      λ there.
        let (k, fresh, found) = jobs_after-lookup x (i ∷ seen) rest there in
        (k, ground (arith, fresh), ground (arith, fresh, found)) in
    elim (Bool-cases (contains seen i)) [
      | inl q ↦ further (rw q at h)
      | inr q ↦ elim (rw q at h) [
        | Memᴰ.head e ↦ (i, q, ground (arith, text_eq_iff i i, e))
        | Memᴰ.tail there ↦ further there
      ]
    ]

pub all_jobs-lookup :
    (x : Job) (js : Map Text Job) → Memᴰ x (all_jobs js) → (k : Text) × (lookup k js ≡ some x)
all_jobs-lookup x js h = let (k, fresh, found) = jobs_after-lookup x [] js h in (k, found)
