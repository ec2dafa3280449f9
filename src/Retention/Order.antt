-- ===== src/Retention/Order.antt =====
-- The order of completed jobs (`cleanupLocked` of internal/jobs/retention.go).
use provisioning_station.Base.{
  All, Bool-cases, List, Memᴰ, Text, [], arith, false, if◌then◌else◌, inl, inr, refl, subst, suc,
  sym, take, text_lt, true, zero, ℕ, ◌+◌, ◌<◌, ◌∷◌, ◌≡◌, ◌⊎◌,
}
use provisioning_station.Jobs.Model.{Job}
use provisioning_station.Jobs.State.{Manager}
use provisioning_station.Retention.Model.{
  all_jobs, completed_job_limit, completed_jobs, completed_of, insert_job, newer, sort_jobs,
}

text_lt-split : (a b c : Text) → text_lt a c ≡ true → (text_lt a b ≡ true) ⊎ (text_lt b c ≡ true)
text_lt-split a b [] h = cc h
text_lt-split [] [] (z ∷ c) h = inr refl
text_lt-split [] (y ∷ b) (z ∷ c) h = inl refl
text_lt-split (x ∷ a) [] (z ∷ c) h = inr refl
text_lt-split (x ∷ a) (y ∷ b) (z ∷ c) h = ground (arith, h, text_lt-split a b c)

text_lt-asym : (a b : Text) → text_lt a b ≡ true → text_lt b a ≡ false
text_lt-asym a [] h = cc h
text_lt-asym [] (y ∷ b) h = refl
text_lt-asym (x ∷ a) (y ∷ b) h = ground (arith, h, text_lt-asym a b)

newer-asym : (a b : Job) → newer a b ≡ true → newer b a ≡ false
unfolding newer
newer-asym a b h = ground (arith, h, text_lt-asym b.id a.id)

-- Not newer than one that is not newer.
not_newer_trans : (a b c : Job) → newer a b ≡ false → newer b c ≡ false → newer a c ≡ false
unfolding newer
not_newer_trans a b c h k = ground (arith, h, k, text_lt-split c.id b.id a.id)

-- No job is newer than one before it.
Newest : List Job → Type 0
Newest [] = Unit
Newest (j ∷ js) = All (λ k. newer k j ≡ false) js × Newest js

insert_job-All :
    (P : Job → Type 0) (j : Job) (js : List Job) → P j → All P js → All P (insert_job j js)
unfolding insert_job
insert_job-All P j [] p ps = (p, tt)
insert_job-All P j (k ∷ ks) p (q, qs) = elim (Bool-cases (newer k j)) [
  | inl e ↦ rw e (q, insert_job-All P j ks p qs)
  | inr e ↦ rw e (p, (q, qs))
]

All-map {ℓ} :
    {A : Type ℓ} (P Q : A → Type 0) (f : (x : A) → P x → Q x) (xs : List A) → All P xs → All Q xs
All-map P Q f [] ps = tt
All-map P Q f (x ∷ xs) (p, ps) = (f x p, All-map P Q f xs ps)

insert_job-Newest : (j : Job) (js : List Job) → Newest js → Newest (insert_job j js)
unfolding insert_job Newest
insert_job-Newest j [] n = (tt, tt)
insert_job-Newest j (k ∷ ks) (below, n) = elim (Bool-cases (newer k j)) [
  | inl e ↦ rw e (
    insert_job-All (λ x. newer x k ≡ false) j ks (newer-asym k j e) below,
    insert_job-Newest j ks n,
  )
  | inr e ↦ rw e (
    (
      e,
      All-map (λ x. newer x k ≡ false) (λ x. newer x j ≡ false) (λ x q. not_newer_trans x k j q e)
          ks below,
    ),
    (below, n),
  )
]

sort_jobs-Newest : (js : List Job) → Newest (sort_jobs js)
unfolding sort_jobs Newest
sort_jobs-Newest [] = tt
sort_jobs-Newest (j ∷ js) = insert_job-Newest j (sort_jobs js) (sort_jobs-Newest js)

-- How many of the jobs are newer.
unfoldable pub count_newer : Job → List Job → ℕ
count_newer j [] = 0
count_newer j (k ∷ ks) = count_newer j ks + (if newer k j then 1 else 0)

count_newer-insert_job :
    (j k : Job) (ks : List Job) → count_newer j (insert_job k ks) ≡ count_newer j (k ∷ ks)
unfolding count_newer insert_job
count_newer-insert_job j k [] = refl
count_newer-insert_job j k (i ∷ is) = elim (Bool-cases (newer i k)) [
  | inl e ↦ rw e (omega (arith, count_newer-insert_job j k is))
  | inr e ↦ rw e refl
]

count_newer-sort_jobs : (j : Job) (js : List Job) → count_newer j (sort_jobs js) ≡ count_newer j js
unfolding sort_jobs count_newer
count_newer-sort_jobs j [] = refl
count_newer-sort_jobs j (k ∷ ks) =
    omega (arith, count_newer-insert_job j k (sort_jobs ks), count_newer-sort_jobs j ks)

none_newer : (j : Job) (js : List Job) → All (λ k. newer k j ≡ false) js → count_newer j js ≡ 0
unfolding count_newer
none_newer j [] h = refl
none_newer j (k ∷ ks) (e, h) = rw e (omega (arith, none_newer j ks h))

newer_irrefl : (j : Job) → newer j j ≡ false
newer_irrefl j = ground (arith, newer-asym j j)

count_newer-front :
    (n : ℕ) (j : Job) (js : List Job) → Newest js → Memᴰ j (take n js) → count_newer j js < n
unfolding count_newer Newest
count_newer-front zero j js s i = elim i [ ]
count_newer-front (suc n) j [] s i = elim i [ ]
count_newer-front (suc n) j (k ∷ ks) (below, s) (Memᴰ.head e) =
    let zeros : count_newer j ks ≡ 0 =
      none_newer j ks (subst (λ x. All (λ y. newer y x ≡ false) ks) (sym e) below) in
    let self : newer k j ≡ false = subst (λ x. newer x j ≡ false) e (newer_irrefl j) in
    ground (arith, zeros, self)
count_newer-front (suc n) j (k ∷ ks) (below, s) (Memᴰ.tail i) =
    ground (arith, count_newer-front n j ks s i)

-- A job among the first 30 has fewer than 30 that are newer.
pub count_newer-completed_jobs :
    (m : Manager) (j : Job)
    → Memᴰ j (take completed_job_limit (completed_jobs m))
    → count_newer j (completed_of (all_jobs m.jobs)) < completed_job_limit
unfolding completed_jobs
count_newer-completed_jobs m j i =
    let js = completed_of (all_jobs m.jobs) in
    let front = count_newer-front completed_job_limit j (sort_jobs js) (sort_jobs-Newest js) i in
    omega (arith, front, count_newer-sort_jobs j js)
