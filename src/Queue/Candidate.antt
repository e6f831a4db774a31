-- ===== src/Queue/Candidate.antt =====
-- Which job a worker is offered (`selectJobCandidateTx` of src/backend/internal/repository/jobs.go).
use roomies.Base.{
  ℕ, ◌≡◌, refl, ap, Bool, true, false, ◌&&◌, Option, none, some, List, [], ◌∷◌, map, All, All-mono,
  Distinct, contains, arith, ◌==◌, ==→eq, ==_refl, if◌then◌else◌, Bool-cases, Option-cases, inl,
  inr,
}
use roomies.Base.Sql.{update_where}
use roomies.Queue.{DurableJob, is_runnable, precedes, select_job_candidate, find_job}

abbrev pub ids : List DurableJob → List ℕ
ids = map (λ j. j.id)

abbrev pub apply_if : (DurableJob → Bool) → (DurableJob → DurableJob) → DurableJob → DurableJob
apply_if p f j = if p j then f j else j

abbrev pub map_option : (DurableJob → DurableJob) → Option DurableJob → Option DurableJob
map_option f none = none
map_option f (some j) = some (f j)

module _ (p : DurableJob → Bool) (f : DurableJob → DurableJob)
    (keeps : (j : DurableJob) → (f j).id ≡ j.id) where
  pub ids-update : (js : List DurableJob) → ids (update_where p f js) ≡ ids js
  ids-update [] = refl
  ids-update (j ∷ js) = ground (arith, ids-update js, keeps j)

  pub find_job-update :
      (id : ℕ) (js : List DurableJob)
      → find_job id (update_where p f js) ≡ map_option (apply_if p f) (find_job id js)
  find_job-update id [] = refl
  find_job-update id (j ∷ js) = ground (arith, find_job-update id js, keeps j)

-- The candidate is a runnable row of the table, and no runnable row stands before it in the order.
pub record IsCandidate (now : ℕ) (js : List DurableJob) (c : DurableJob) : Type 0 where
  pub runnable : is_runnable now c ≡ true
  pub listed : contains (ids js) c.id ≡ true
  pub found : Distinct (ids js) → find_job c.id js ≡ some c
  pub first : All (λ j. is_runnable now j ≡ true → precedes j c ≡ false) js

precedes_asym : (a b : DurableJob) → precedes a b ≡ true → precedes b a ≡ false
unfolding precedes
precedes_asym a b h = ground arith

precedes_trans :
    (a b c : DurableJob) → precedes a b ≡ false → precedes b c ≡ false → precedes a c ≡ false
unfolding precedes
precedes_trans a b c h k = ground arith

none_before :
    (now : ℕ) (c d : DurableJob) (js : List DurableJob)
    → precedes c d ≡ false
    → All (λ j. is_runnable now j ≡ true → precedes j c ≡ false) js
    → All (λ j. is_runnable now j ≡ true → precedes j d ≡ false) js
none_before now c d [] e h = tt
none_before now c d (j ∷ js) e h =
    (λ r. precedes_trans j c d (h.0 r) e, none_before now c d js e h.1)

-- No runnable row is passed over.
pub none_runnable :
    (now : ℕ) (js : List DurableJob)
    → select_job_candidate now js ≡ none
    → All (λ j. is_runnable now j ≡ false) js
unfolding select_job_candidate
none_runnable now [] h = tt
none_runnable now (j ∷ js) h = elim (Option-cases (select_job_candidate now js)) [
  | inl rest ↦ (ground arith, none_runnable now js rest)
  | inr (k, rest) ↦ absurd (ground arith)
]

vacuous :
    (now : ℕ) (c : DurableJob) (js : List DurableJob)
    → All (λ j. is_runnable now j ≡ false) js
    → All (λ j. is_runnable now j ≡ true → precedes j c ≡ false) js
vacuous now c [] h = tt
vacuous now c (j ∷ js) h = (λ r. absurd (ground arith), vacuous now c js h.1)

IsCandidate-cons_skip :
    {now : ℕ} {js : List DurableJob} {c : DurableJob} (j : DurableJob)
    → (is_runnable now j ≡ true → precedes j c ≡ false)
    → IsCandidate now js c
    → IsCandidate now (j ∷ js) c
IsCandidate-cons_skip {now} {js} {c} j before h = record {
  runnable = h.runnable;
  listed = ground (arith, h.listed);
  found = λ d. elim (Bool-cases (j.id == c.id)) [
    | inl same ↦
        absurd (ground (arith, h.listed, ap (contains (ids js)) (==→eq j.id c.id same), d.0))
    | inr other ↦ rw other (h.found d.1)
  ];
  first = (before, h.first);
}

IsCandidate-cons_take :
    {now : ℕ} {js : List DurableJob} (j : DurableJob)
    → is_runnable now j ≡ true
    → All (λ k. is_runnable now k ≡ true → precedes k j ≡ false) js
    → IsCandidate now (j ∷ js) j
unfolding precedes
IsCandidate-cons_take {now} {js} j r before = record {
  runnable = r;
  listed = ground arith;
  found = λ d. rw (==_refl j.id);
  first = (λ _. ground arith, before);
}

pub select_job_candidate-IsCandidate :
    (now : ℕ) (js : List DurableJob) {c : DurableJob}
    → select_job_candidate now js ≡ some c
    → IsCandidate now js c
unfolding select_job_candidate
select_job_candidate-IsCandidate now [] h = cc
select_job_candidate-IsCandidate now (j ∷ js) {c} h = elim (Bool-cases (is_runnable now j)) [
  | inr idle ↦
      IsCandidate-cons_skip j (λ r. absurd (ground arith))
        (select_job_candidate-IsCandidate now js (rw idle at h))
  | inl ready ↦ elim (Option-cases (select_job_candidate now js)) [
    | inl rest ↦
        let e : j ≡ c = ground arith in
        rw (← e) (IsCandidate-cons_take j ready (vacuous now j js (none_runnable now js rest)))
    | inr (k, rest) ↦
        let ih = select_job_candidate-IsCandidate now js rest in
        elim (Bool-cases (precedes k j)) [
          | inl earlier ↦
              let e : k ≡ c = ground arith in
              rw (← e) (IsCandidate-cons_skip j (λ r. precedes_asym k j earlier) ih)
          | inr later ↦
              let e : j ≡ c = ground arith in
              rw (← e) (IsCandidate-cons_take j ready (none_before now k j js later ih.first))
        ]
  ]
]

not_runnable_before :
    (now : ℕ) (c k : DurableJob)
    → (is_runnable now k ≡ true → precedes k c ≡ false)
    → (is_runnable now k && precedes k c) ≡ false
not_runnable_before now c k h = elim (Bool-cases (is_runnable now k)) [
  | inl ready ↦ ground (arith, h ready)
  | inr idle ↦ ground arith
]

-- The job that a worker is offered may run, is a row of the table, and no row that may run stands
-- before it in the order of the query.
pub select_job_candidate_first :
    (now : ℕ) (js : List DurableJob) {c : DurableJob}
    → select_job_candidate now js ≡ some c
    → (is_runnable now c ≡ true)
      × (contains (ids js) c.id ≡ true)
      × All (λ k. (is_runnable now k && precedes k c) ≡ false) js
select_job_candidate_first now js {c} h =
    let cand = select_job_candidate-IsCandidate now js h in
    (cand.runnable, cand.listed, All-mono _ _ js (not_runnable_before now c) cand.first)
