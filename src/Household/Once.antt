-- ===== src/Household/Once.antt =====
-- Completing an occurrence of a chore (`CompleteChore` of
-- src/backend/internal/repository/household.go).
use roomies.Base.{
  ℕ, ◌-◌, ◌≡◌, ◌≢◌, refl, ap, subst, Bool, true, false, none, some, List, [], ◌∷◌, arith, ◌==◌,
  ==_refl, ==-ne, Bool-cases, Option-cases, inl, inr,
}
use roomies.Base.Sql.{select_one, count_where}
use roomies.Base.Result.{ok, err}
use roomies.Base.Tx.{transact}
use roomies.Household.{already_completed}
use roomies.Household.Chores.{
  Chore, ChoreCompletion, ChoreTables, Recurrence, of_occurrence, is_occurrence, set_completions,
  insert_new_completion, insert_completion, logged, store_completion, complete_chore,
}

-- A row that is found is there under its id.
found_id :
    (q : ChoreCompletion → Bool) (id : ℕ) (cs : List ChoreCompletion) {f : ChoreCompletion}
    → count_where (λ x. x.id == id) cs ≡ 0
    → select_one q cs ≡ some f
    → (f.id == id) ≡ false
found_id q id [] fresh h = cc
found_id q id (x ∷ cs) {f} fresh h = elim (Bool-cases (q x)) [
  | inl here ↦
      let e : x ≡ f = ground arith in subst (λ y. (y.id == id) ≡ false) e (ground (arith, fresh))
  | inr other ↦ found_id q id cs {f = f} (ground (arith, fresh)) (ground arith)
]

kept :
    (c : ChoreCompletion) (s : ChoreTables)
    → (count_where (of_occurrence c.chore_id c.occurrence_at) s.completions == 0) ≡ false
    → insert_completion c s ≡ ok (tt, s)
unfolding insert_completion
kept c s there = ground arith

present :
    (q : ChoreCompletion → Bool) (cs : List ChoreCompletion) {f : ChoreCompletion}
    → select_one q cs ≡ some f
    → (count_where q cs == 0) ≡ false
present q [] h = cc
present q (x ∷ cs) {f} h = elim (Bool-cases (q x)) [
  | inl here ↦ ground arith
  | inr other ↦ let rest = present q cs {f = f} (ground arith) in ground (arith, rest)
]

-- A completion of an occurrence that another completion has is refused.
store_again :
    (c f : ChoreCompletion) (s : ChoreTables)
    → select_one (of_occurrence c.chore_id c.occurrence_at) s.completions ≡ some f
    → (f.id == c.id) ≡ false
    → store_completion c s ≡ err already_completed
unfolding store_completion
store_again c f s there other =
    let insertion = kept c s (present _ s.completions there) in
    ground (arith, insertion, there, other)

checked :
    (rule : Recurrence) (content : Chore) (c : ChoreCompletion) (s : ChoreTables)
    (r : ChoreCompletion × ChoreTables)
    → complete_chore rule content c s ≡ ok r
    → (is_occurrence (rule.next content (c.occurrence_at - 1)) c.occurrence_at ≡ true)
      × (store_completion c s ≡ ok r)
unfolding complete_chore
checked rule content c s r h =
    elim (Bool-cases (is_occurrence (rule.next content (c.occurrence_at - 1)) c.occurrence_at)) [
      | inl good ↦ (good, ground arith)
      | inr bad ↦ absurd (ground arith)
    ]

check_passes :
    (rule : Recurrence) (content : Chore) (c : ChoreCompletion) (s : ChoreTables)
    → is_occurrence (rule.next content (c.occurrence_at - 1)) c.occurrence_at ≡ true
    → complete_chore rule content c s ≡ store_completion c s
unfolding complete_chore
check_passes rule content c s good = ground arith

none_there :
    (q : ChoreCompletion → Bool) (cs : List ChoreCompletion)
    → select_one q cs ≡ none
    → count_where q cs ≡ 0
none_there q [] h = refl
none_there q (x ∷ cs) h = ground (arith, none_there q cs)

-- The first completion of an occurrence is stored in front.
store_first :
    (c : ChoreCompletion) (s : ChoreTables)
    → count_where (of_occurrence c.chore_id c.occurrence_at) s.completions ≡ 0
    → count_where (λ x. x.id == c.id) s.completions ≡ 0
    → store_completion c s ≡ ok (c, logged c (set_completions (c ∷ s.completions) s))
unfolding store_completion insert_completion insert_new_completion
store_first c s absent fresh =
    ground (arith, absent, fresh, ==_refl c.chore_id, ==_refl c.occurrence_at, ==_refl c.id)

-- An occurrence of a chore is completed once. A completion that commits, under a new identifier, is
-- the first of its occurrence and is stored; any further completion of the occurrence, under another
-- identifier, is refused as already completed and changes nothing.
pub complete_chore_once :
    (rule : Recurrence) (content : Chore) (c late : ChoreCompletion) (s : ChoreTables)
    (r : ChoreCompletion × ChoreTables)
    → count_where (λ x. x.id == c.id) s.completions ≡ 0
    → complete_chore rule content c s ≡ ok r
    → late.chore_id ≡ c.chore_id
    → late.occurrence_at ≡ c.occurrence_at
    → c.id ≢ late.id
    → (count_where (of_occurrence c.chore_id c.occurrence_at) s.completions ≡ 0)
      × (r.1.completions ≡ c ∷ s.completions)
      × (transact (complete_chore rule content late) r.1 ≡ (err already_completed, r.1))
complete_chore_once rule content c late s r fresh run chore_eq at_eq other =
    let (good, run') = checked rule content c s r run in
    elim (Option-cases (select_one (of_occurrence c.chore_id c.occurrence_at) s.completions)) [
      | inr (f, there) ↦
          let again = store_again c f s there (found_id _ c.id s.completions fresh there) in
          absurd (ground arith)
      | inl absent ↦
          let zero_there =
            none_there (of_occurrence c.chore_id c.occurrence_at) s.completions absent in
          let t : ChoreTables = logged c (set_completions (c ∷ s.completions) s) in
          let e : r ≡ (c, t) = ground (arith, store_first c s zero_there fresh) in
          let good' : is_occurrence (rule.next content (late.occurrence_at - 1)) late.occurrence_at
              ≡ true =
            rw at_eq good in
          let there : select_one (of_occurrence late.chore_id late.occurrence_at) t.completions
              ≡ some c =
            ground (arith, ==_refl c.chore_id, ==_refl c.occurrence_at) in
          let again = store_again late c t there (==-ne c.id late.id other) in
          let same = check_passes rule content late t good' in
          (zero_there, ap (λ z. z.1.completions) e, rw e (ground arith))
    ]
