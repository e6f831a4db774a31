-- ===== src/Household/Refused.antt =====
-- No lost update: a version of a row is written once (src/backend/internal/repository/household.go).
use roomies.Base.{
  ℕ, ◌≤◌, ◌≡◌, refl, sym, ◌∙◌, subst, ◌⊎◌, true, false, Option, none, some, List, [], ◌∷◌, All,
  arith, ◌==◌, Bool-cases, inl, inr,
}
use roomies.Base.Sql.{count_where, update_where, delete_where}
use roomies.Base.Result.{ok, err}
use roomies.Base.Tx.{transact, >>=-eq-ok}
use roomies.Base.Keeps.{keep_transact}
use roomies.Houses.{of_member}
use roomies.Household.{
  Row, Shelf, HouseholdError, version_conflict, household_not_found, invalid_input, Resource, Verb,
  created, deleted, of_row, at_version, next_version, record_mutation, ensure_active_assignee,
  require_versioned_row, update_versioned, delete_row, insert_row, new_row, create_resource,
  update_resource, delete_versioned,
}
use roomies.Household.Stale.{
  Write, create, update, delete, creates, names, write, write_all, is_old, old_update, old_delete,
  old_updated, old_deleted,
}

module _ {B : Type 0} where
  ensure_cases :
      (house : ℕ) (o : Option ℕ) (s : Shelf B)
      → (ensure_active_assignee house o s ≡ err invalid_input)
        ⊎ (ensure_active_assignee house o s ≡ ok (tt, s))
  unfolding ensure_active_assignee
  ensure_cases house none s = inr refl
  ensure_cases house (some user) s =
      elim (Bool-cases (count_where (of_member house user) s.members == 0)) [
        | inl absent ↦ inl (ground arith)
        | inr there ↦ inr (ground arith)
      ]

  ensured :
      (house : ℕ) (o : Option ℕ) (s t : Shelf B)
      → ensure_active_assignee house o s ≡ ok (tt, t)
      → s ≡ t
  ensured house o s t h = elim (ensure_cases house o s) [ inl bad ↦ cc | inr good ↦ cc ]

  recorded :
      (house : ℕ) (actor : Option ℕ) (verb : Verb) (resource : Resource) (id : ℕ) (s t : Shelf B)
      → record_mutation house actor verb resource id s ≡ ok (tt, t)
      → t.rows ≡ s.rows
  unfolding record_mutation
  recorded house actor verb resource id s t h = ground arith

  updated_rows :
      (f : B → B) (now house id v : ℕ) (s t : Shelf B)
      → update_versioned f now house id v s ≡ ok (tt, t)
      → (1 ≤ count_where (at_version house id v) s.rows)
        × (t.rows ≡ update_where (at_version house id v) (next_version f now) s.rows)
  unfolding update_versioned require_versioned_row
  updated_rows f now house id v s t h =
      elim (Bool-cases (count_where (at_version house id v) s.rows == 0)) [
        | inr there ↦ (ground arith, ground arith)
        | inl absent ↦
            elim (Bool-cases (
              count_where (of_row house id)
                (update_where (at_version house id v) (next_version f now) s.rows)
              == 0)) [ inl gone ↦ absurd (ground arith) | inr stays ↦ absurd (ground arith) ]
      ]

  deleted_rows :
      (house id v : ℕ) (s t : Shelf B)
      → delete_row house id v s ≡ ok (tt, t)
      → (1 ≤ count_where (at_version house id v) s.rows)
        × (t.rows ≡ delete_where (at_version house id v) s.rows)
  unfolding delete_row require_versioned_row
  deleted_rows house id v s t h =
      elim (Bool-cases (count_where (at_version house id v) s.rows == 0)) [
        | inr there ↦ (ground arith, ground arith)
        | inl absent ↦
            elim (Bool-cases
              (count_where (of_row house id) (delete_where (at_version house id v) s.rows) == 0)) [
                | inl gone ↦ absurd (ground arith)
                | inr stays ↦ absurd (ground arith)
              ]
      ]

module _ {B : Type 0} (resource : Resource) (id version : ℕ) where
  Fenced : Shelf B → Type 0
  Fenced s = count_where (is_old id version) s.rows ≡ 0

  -- The write that commits fences its version.
  fences :
      (w : Write B) (s t : Shelf B)
      → count_where (λ r. r.id == id) s.rows ≤ 1
      → names id version w ≡ true
      → write resource w s ≡ ok (tt, t)
      → Fenced t
  unfolding Fenced write update_resource delete_versioned
  fences (create assignee now i house actor content) s t one named run = cc
  fences (update verb assignee f now house i v actor) s t one named run =
      let same : (i ≡ id) × (v ≡ version) = ground arith in
      let (_, s1, first, run1) = >>=-eq-ok (ensure_active_assignee house assignee) _ s run in
      let (_, s2, second, run2) = >>=-eq-ok (update_versioned f now house i v) _ s1 run1 in
      let e = ensured house assignee s s1 first in
      let (there, rows) = updated_rows f now house i v s1 s2 second in
      let rows' = recorded house (some actor) verb resource i s2 t run2 in
      let key : (1 ≤ count_where (at_version house id version) s.rows)
          × (t.rows ≡ update_where (at_version house id version) (next_version f now) s.rows) =
        subst
          (λ x.
            (1 ≤ count_where (at_version house id version) x.rows)
            × (t.rows ≡ update_where (at_version house id version) (next_version f now) x.rows))
          (sym e)
          (subst
            (λ k.
              (1 ≤ count_where (at_version house id k) s1.rows)
              × (t.rows ≡ update_where (at_version house id k) (next_version f now) s1.rows))
            same.1
            (subst
              (λ k.
                (1 ≤ count_where (at_version house k v) s1.rows)
                × (t.rows ≡ update_where (at_version house k v) (next_version f now) s1.rows))
              same.0 (there, rows' ∙ rows))) in
      rw key.1 (old_updated id version f now house s.rows one key.0)
  fences (delete house i v actor) s t one named run =
      let same : (i ≡ id) × (v ≡ version) = ground arith in
      let (_, s2, second, run2) = >>=-eq-ok (delete_row house i v) _ s run in
      let (there, rows) = deleted_rows house i v s s2 second in
      let rows' = recorded house (some actor) deleted resource i s2 t run2 in
      let key : (1 ≤ count_where (at_version house id version) s.rows)
          × (t.rows ≡ delete_where (at_version house id version) s.rows) =
        subst
          (λ k.
            (1 ≤ count_where (at_version house id k) s.rows)
            × (t.rows ≡ delete_where (at_version house id k) s.rows))
          same.1
          (subst
            (λ k.
              (1 ≤ count_where (at_version house k v) s.rows)
              × (t.rows ≡ delete_where (at_version house k v) s.rows))
            same.0 (there, rows' ∙ rows)) in
      rw key.1 (old_deleted id version house s.rows one key.0)

  not_named :
      (house : ℕ) (rs : List (Row B))
      → count_where (is_old id version) rs ≡ 0
      → count_where (at_version house id version) rs ≡ 0
  not_named house [] h = refl
  not_named house (r ∷ rs) h = ground (arith, not_named house rs)

  -- A write of a fenced version changes nothing.
  update_absent :
      (f : B → B) (now house i v : ℕ) (s : Shelf B)
      → count_where (at_version house i v) s.rows ≡ 0
      → (e : HouseholdError) × (update_versioned f now house i v s ≡ err e)
  unfolding update_versioned require_versioned_row
  update_absent f now house i v s none_there =
      elim (Bool-cases (
        count_where (of_row house i)
          (update_where (at_version house i v) (next_version f now) s.rows)
        == 0)) [
          | inl gone ↦ (household_not_found, ground arith)
          | inr stays ↦ (version_conflict, ground arith)
        ]

  delete_absent :
      (house i v : ℕ) (s : Shelf B)
      → count_where (at_version house i v) s.rows ≡ 0
      → (e : HouseholdError) × (delete_row house i v s ≡ err e)
  unfolding delete_row require_versioned_row
  delete_absent house i v s none_there =
      elim (Bool-cases
        (count_where (of_row house i) (delete_where (at_version house i v) s.rows) == 0)) [
          | inl gone ↦ (household_not_found, ground arith)
          | inr stays ↦ (version_conflict, ground arith)
        ]

  version_refused :
      (w : Write B) (s : Shelf B)
      → Fenced s
      → names id version w ≡ true
      → (e : HouseholdError) × (transact (write resource w) s ≡ (err e, s))
  unfolding Fenced write update_resource delete_versioned
  version_refused (create assignee now i house actor content) s fenced named = cc
  version_refused (update verb assignee f now house i v actor) s fenced named =
      let same : (i ≡ id) × (v ≡ version) = ground arith in
      let absent = not_named house s.rows fenced in
      let absent' : count_where (at_version house i v) s.rows ≡ 0 = ground arith in
      let (e, fails) = update_absent f now house i v s absent' in
      elim (ensure_cases house assignee s) [
        | inl nobody ↦ (invalid_input, ground arith)
        | inr there ↦ (e, ground arith)
      ]
  version_refused (delete house i v actor) s fenced named =
      let same : (i ≡ id) × (v ≡ version) = ground arith in
      let absent = not_named house s.rows fenced in
      let absent' : count_where (at_version house i v) s.rows ≡ 0 = ground arith in
      let (e, fails) = delete_absent house i v s absent' in (e, ground arith)

  -- Later writes keep the fence, where none creates a row of this id.
  fence_kept :
      (w : Write B) (s t : Shelf B)
      → creates id w ≡ false
      → Fenced s
      → write resource w s ≡ ok (tt, t)
      → Fenced t
  unfolding Fenced write update_resource delete_versioned create_resource insert_row
  fence_kept (create assignee now i house actor content) s t other fenced run =
      let (_, s1, first, run1) = >>=-eq-ok (ensure_active_assignee house assignee) _ s run in
      let (_, s2, second, run2) =
        >>=-eq-ok (insert_row (new_row i house actor now content)) _ s1 run1 in
      let e = ensured house assignee s s1 first in
      let rows' = recorded house (some actor) created resource i s2 t run2 in
      elim (Bool-cases (count_where (λ x. x.id == i) s1.rows == 0)) [
        | inr taken ↦ absurd (ground arith)
        | inl free ↦
            let rows : s2.rows ≡ new_row i house actor now content ∷ s1.rows = ground arith in
            let before : count_where (is_old id version) s1.rows ≡ 0 =
              subst (λ x. count_where (is_old id version) x.rows ≡ 0) e fenced in
            rw (rows' ∙ rows) (ground (arith, other, before))
      ]
  fence_kept (update verb assignee f now house i v actor) s t other fenced run =
      let (_, s1, first, run1) = >>=-eq-ok (ensure_active_assignee house assignee) _ s run in
      let (_, s2, second, run2) = >>=-eq-ok (update_versioned f now house i v) _ s1 run1 in
      let e = ensured house assignee s s1 first in
      let (there, rows) = updated_rows f now house i v s1 s2 second in
      let rows' = recorded house (some actor) verb resource i s2 t run2 in
      let before : count_where (is_old id version) s1.rows ≡ 0 =
        subst (λ x. count_where (is_old id version) x.rows ≡ 0) e fenced in
      rw (rows' ∙ rows) (omega (arith, before, old_update id version f now house i v s1.rows))
  fence_kept (delete house i v actor) s t other fenced run =
      let (_, s2, second, run2) = >>=-eq-ok (delete_row house i v) _ s run in
      let (there, rows) = deleted_rows house i v s s2 second in
      let rows' = recorded house (some actor) deleted resource i s2 t run2 in
      rw (rows' ∙ rows) (omega (arith, fenced, old_delete id version house i v s.rows))

  fence_stays :
      (ws : List (Write B)) (s : Shelf B)
      → All (λ w. creates id w ≡ false) ws
      → Fenced s
      → Fenced (write_all resource ws s)
  unfolding write_all
  fence_stays [] s others fenced = fenced
  fence_stays (w ∷ ws) s others fenced = fence_stays ws (transact (write resource w) s).1 others.1 (
      keep_transact (λ x y. Fenced x → Fenced y) (write resource w) s (λ h. h)
        (λ x r run h. fence_kept w x r.1 others.0 h run) fenced)

  -- No lost update. A user changes or deletes a row at some version, and this commits. From then on,
  -- whatever other writes follow, none creating a row of the same id, any change or deletion of the
  -- row at that version is refused and leaves the table as it is.
  pub stale_version_refused :
      (w late : Write B) (ws : List (Write B)) (s t : Shelf B)
      → count_where (λ r. r.id == id) s.rows ≤ 1
      → names id version w ≡ true
      → write resource w s ≡ ok (tt, t)
      → All (λ x. creates id x ≡ false) ws
      → names id version late ≡ true
      → (e : HouseholdError) × (transact (write resource late) (write_all resource ws t)
          ≡ (err e, write_all resource ws t))
  stale_version_refused w late ws s t one named run others named_late =
      version_refused late (write_all resource ws t)
        (fence_stays ws t others (fences w s t one named run)) named_late
