-- ===== src/Household/Stale.antt =====
-- Writers with an old version of a row (src/backend/internal/repository/household.go).
use roomies.Base.{
  ℕ, ◌≤◌, ◌≡◌, refl, Bool, true, false, ◌&&◌, Option, List, [], ◌∷◌, arith, leb, ◌==◌, Bool-cases,
  inl, inr,
}
use roomies.Base.Sql.{count_where, update_where, delete_where}
use roomies.Base.Tx.{transact}
use roomies.Household.{
  Row, Shelf, Action, Resource, Verb, at_version, next_version, create_resource, update_resource,
  delete_versioned,
}

-- A write to a table, by some user: the creation of a row, a change of its other columns, or a
-- deletion.
pub data Write (B : Type 0) : Type 0 where
  create : Option ℕ → ℕ → ℕ → ℕ → ℕ → B → Write B
  update : Verb → Option ℕ → (B → B) → ℕ → ℕ → ℕ → ℕ → ℕ → Write B
  delete : ℕ → ℕ → ℕ → ℕ → Write B

abbrev pub creates : {B : Type 0} → ℕ → Write B → Bool
creates id (create assignee now i house actor content) = i == id
creates id (update verb assignee f now house i version actor) = false
creates id (delete house i version actor) = false

-- The row and the version that a change or a deletion names.
abbrev pub names : {B : Type 0} → ℕ → ℕ → Write B → Bool
names id version (create assignee now i house actor content) = false
names id version (update verb assignee f now house i v actor) = i == id && v == version
names id version (delete house i v actor) = i == id && v == version

module _ {B : Type 0} (resource : Resource) where
  unfoldable pub write : Write B → Action B (Unit {0})
  unfolding create_resource update_resource delete_versioned
  write (create assignee now id house actor content) =
      create_resource resource assignee now id house actor content
  write (update verb assignee f now house id version actor) =
      update_resource resource verb assignee f now house id version actor
  write (delete house id version actor) = delete_versioned resource house id version actor

  -- The table after writes in some order, refused ones included.
  unfoldable pub write_all : List (Write B) → Shelf B → Shelf B
  unfolding write
  write_all [] s = s
  write_all (w ∷ ws) s = write_all ws (transact (write w) s).1

-- A row of this id with this version or an older one.
abbrev pub is_old : {B : Type 0} → ℕ → ℕ → Row B → Bool
is_old id version r = r.id == id && leb r.version version

module _ {B : Type 0} (id version : ℕ) where
  pub old_update :
      (f : B → B) (now house i v : ℕ) (rs : List (Row B))
      → count_where
          (is_old id version)
          (update_where (at_version house i v) (next_version f now) rs)
        ≤ count_where (is_old id version) rs
  old_update f now house i v [] = omega arith
  old_update f now house i v (r ∷ rs) = elim (Bool-cases (at_version house i v r)) [
    | inl hit ↦ ground (arith, old_update f now house i v rs)
    | inr miss ↦ ground (arith, old_update f now house i v rs)
  ]

  pub old_delete :
      (house i v : ℕ) (rs : List (Row B))
      → count_where (is_old id version) (delete_where (at_version house i v) rs)
        ≤ count_where (is_old id version) rs
  old_delete house i v [] = omega arith
  old_delete house i v (r ∷ rs) = ground (arith, old_delete house i v rs)

  no_id :
      (rs : List (Row B))
      → count_where (λ r. r.id == id) rs ≡ 0
      → (count_where (is_old id version) rs ≡ 0)
        × ((house v : ℕ) → count_where (at_version house id v) rs ≡ 0)
  no_id [] h = (refl, λ house v. refl)
  no_id (r ∷ rs) h =
      let rest = no_id rs (ground (arith, h)) in
      (ground (arith, rest.0), λ house v. ground (arith, rest.1 house v))

  -- The write of a row takes the last row of its id and version away.
  pub old_updated :
      (f : B → B) (now house : ℕ) (rs : List (Row B))
      → count_where (λ r. r.id == id) rs ≤ 1
      → 1 ≤ count_where (at_version house id version) rs
      → count_where
          (is_old id version)
          (update_where (at_version house id version) (next_version f now) rs)
        ≡ 0
  old_updated f now house [] one there = absurd (omega (arith, there))
  old_updated f now house (r ∷ rs) one there = elim (Bool-cases (r.id == id)) [
    | inl mine ↦
        let gone : count_where (λ x. x.id == id) rs ≡ 0 = ground (arith, one, mine) in
        let rest = no_id rs gone in
        let absent = rest.1 house version in
        let hit : at_version house id version r ≡ true = ground (arith, there, absent) in
        let others = old_update f now house id version rs in ground (arith, hit, rest.0, others)
    | inr other ↦ ground (arith, old_updated f now house rs, one, there)
  ]

  pub old_deleted :
      (house : ℕ) (rs : List (Row B))
      → count_where (λ r. r.id == id) rs ≤ 1
      → 1 ≤ count_where (at_version house id version) rs
      → count_where (is_old id version) (delete_where (at_version house id version) rs) ≡ 0
  old_deleted house [] one there = absurd (omega (arith, there))
  old_deleted house (r ∷ rs) one there = elim (Bool-cases (r.id == id)) [
    | inl mine ↦
        let gone : count_where (λ x. x.id == id) rs ≡ 0 = ground (arith, one, mine) in
        let rest = no_id rs gone in
        let absent = rest.1 house version in
        let hit : at_version house id version r ≡ true = ground (arith, there, absent) in
        let others = old_delete house id version rs in ground (arith, hit, rest.0, others)
    | inr other ↦ ground (arith, old_deleted house rs, one, there)
  ]
