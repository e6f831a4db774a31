-- ===== src/Household/Owned.antt =====
-- Rows under the transactions on other rows (src/backend/internal/repository/household.go).
use roomies.Base.{
  ℕ, ◌≡◌, refl, subst, sym, ◌∙◌, Bool, true, false, ◌&&◌, Option, none, some, List, [], ◌∷◌, arith,
  ◌==◌, ==→eq, ==_refl, Bool-cases, inl, inr,
}
use roomies.Base.Sql.{select_one, count_where, update_where, delete_where}
use roomies.Base.Tx.{read, modify, ◌>>=◌}
use roomies.Base.Keeps.{Keeps, keep_one, keep_bind, keep_pure, keep_read, keep_modify, keep_fail_if}
use roomies.Houses.{of_member}
use roomies.Household.{
  Verb, Resource, Row, Shelf, Action, HouseholdError, invalid_input, set_rows, of_row, at_version,
  add_mutation, mutation, new_row, record_mutation, ensure_active_assignee, require_versioned_row,
  next_version, update_versioned, delete_row, insert_row, create_resource, update_resource,
  delete_versioned,
}

select_updated :
    {A : Type 0} (p q : A → Bool) (f : A → A)
    → ((y : A) → q y ≡ true → (p y ≡ false) × (p (f y) ≡ false))
    → (xs : List A) → select_one p (update_where q f xs) ≡ select_one p xs
select_updated p q f away [] = refl
select_updated p q f away (y ∷ ys) =
    let rest = select_updated p q f away ys in
    elim (Bool-cases (q y)) [
      | inl hit ↦ let (old, new) = away y hit in ground (arith, hit, old, new, rest)
      | inr miss ↦ ground (arith, miss, rest)
    ]

select_deleted :
    {A : Type 0} (p q : A → Bool)
    → ((y : A) → q y ≡ true → p y ≡ false)
    → (xs : List A) → select_one p (delete_where q xs) ≡ select_one p xs
select_deleted p q away [] = refl
select_deleted p q away (y ∷ ys) =
    let rest = select_deleted p q away ys in
    elim (Bool-cases (q y)) [
      | inl hit ↦ ground (arith, hit, away y hit, rest)
      | inr miss ↦ ground (arith, miss, rest)
    ]

not_fresh :
    {B : Type 0} (p q : Row B → Bool) (x : Row B) (xs : List (Row B))
    → select_one p xs ≡ some x
    → q x ≡ true
    → (count_where q xs == 0) ≡ false
not_fresh p q x [] h hit = cc
not_fresh p q x (y ∷ ys) h hit = elim (Bool-cases (p y)) [
  | inl here ↦
      let e : y ≡ x = ground (arith, here, h) in
      let there : q y ≡ true = subst (λ z. q z ≡ true) (sym e) hit in ground (arith, there)
  | inr miss ↦ let rest = not_fresh p q x ys (ground (arith, miss, h)) hit in ground (arith, rest)
]

module _ {B : Type 0} (x : Row B) where
  -- The row is the one of its house and identifier.
  abbrev pub is_it : Row B → Bool
  is_it = of_row x.house_id x.id

  abbrev pub Stays : Shelf B → Shelf B → Type 0
  Stays s t = select_one is_it s.rows ≡ some x → select_one is_it t.rows ≡ some x

  same : (s : Shelf B) → Stays s s
  same s h = h

  chain :
      {A C : Type 0} (m : Action B A) (f : A → Action B C)
      → Keeps Stays m
      → ((a : A) → Keeps Stays (f a))
      → Keeps Stays (m >>= f)
  chain m f = keep_bind Stays (λ s t u h k e. k (h e)) m f

  assignee-Stays : (house : ℕ) (o : Option ℕ) → Keeps Stays (ensure_active_assignee house o)
  unfolding ensure_active_assignee
  assignee-Stays house none = keep_pure Stays same tt
  assignee-Stays house (some user) =
      chain (read (λ s. count_where (of_member house user) s.members)) _
        (keep_read Stays same (λ s. count_where (of_member house user) s.members))
        (λ n. keep_fail_if Stays same (n == 0) invalid_input)

  record-Stays :
      (house : ℕ) (actor : Option ℕ) (verb : Verb) (resource : Resource) (id : ℕ)
      → Keeps Stays (record_mutation house actor verb resource id)
  unfolding record_mutation
  record-Stays house actor verb resource id =
      keep_modify Stays (add_mutation (mutation house actor verb resource id)) (λ s h. h)

  required-Stays : (n house id : ℕ) → Keeps Stays (require_versioned_row n house id)
  unfolding require_versioned_row
  required-Stays n house id s r e = elim (Bool-cases (n == 0)) [
    | inr changed ↦
        keep_one {E = HouseholdError} Stays tt s s r (same s) (ground (arith, changed, e))
    | inl unchanged ↦ elim (Bool-cases (count_where (of_row house id) s.rows == 0)) [
      | inl missing ↦ absurd (ground (arith, unchanged, missing, e))
      | inr there ↦ absurd (ground (arith, unchanged, there, e))
    ]
  ]

  other_row :
      (house id version : ℕ) (y : Row B)
      → (x.house_id == house && x.id == id) ≡ false
      → at_version house id version y ≡ true
      → is_it y ≡ false
  other_row house id version y other hit = elim (Bool-cases (is_it y)) [
    | inr away ↦ away
    | inl here ↦
        let a = ==→eq y.house_id house (ground (arith, hit)) in
        let b = ==→eq y.id id (ground (arith, hit)) in
        let c = ==→eq y.house_id x.house_id (ground (arith, here)) in
        let d = ==→eq y.id x.id (ground (arith, here)) in
        absurd (ground (arith, other, a, b, c, d, ==_refl house, ==_refl id))
  ]

  updated-Stays :
      (f : B → B) (now house id version : ℕ)
      → (x.house_id == house && x.id == id) ≡ false
      → Keeps Stays (update_versioned f now house id version)
  unfolding update_versioned
  updated-Stays f now house id version other =
      let q = at_version {B = B} house id version in
      chain (read (λ s. count_where q s.rows)) _ (keep_read Stays same (λ s. count_where q s.rows))
        (λ n.
          chain (modify (λ s. set_rows (update_where q (next_version f now) s.rows) s)) _
            (keep_modify Stays (λ s. set_rows (update_where q (next_version f now) s.rows) s)
              (λ s h.
                select_updated is_it q (next_version f now)
                  (λ y hit. let away = other_row house id version y other hit in (away, away))
                  s.rows
                ∙ h))
            (λ _. required-Stays n house id))

  deleted-Stays :
      (house id version : ℕ)
      → (x.house_id == house && x.id == id) ≡ false
      → Keeps Stays (delete_row house id version)
  unfolding delete_row
  deleted-Stays house id version other =
      let q = at_version {B = B} house id version in
      chain (read (λ s. count_where q s.rows)) _ (keep_read Stays same (λ s. count_where q s.rows))
        (λ n.
          chain (modify (λ s. set_rows (delete_where q s.rows) s)) _
            (keep_modify Stays (λ s. set_rows (delete_where q s.rows) s)
              (λ s h.
                select_deleted is_it q (λ y hit. other_row house id version y other hit) s.rows
                ∙ h))
            (λ _. required-Stays n house id))

  inserted-Stays : (new : Row B) → Keeps Stays (insert_row new)
  unfolding insert_row
  inserted-Stays new s r e h = elim (Bool-cases (count_where (λ y. y.id == new.id) s.rows == 0)) [
    | inr taken ↦ absurd (ground (arith, taken, e))
    | inl free ↦
        let t : set_rows (new ∷ s.rows) s ≡ r.1 = ground (arith, free, e) in
        let away : is_it new ≡ false = elim (Bool-cases (is_it new)) [
          | inr away ↦ away
          | inl here ↦
              let own = ==→eq new.id x.id (ground (arith, here)) in
              let there =
                not_fresh is_it (λ y. y.id == new.id) x s.rows h
                  (ground (arith, own, ==_refl x.id)) in
              absurd (ground (arith, there, free))
        ] in
        subst (λ t. select_one is_it t.rows ≡ some x) t (ground (arith, away, h))
  ]

  -- The transactions on a table leave the row as it is, where they are on another one.
  pub create-Stays :
      (resource : Resource) (assignee : Option ℕ) (now id house actor : ℕ) (content : B)
      → Keeps Stays (create_resource resource assignee now id house actor content)
  unfolding create_resource
  create-Stays resource assignee now id house actor content =
      chain (ensure_active_assignee house assignee) _ (assignee-Stays house assignee) (λ _.
        chain (insert_row (new_row id house actor now content)) _
          (inserted-Stays (new_row id house actor now content))
          (λ _. record-Stays house (some actor) _ resource id))

  pub update-Stays :
      (resource : Resource) (verb : Verb) (assignee : Option ℕ) (f : B → B)
      (now house id version actor : ℕ)
      → (x.house_id == house && x.id == id) ≡ false
      → Keeps Stays (update_resource resource verb assignee f now house id version actor)
  unfolding update_resource
  update-Stays resource verb assignee f now house id version actor other =
      chain (ensure_active_assignee house assignee) _ (assignee-Stays house assignee) (λ _.
        chain (update_versioned f now house id version) _
          (updated-Stays f now house id version other)
          (λ _. record-Stays house (some actor) verb resource id))

  pub delete-Stays :
      (resource : Resource) (house id version actor : ℕ)
      → (x.house_id == house && x.id == id) ≡ false
      → Keeps Stays (delete_versioned resource house id version actor)
  unfolding delete_versioned
  delete-Stays resource house id version actor other =
      chain (delete_row house id version) _ (deleted-Stays house id version other)
        (λ _. record-Stays house (some actor) _ resource id)
