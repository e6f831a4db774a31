-- ===== src/Auth/Accounts/Linked.antt =====
-- Users with a local password and no identity, under `UpsertFromWorkOS`
-- (src/backend/internal/repository/users.go).
use roomies.Base.{
  ℕ, ◌≡◌, refl, subst, sym, Bool, true, false, ◌&&◌, Option, none, some, arith, ◌==◌, Bool-cases,
  Option-cases, inl, inr,
}
use roomies.Base.Sql.{select_one, count_where}
use roomies.Base.Result.{ok}
use roomies.Base.Keeps.{pure-Returns, bind-Returns}
use roomies.Base.Tx.{pure, ◌>>◌, >>=-eq-ok}
use roomies.Auth.{User, Tables, has_user_id}
use roomies.Auth.Accounts.{
  Action, has_email, has_workos_id, create_user, rename, link, change_user, known_identity,
  link_account, known_email, known_workos, new_workos_user,
}
use roomies.Auth.Accounts.Rows.{is_set, is_local, is_not_local, found_row, create_fresh}

linked_remote : (workos : ℕ) (u : User) → has_workos_id workos u ≡ true → is_local u ≡ false
linked_remote workos u hit = elim (Option-cases u.workos_user_id) [
  | inl unlinked ↦ absurd (ground (arith, unlinked, hit))
  | inr (k, linked) ↦ elim (Bool-cases (is_set u.password_hash)) [
    | inl set ↦ rw (linked, set) refl
    | inr unset ↦ rw (linked, unset) refl
  ]
]

then_pure :
    (m : Action (Unit {0})) (u : User) (s : Tables) (r : User × Tables)
    → (m >> pure u) s ≡ ok r
    → r.0 ≡ u
then_pure m u = bind-Returns u m (λ _. pure u) (λ _. pure-Returns u)

module _ (id : ℕ) (s : Tables) (there : (count_where (has_user_id id) s.users == 0) ≡ false)
    (local : count_where (is_not_local id) s.users ≡ 0) where
  other_user :
      (q : User → Bool) (u : User)
      → select_one q s.users ≡ some u
      → is_local u ≡ false
      → (u.id == id) ≡ false
  other_user q u found remote = elim (Bool-cases (u.id == id)) [
    | inr other ↦ other
    | inl same ↦
        let row =
          (found_row q s.users u found).1 (is_not_local id) (ground (arith, same, remote)) in
        absurd (ground (arith, row, local))
  ]

  module _ (fresh_id workos email name : ℕ) where
    identity_other :
        (u : User) (r : User × Tables)
        → (u.id == id) ≡ false
        → known_identity fresh_id workos email name u s ≡ ok r
        → (r.0.id == id) ≡ false
    unfolding known_identity
    identity_other u r other h = elim (Bool-cases (u.name == name && u.email == email)) [
      | inl same ↦
          let e : u ≡ r.0 = ground (arith, same, h) in subst (λ v. (v.id == id) ≡ false) e other
      | inr changed ↦
          let e =
            then_pure (change_user u.id (has_email email) (rename name email)) (rename name email u)
              s r (ground (arith, changed, h)) in
          subst (λ v. (v.id == id) ≡ false) (sym e) other
    ]

    link_other :
        (u : User) (o : Option ℕ) (r : User × Tables)
        → u.password_hash ≡ o
        → select_one (has_email email) s.users ≡ some u
        → link_account fresh_id workos email name u o s ≡ ok r
        → (r.0.id == id) ≡ false
    link_other u none r hash found h =
        let e =
          then_pure (change_user u.id (has_workos_id workos) (link workos name))
            (link workos name u) s r h in
        subst (λ v. (v.id == id) ≡ false) (sym e)
          (other_user (has_email email) u found (rw hash refl))
    link_other u (some p) r hash found h = cc

    email_other :
        (o : Option User) (r : User × Tables)
        → select_one (has_email email) s.users ≡ o
        → known_email fresh_id workos email name o s ≡ ok r
        → (r.0.id == id) ≡ false
    email_other (some u) r found h = link_other u u.password_hash r refl found h
    email_other none r found h =
        let new = new_workos_user fresh_id workos email name in
        let (a, t, first, second) = >>=-eq-ok (create_user new) (λ _. pure new) s h in
        let e = then_pure (create_user new) new s r h in
        subst (λ v. (v.id == id) ≡ false) (sym e) (create_fresh id new s (a, t) there first)

    pub workos_other :
        (o : Option User) (r : User × Tables)
        → select_one (has_workos_id workos) s.users ≡ o
        → known_workos fresh_id workos email name o s ≡ ok r
        → (r.0.id == id) ≡ false
    workos_other (some u) r found h =
        let hit = (found_row (has_workos_id workos) s.users u found).0 in
        identity_other u r (other_user (has_workos_id workos) u found (linked_remote workos u hit))
          h
    workos_other none r found h = email_other (select_one (has_email email) s.users) r refl h
