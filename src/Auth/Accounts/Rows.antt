-- ===== src/Auth/Accounts/Rows.antt =====
-- Rows of users under a search and an insertion (src/backend/internal/repository/users.go).
use roomies.Base.{
  ℕ, ◌≡◌, refl, subst, sym, Bool, true, false, not, ◌&&◌, Option, none, some, List, [], ◌∷◌, arith,
  ◌==◌, ==→eq, Bool-cases, inl, inr,
}
use roomies.Base.Sql.{select_one, count_where}
use roomies.Base.Result.{ok}
use roomies.Auth.{User, Tables, has_user_id}
use roomies.Auth.Accounts.{clashes, create_user}

abbrev pub is_set : Option ℕ → Bool
is_set none = false
is_set (some _) = true

-- A local password, and no identity.
abbrev pub is_local : User → Bool
is_local u = is_set u.password_hash && not (is_set u.workos_user_id)

abbrev pub is_not_local : ℕ → User → Bool
is_not_local id u = u.id == id && not (is_local u)

pub found_row :
    (q : User → Bool) (xs : List User) (u : User)
    → select_one q xs ≡ some u
    → (q u ≡ true) × ((p : User → Bool) → p u ≡ true → (count_where p xs == 0) ≡ false)
found_row q [] u h = cc
found_row q (x ∷ xs) u h = elim (Bool-cases (q x)) [
  | inl hit ↦
      let e : x ≡ u = ground (arith, hit, h) in
      (
        subst (λ y. q y ≡ true) e hit,
        λ p here.
            let there : p x ≡ true = subst (λ y. p y ≡ true) (sym e) here in ground (arith, there),
      )
  | inr miss ↦
      let rest = found_row q xs u (ground (arith, miss, h)) in
      (rest.0, λ p here. let there = rest.1 p here in ground (arith, there))
]

no_clash :
    (id : ℕ) (new : User) (xs : List User)
    → count_where (clashes new) xs ≡ 0
    → (new.id == id) ≡ true
    → count_where (has_user_id id) xs ≡ 0
no_clash id new [] h e = refl
no_clash id new (x ∷ xs) h e = elim (Bool-cases (clashes new x)) [
  | inl hit ↦ absurd (ground (arith, hit, h))
  | inr miss ↦
      let rest = no_clash id new xs (ground (arith, miss, h)) e in
      let q = ==→eq new.id id e in
      let away : (x.id == id) ≡ false = subst (λ k. (x.id == k) ≡ false) q (ground (arith, miss)) in
      ground (arith, away, rest)
]

-- A user who is new is not there before.
pub create_fresh :
    (id : ℕ) (new : User) (s : Tables) (r : Unit {0} × Tables)
    → (count_where (has_user_id id) s.users == 0) ≡ false
    → create_user new s ≡ ok r
    → (new.id == id) ≡ false
unfolding create_user
create_fresh id new s r there h = elim (Bool-cases (count_where (clashes new) s.users == 0)) [
  | inr taken ↦ absurd (ground (arith, taken, h))
  | inl free ↦ elim (Bool-cases (new.id == id)) [
    | inr other ↦ other
    | inl same ↦
        let zero = no_clash id new s.users (ground (arith, free)) same in
        absurd (ground (arith, zero, there))
  ]
]
