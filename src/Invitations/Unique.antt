-- ===== src/Invitations/Unique.antt =====
-- Pending invitations of one address, and the admins of the houses, under the transactions of
-- src/backend/internal/repository/reliability.go.
use mathlib.Core.Path.{subst₂}
use roomies.Base.{ℕ, ◌≤◌, ◌≡◌, subst, Bool, List, [], ◌∷◌, All-mono, arith, Bool-cases, inl, inr}
use roomies.Base.Sql.{count_where, update_where}
use roomies.Models.{HouseMember}
use roomies.Houses.{of_member, set_members, Houses}
use roomies.Houses.Managed.{IsManaged}
use roomies.Invitations.{HouseInvitation, Tables, pending_for}
use roomies.Invitations.Rows.{no_clash, insert_invitation_lem, insert_member_lem}
use roomies.Invitations.Statements.{Respects, IsSettled}

-- The unique index `idx_house_invitations_pending_email`.
unfoldable pub IsUnique : Tables → Type 0
IsUnique s = (house email : ℕ) → count_where (pending_for house email) s.invitations ≤ 1

pending-update :
    (p : HouseInvitation → Bool) (f : HouseInvitation → HouseInvitation)
    → ((i : HouseInvitation) → IsSettled i (f i))
    → (house email : ℕ) (xs : List HouseInvitation)
    → count_where (pending_for house email) (update_where p f xs)
      ≤ count_where (pending_for house email) xs
pending-update p f settled house email [] = omega arith
pending-update p f settled house email (x ∷ xs) =
    let rest = pending-update p f settled house email xs in
    elim (Bool-cases (p x)) [
      | inl hit ↦ ground (arith, (settled x).not_pending, rest)
      | inr miss ↦ ground (arith, rest)
    ]

pending-insert :
    (i : HouseInvitation) (xs : List HouseInvitation)
    → count_where (pending_for i.house_id i.email) xs ≡ 0
    → (house email : ℕ) → count_where (pending_for house email) xs ≤ 1
    → count_where (pending_for house email) (i ∷ xs) ≤ 1
pending-insert i xs fresh house email one = elim (Bool-cases (pending_for house email i)) [
  | inr other ↦ ground (arith, one)
  | inl mine ↦
      let keys : (i.house_id ≡ house) × (i.email ≡ email) = ground arith in
      let none_yet = subst₂ (λ h e. count_where (pending_for h e) xs ≡ 0) keys.0 keys.1 fresh in
      rw (mine, none_yet) (omega arith)
]

pub Unique-Respects : Respects (λ s t. IsUnique s → IsUnique t) (λ m. Unit {0})
unfolding IsUnique
Unique-Respects = record {
  quiet = record {
    same = λ s u. u;
    chains = λ s t v f g u. g (f u);
    clears = λ now key s q h u. u;
    enqueues = λ m j s q h u. u;
    logs = λ a s u. u;
    publishes = λ e s u. u;
  };
  settles = λ p f s pends settled u house email.
      omega (arith, pending-update p f settled house email s.invitations, u house email);
  adds = λ i s t is h u.
      let (fresh, e) = insert_invitation_lem i s t h in
      subst IsUnique e (λ house email.
        pending-insert i s.invitations (no_clash i s.invitations fresh).1 house email
          (u house email));
  joins = λ m s t may h u. elim (insert_member_lem m s t h) [
    | inl e ↦ subst IsUnique e u
    | inr r ↦ subst IsUnique r.1 u
  ];
}

join-IsManaged :
    (m : HouseMember) (s : Houses)
    → count_where (of_member m.house_id m.user_id) s.members ≡ 0
    → IsManaged s
    → IsManaged (set_members (m ∷ s.members) s)
join-IsManaged m s absent v = record {
  unique = λ h u. elim (Bool-cases (of_member h u m)) [
    | inl mine ↦
        let keys : (m.house_id ≡ h) × (m.user_id ≡ u) = ground arith in
        let none_yet =
          subst₂ (λ a b. count_where (of_member a b) s.members ≡ 0) keys.0 keys.1 absent in
        rw (mine, none_yet) (omega arith)
    | inr other ↦ ground (arith, v.unique h u)
  ];
  managed = All-mono _ _ s.houses (λ h b. omega (arith, b)) v.managed;
}

pub Managed-Respects : Respects (λ s t. IsManaged s.house → IsManaged t.house) (λ m. Unit {0})
Managed-Respects = record {
  quiet = record {
    same = λ s v. v;
    chains = λ s t u f g v. g (f v);
    clears = λ now key s q h v. v;
    enqueues = λ m j s q h v. v;
    logs = λ a s v. v;
    publishes = λ e s v. record { unique = v.unique; managed = v.managed };
  };
  settles = λ p f s pends settled v. v;
  adds = λ i s t is h v. subst (λ x. IsManaged x.house) (insert_invitation_lem i s t h).1 v;
  joins = λ m s t may h v. elim (insert_member_lem m s t h) [
    | inl e ↦ subst (λ x. IsManaged x.house) e v
    | inr r ↦ subst (λ x. IsManaged x.house) r.1 (join-IsManaged m s.house r.0 v)
  ];
}
