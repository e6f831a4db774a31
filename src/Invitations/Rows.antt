-- ===== src/Invitations/Rows.antt =====
-- The rows of `house_invitations` under the transactions of
-- src/backend/internal/repository/reliability.go.
use roomies.Base.{
  ℕ, ◌≡◌, refl, ap, subst, ◌⊎◌, Bool, true, false, none, some, List, [], ◌∷◌, arith, ◌==◌, ==→eq,
  if◌then◌else◌, Bool-cases, inl, inr,
}
use roomies.Base.Sql.{count_where, update_where}
use roomies.Base.Result.{ok}
use roomies.Models.{HouseMember}
use roomies.Houses.{of_member, set_members}
use roomies.Invitations.{
  is_pending, HouseInvitation, Tables, find_invitation, pending_for, set_invitations, set_house,
}
use roomies.Invitations.Ops.{clashes, insert_invitation, insert_member, insert_absent_member}
use roomies.Invitations.Statements.{Respects}

-- Rows stay, and a row that is not pending stays as it is.
pub record Grows (s t : Tables) : Type 0 where
  pub settled :
      (id : ℕ) (i : HouseInvitation)
      → find_invitation id s.invitations ≡ some i
      → is_pending i.status ≡ false
      → find_invitation id t.invitations ≡ some i

Grows-same : {s t : Tables} → t.invitations ≡ s.invitations → Grows s t
Grows-same e = record { settled = λ id i h p. rw e h }

Grows-trans : (s t u : Tables) → Grows s t → Grows t u → Grows s u
Grows-trans s t u h k = record { settled = λ id i e p. k.settled id i (h.settled id i e p) p }

find-update :
    (q : HouseInvitation → Bool) (f : HouseInvitation → HouseInvitation)
    → ((i : HouseInvitation) → q i ≡ true → is_pending i.status ≡ true)
    → ((i : HouseInvitation) → (f i).id ≡ i.id)
    → (id : ℕ) (i : HouseInvitation) (xs : List HouseInvitation) → find_invitation id xs ≡ some i
    → is_pending i.status ≡ false
    → find_invitation id (update_where q f xs) ≡ some i
find-update q f pends keeps id i [] h p = cc
find-update q f pends keeps id i (x ∷ xs) h p = elim (Bool-cases (x.id == id)) [
  | inl here ↦
      let e : x ≡ i = ground arith in
      elim (Bool-cases (q x)) [
        | inl hit ↦ absurd (
            let c : is_pending i.status ≡ true =
              subst (λ y. is_pending y.status ≡ true) e (pends x hit) in
            ground arith)
        | inr miss ↦
            let same : (if q x then f x else x) ≡ x = rw miss refl in rw same (rw here (ap some e))
      ]
  | inr other ↦
      let rest = find-update q f pends keeps id i xs (ground arith) p in
      let away : (if q x then f x else x).id ≡ x.id = elim (Bool-cases (q x)) [
        | inl hit ↦ rw hit (keeps x)
        | inr miss ↦ rw miss refl
      ] in
      rw away (rw other rest)
]

pub no_clash :
    (i : HouseInvitation) (xs : List HouseInvitation)
    → count_where (clashes i) xs ≡ 0
    → (find_invitation i.id xs ≡ none) × (count_where (pending_for i.house_id i.email) xs ≡ 0)
no_clash i [] h = (refl, refl)
no_clash i (x ∷ xs) h = ground (arith, no_clash i xs)

-- What a successful insertion tells.
pub insert_invitation_lem :
    (i : HouseInvitation) (s t : Tables)
    → insert_invitation i s ≡ ok (tt, t)
    → (count_where (clashes i) s.invitations ≡ 0) × (set_invitations (i ∷ s.invitations) s ≡ t)
unfolding insert_invitation
insert_invitation_lem i s t h = elim (Bool-cases (count_where (clashes i) s.invitations == 0)) [
  | inr taken ↦ ground arith
  | inl fresh ↦ (ground arith, ground arith)
]

find-insert :
    (i : HouseInvitation) (xs : List HouseInvitation)
    → count_where (clashes i) xs ≡ 0
    → (id : ℕ) (j : HouseInvitation) → find_invitation id xs ≡ some j
    → find_invitation id (i ∷ xs) ≡ some j
find-insert i xs fresh id j h = elim (Bool-cases (i.id == id)) [
  | inl same ↦
      let gone : find_invitation id xs ≡ none =
        subst (λ k. find_invitation k xs ≡ none) (==→eq i.id id same) (no_clash i xs fresh).0 in
      cc
  | inr other ↦ rw other h
]

-- The tables with the other rows, which the statement on a member leaves as they are.
pub insert_member_lem :
    (m : HouseMember) (s t : Tables)
    → insert_member m s ≡ ok (tt, t)
    → (s ≡ t)
      ⊎ ((count_where (of_member m.house_id m.user_id) s.house.members ≡ 0)
          × (set_house (set_members (m ∷ s.house.members) s.house) s ≡ t))
unfolding insert_member insert_absent_member
insert_member_lem m s t h =
    elim (Bool-cases (count_where (of_member m.house_id m.user_id) s.house.members == 0)) [
      | inr there ↦ inl (ground arith)
      | inl absent ↦ elim (Bool-cases (count_where (λ x. x.id == m.id) s.house.members == 0)) [
        | inr taken ↦ ground arith
        | inl free ↦ inr (ground arith, ground arith)
      ]
    ]

pub Grows-Respects : Respects Grows (λ m. Unit {0})
Grows-Respects = record {
  quiet = record {
    same = λ s. Grows-same refl;
    chains = Grows-trans;
    clears = λ now key s q h. Grows-same refl;
    enqueues = λ m j s q h. Grows-same refl;
    logs = λ a s. Grows-same refl;
    publishes = λ e s. Grows-same refl;
  };
  settles = λ p f s pends settled. record {
    settled = λ id i h not_pending.
        find-update p f pends (λ x. (settled x).id) id i s.invitations h not_pending;
  };
  adds = λ i s t is h.
      let (fresh, e) = insert_invitation_lem i s t h in
      subst (Grows s) e
        (record { settled = λ id j found p. find-insert i s.invitations fresh id j found });
  joins = λ m s t may h. elim (insert_member_lem m s t h) [
    | inl e ↦ subst (Grows s) e (Grows-same refl)
    | inr r ↦ subst (Grows s) r.1 (Grows-same refl)
  ];
}
