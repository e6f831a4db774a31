-- ===== src/Invitations/Joining.antt =====
-- Who becomes a member of a house by the requests of src/backend/internal/handlers/invitations.go.
use roomies.Base.{
  ℕ, ◌≤◌, ◌≡◌, refl, ◌∙◌, ap, subst, Bool, true, false, Option, none, some, List, ◌∷◌, arith, ◌==◌,
  if◌then◌else◌, inl, inr,
}
use roomies.Base.Sql.{count_where}
use roomies.Base.Result.{Result, ok, err}
use roomies.Models.{HouseMember}
use roomies.Houses.{of_member}
use roomies.Invitations.{HouseInvitation, Tables, InvitationError, pending, is_overdue}
use roomies.Invitations.Ops.{Fresh, accept_invitation, new_member}
use roomies.Invitations.Statements.{Respects}
use roomies.Invitations.Rows.{insert_invitation_lem}
use roomies.Invitations.Requests.{
  Config, Request, create, list, revoke, accept, check_delivery, refused, invitation, handle_accept,
  accept_as, accept_status, answer, serve,
}
use roomies.Invitations.Runs.{serve_other}
use roomies.Invitations.Accepting.{IsAddressed}
use roomies.Invitations.Acceptance.{Accepted, accept_invitation_sound}

-- The request is an acceptance by this user, of a token whose invitation is to this house, for the
-- mail address of the user's row, pending and in time.
pub record IsInvited (config : Config) (s : Tables) (house user : ℕ) (r : Request) : Type 0 where
  pub now : ℕ
  pub ids : Fresh
  pub member_id : ℕ
  pub token : ℕ
  pub email : ℕ
  pub row : HouseInvitation
  pub is : r ≡ accept now ids member_id user (some token)
  pub address : config.user_email user ≡ some email
  pub addressed : IsAddressed config.lib now ids member_id (config.trim token) user email s row
  pub of_house : row.house_id ≡ house
  pub is_open : row.status ≡ pending
  pub in_time : is_overdue now row ≡ false

Members-Respects : Respects (λ s t. t.house.members ≡ s.house.members) (λ m. ⊥)
Members-Respects = record {
  quiet = record {
    same = λ s. refl;
    chains = λ s t u h k. k ∙ h;
    clears = λ now key s q h. refl;
    enqueues = λ m j s q h. refl;
    logs = λ a s. refl;
    publishes = λ e s. refl;
  };
  settles = λ p f s pends settled. refl;
  adds = λ i s t is h.
      subst (λ x. x.house.members ≡ s.house.members) (insert_invitation_lem i s t h).1 refl;
  joins = λ m s t never h. absurd never;
}

module _ (house user : ℕ) where
  Enters : List HouseMember → List HouseMember → Type 0
  Enters before after =
      (count_where (of_member house user) before ≡ 0)
      × (1 ≤ count_where (of_member house user) after)

  unchanged : (before after : List HouseMember) → after ≡ before → Enters before after → ⊥
  unfolding Enters
  unchanged before after same j =
      let h : 1 ≤ count_where (of_member house user) before =
        subst (λ ms. 1 ≤ count_where (of_member house user) ms) same j.1 in
      absurd (omega (arith, j.0, h))

  joined_key :
      (before : List HouseMember) (m : HouseMember) (new : Bool)
      → Enters before (if new then m ∷ before else before)
      → (m.house_id ≡ house) × (m.user_id ≡ user)
  unfolding Enters
  joined_key before m new j = ground (arith, j.0, j.1)

module _ (config : Config) (house user : ℕ) (s : Tables) where
  result_joins :
      (now : ℕ) (ids : Fresh) (member_id caller token email : ℕ)
      (x : Result InvitationError (HouseInvitation × Tables))
      → accept_invitation config.lib now ids member_id (config.trim token) caller email s ≡ x
      → config.user_email caller ≡ some email
      → Enters house user s.house.members
          (answer invitation accept_status
            (elim x as (λ _. Result InvitationError HouseInvitation × Tables) [
              | ok r ↦ (ok r.0, r.1)
              | err e ↦ (err e, s)
            ])).1.house.members
      → IsInvited config s house user (accept now ids member_id caller (some token))
  unfolding Accepted
  result_joins now ids member_id caller token email (err e) is address j =
      absurd (unchanged house user _ _ refl j)
  result_joins now ids member_id caller token email (ok r) is address j =
      let (x, a, how) =
        accept_invitation_sound config.lib now ids member_id (config.trim token) caller email s r
          is in
      elim how [
        | inl (_, _, same) ↦ absurd (unchanged house user _ _ (ap (λ z. z.1.house.members) same) j)
        | inr (is_open, in_time, _, joined) ↦
            let keys =
              joined_key house user s.house.members (new_member member_id caller now x)
                (count_where (of_member x.house_id caller) s.house.members == 0)
                (subst (Enters house user s.house.members) joined.members j) in
            subst (λ u. IsInvited config s house u (accept now ids member_id caller (some token)))
              keys.1
              (record {
                now = now;
                ids = ids;
                member_id = member_id;
                token = token;
                email = email;
                row = x;
                is = refl;
                address = address;
                addressed = a;
                of_house = keys.0;
                is_open = is_open;
                in_time = in_time;
              })
      ]

  accept_joins :
      (now : ℕ) (ids : Fresh) (member_id caller : ℕ) (body : Option ℕ)
      → Enters house user s.house.members
          (handle_accept config now ids member_id caller body s).1.house.members
      → IsInvited config s house user (accept now ids member_id caller body)
  unfolding handle_accept accept_as
  accept_joins now ids member_id caller none j = absurd (unchanged house user _ _ refl j)
  accept_joins now ids member_id caller (some token) j =
      go (config.trim token == 0) (config.user_email caller) refl j
    where
      go :
          (empty : Bool) (o : Option ℕ)
          → config.user_email caller ≡ o
          → Enters house user s.house.members
              (if empty
                then (refused 400, s)
                else accept_as config now ids member_id caller
                    (config.trim token)
                    o
                    s).1.house.members
          → IsInvited config s house user (accept now ids member_id caller (some token))
      go true o is k = absurd (unchanged house user _ _ refl k)
      go false none is k = absurd (unchanged house user _ _ refl k)
      go false (some email) is k =
          result_joins now ids member_id caller token email
            (accept_invitation config.lib now ids member_id (config.trim token) caller email s) refl
            is k

-- Nobody becomes a member of a house by these requests but a user who accepts a pending invitation
-- to that house, in time, with its token and from an account that has the invited mail address.
pub serve_joins :
    (config : Config) (r : Request) (s : Tables) (house user : ℕ)
    → count_where (of_member house user) s.house.members ≡ 0
    → 1 ≤ count_where (of_member house user) (serve config r s).1.house.members
    → IsInvited config s house user r
unfolding Enters serve
serve_joins config (accept now ids member_id caller body) s house user absent there =
    accept_joins config house user s now ids member_id caller body (absent, there)
serve_joins config (create now id ids token h u body) s house user absent there = absurd (
    unchanged house user _ _
      (serve_other _ _ Members-Respects config (create now id ids token h u body) s refl)
      (absent, there))
serve_joins config (list now h u) s house user absent there = absurd (
    unchanged house user _ _ (serve_other _ _ Members-Respects config (list now h u) s refl)
      (absent, there))
serve_joins config (revoke now ids h u id) s house user absent there = absurd (
    unchanged house user _ _
      (serve_other _ _ Members-Respects config (revoke now ids h u id) s refl) (absent, there))
serve_joins config (check_delivery now id) s house user absent there = absurd (
    unchanged house user _ _
      (serve_other _ _ Members-Respects config (check_delivery now id) s refl) (absent, there))
