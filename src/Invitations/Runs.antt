-- ===== src/Invitations/Runs.antt =====
-- Requests on invitations in any order (src/backend/internal/handlers/invitations.go): what holds of
-- every statement holds of every sequence of requests, refused ones included.
use roomies.Base.{
  ℕ, ◌+◌, ◌≡◌, refl, arith, false, Option, none, some, List, [], ◌∷◌, ◌==◌, Bool-cases, inl, inr,
}
use roomies.Base.Result.{Result, ok, err}
use roomies.Base.Tx.{transact}
use roomies.Base.Keeps.{Keeps, keep_transact}
use roomies.Models.{HouseMember, is_admin}
use roomies.Houses.{get_member}
use roomies.Houses.Managed.{IsManaged}
use roomies.Invitations.{
  Action, HouseInvitation, Tables, InvitationError, is_pending, find_invitation,
}
use roomies.Invitations.Rows.{Grows, Grows-Respects}
use roomies.Invitations.Unique.{IsUnique, Unique-Respects, Managed-Respects}
use roomies.Invitations.Statements.{
  Respects, create_rows, revoke_rows, accept_rows, list_rows, available_rows,
}
use roomies.Invitations.Requests.{
  Config, Request, create, list, revoke, accept, check_delivery, Reply, as_admin, answer,
  create_checked_request, create_valid, create_body, admit, is_accept, CreateInvitationRequest,
  is_address, handle_create, handle_list, handle_revoke, handle_accept, accept_as, serve, serve_all,
  created_reply, create_status,
}
use roomies.Invitations.Ops.{Fresh, new_member, create_invitation}
use roomies.Invitations.Links.{delivery}
use roomies.Models.{Role}

answer_tables :
    {A : Type 0} (good : A → Reply) (status : InvitationError → ℕ)
    (r : Result InvitationError A × Tables)
    → (answer good status r).1 ≡ r.1
answer_tables good status (ok a, s) = refl
answer_tables good status (err e, s) = refl

module _ (R : Tables → Tables → Type 0) (same : (s : Tables) → R s s) where
  as_admin_lem :
      (house user : ℕ) (k : Tables → Reply × Tables) (s : Tables)
      → R s (k s).1
      → R s (as_admin house user k s).1
  unfolding as_admin
  as_admin_lem house user k s h = go (get_member house user s.house)
    where
      go : (m : Option HouseMember) → R s (admit m k s).1
      go none = same s
      go (some m) = elim (Bool-cases (is_admin m.role)) [
        | inl yes_admin ↦ rw yes_admin h
        | inr no_admin ↦ rw no_admin (same s)
      ]

  answer_lem :
      {A : Type 0} (good : A → Reply) (status : InvitationError → ℕ) (m : Action A) (s : Tables)
      → Keeps R m
      → R s (answer good status (transact m s)).1
  answer_lem good status m s h =
      rw (answer_tables good status (transact m s)) (keep_transact R m s (same s) h)

module _ (R : Tables → Tables → Type 0) (J : HouseMember → Type 0) (respects : Respects R J)
    (config : Config) where
  create_checked_lem :
      (now id : ℕ) (ids : Fresh) (token house user email : ℕ) (role : Role) (s : Tables)
      → R s (create_checked_request config now id ids token house user email role s).1
  unfolding create_checked_request
  create_checked_lem now id ids token house user email role s =
      answer_lem R respects.quiet.same (created_reply config token) create_status
        (create_invitation config.lib now id ids token house user email role
          (now + config.invitation_ttl) (delivery config.link config.base id house token))
        s
        (create_rows R J respects config.lib now id ids token house user email role
          (now + config.invitation_ttl) (delivery config.link config.base id house token))

  create_valid_lem :
      (now id : ℕ) (ids : Fresh) (token house user email : ℕ) (role : Option Role) (s : Tables)
      → R s (create_valid config now id ids token house user email role s).1
  unfolding create_valid
  create_valid_lem now id ids token house user email none s = respects.quiet.same s
  create_valid_lem now id ids token house user email (some role) s =
      elim (Bool-cases (is_address (config.parse_address email) email)) [
        | inl good ↦ rw good (create_checked_lem now id ids token house user email role s)
        | inr bad ↦ rw bad (respects.quiet.same s)
      ]

  create_body_lem :
      (now id : ℕ) (ids : Fresh) (token house user : ℕ) (body : Option CreateInvitationRequest)
      (s : Tables)
      → R s (create_body config now id ids token house user body s).1
  unfolding create_body
  create_body_lem now id ids token house user none s = respects.quiet.same s
  create_body_lem now id ids token house user (some req) s =
      create_valid_lem now id ids token house user _ _ s

  accept_as_lem :
      (now : ℕ) (ids : Fresh) (member_id user token : ℕ) (email : Option ℕ) (s : Tables)
      → ((i : HouseInvitation) → J (new_member member_id user now i))
      → R s (accept_as config now ids member_id user token email s).1
  unfolding accept_as
  accept_as_lem now ids member_id user token none s may = respects.quiet.same s
  accept_as_lem now ids member_id user token (some email) s may =
      answer_lem R respects.quiet.same _ _ _ s
        (accept_rows R J respects config.lib now ids member_id token user email may)

  handle_accept_lem :
      (now : ℕ) (ids : Fresh) (member_id user : ℕ) (body : Option ℕ) (s : Tables)
      → ((i : HouseInvitation) → J (new_member member_id user now i))
      → R s (handle_accept config now ids member_id user body s).1
  unfolding handle_accept
  handle_accept_lem now ids member_id user none s may = respects.quiet.same s
  handle_accept_lem now ids member_id user (some token) s may =
      elim (Bool-cases (config.trim token == 0)) [
        | inl empty ↦ rw empty (respects.quiet.same s)
        | inr text ↦ rw text (accept_as_lem now ids member_id user _ _ s may)
      ]

  -- The requests that are not an acceptance.
  pub serve_other : (r : Request) (s : Tables) → is_accept r ≡ false → R s (serve config r s).1
  unfolding serve handle_create handle_list handle_revoke
  serve_other (create now id ids token house user body) s other =
      as_admin_lem R respects.quiet.same house user _ s
        (create_body_lem now id ids token house user body s)
  serve_other (list now house user) s other =
      as_admin_lem R respects.quiet.same house user _ s
        (answer_lem R respects.quiet.same _ _ _ s (list_rows R J respects now house))
  serve_other (revoke now ids house user id) s other =
      as_admin_lem R respects.quiet.same house user _ s (
        answer_lem R respects.quiet.same _ _ _ s
          (revoke_rows R J respects config.lib now ids house id user))
  serve_other (accept now ids member_id user body) s other = absurd (ground arith)
  serve_other (check_delivery now id) s other =
      keep_transact R _ s (respects.quiet.same s) (available_rows R J respects now id)

  serve_lem : (r : Request) (s : Tables) → ((m : HouseMember) → J m) → R s (serve config r s).1
  unfolding serve
  serve_lem (accept now ids member_id user body) s may =
      handle_accept_lem now ids member_id user body s (λ i. may _)
  serve_lem (create now id ids token house user body) s may =
      serve_other (create now id ids token house user body) s refl
  serve_lem (list now house user) s may = serve_other (list now house user) s refl
  serve_lem (revoke now ids house user id) s may = serve_other (revoke now ids house user id) s refl
  serve_lem (check_delivery now id) s may = serve_other (check_delivery now id) s refl

  serve_all_lem :
      (rs : List Request) (s : Tables) → ((m : HouseMember) → J m) → R s (serve_all config rs s)
  unfolding serve_all
  serve_all_lem [] s may = respects.quiet.same s
  serve_all_lem (r ∷ rs) s may =
      respects.quiet.chains s (serve config r s).1 _ (serve_lem r s may) (serve_all_lem rs _ may)

-- An invitation that is no longer pending is never changed again, whatever requests follow: its row
-- stays exactly as it is.
pub settled_invitation_stays :
    (config : Config) (rs : List Request) (s : Tables) (id : ℕ) (i : HouseInvitation)
    → find_invitation id s.invitations ≡ some i
    → is_pending i.status ≡ false
    → find_invitation id (serve_all config rs s).invitations ≡ some i
settled_invitation_stays config rs s id i found settled =
    (serve_all_lem Grows (λ _. Unit) Grows-Respects config rs s (λ _. tt)).settled id i found
      settled

-- No sequence of requests makes two pending invitations of one house and mail address, takes the
-- last admin from a house, or makes a user twice a member of a house.
pub serve_all_invariant :
    (config : Config) (rs : List Request) (s : Tables)
    → IsUnique s
    → IsManaged s.house
    → IsUnique (serve_all config rs s) × IsManaged (serve_all config rs s).house
serve_all_invariant config rs s u v = (
  serve_all_lem _ (λ _. Unit) Unique-Respects config rs s (λ _. tt) u,
  serve_all_lem _ (λ _. Unit) Managed-Respects config rs s (λ _. tt) v,
)
