-- ===== src/Invitations/Requests.antt =====
-- The handlers of invitations (src/backend/internal/handlers/invitations.go), and the check that a
-- worker makes before it sends one.
use roomies.Base.{ℕ, ◌+◌, Bool, true, false, Option, none, some, List, [], ◌∷◌, ◌==◌, if◌then◌else◌}
use roomies.Base.Result.{Result, ok, err}
use roomies.Base.Tx.{transact}
use roomies.Models.{Role, member, is_admin, HouseMember}
use roomies.Houses.{get_member}
use roomies.Invitations.{
  HouseInvitation, Tables, InvitationError, pending_exists, unavailable, state_conflict,
}
use roomies.Invitations.Links.{Url, Link, build_invitation_acceptance_url, delivery}
use roomies.Invitations.Ops.{
  Library, Fresh, create_invitation, list_invitations, revoke_invitation, accept_invitation,
  invitation_delivery_available,
}

-- The role text of a body: empty, one of the three, or none of them.
pub data RoleText : Type 0 where
  no_role : RoleText
  role_text : Role → RoleText
  bad_role : RoleText

pub record CreateInvitationRequest : Type 0 where
  pub email : ℕ
  pub role : RoleText

-- The answers: the refusals by their HTTP status, and none to the worker.
pub data Reply : Type 0 where
  created : HouseInvitation → Url → Reply
  listed : List HouseInvitation → Reply
  invitation : HouseInvitation → Reply
  refused : ℕ → Reply
  no_reply : Reply

-- What the handlers are configured with and use of other components: the URL library, the parse of
-- the public URL, the parser of mail addresses, `strings.TrimSpace` on a token, and the mail address of
-- a row of `users`.
pub record Config : Type 0 where
  pub lib : Library
  pub link : Link
  pub base : Option Url
  pub parse_address : ℕ → Option ℕ
  pub trim : ℕ → ℕ
  pub invitation_ttl : ℕ
  pub user_email : ℕ → Option ℕ

-- `loadHouseMember` and `isHouseAdmin`, in front of three of the handlers.
abbrev pub admit : Option HouseMember → (Tables → Reply × Tables) → Tables → Reply × Tables
admit none k s = (refused 403, s)
admit (some m) k s = if is_admin m.role then k s else (refused 403, s)

unfoldable pub as_admin : ℕ → ℕ → (Tables → Reply × Tables) → Tables → Reply × Tables
as_admin house user k s = admit (get_member house user s.house) k s

-- `req.Role == ""` and the three texts.
abbrev pub chosen_role : RoleText → Option Role
chosen_role no_role = some member
chosen_role (role_text r) = some r
chosen_role bad_role = none

-- address.Address == req.Email
abbrev pub is_address : Option ℕ → ℕ → Bool
is_address none email = false
is_address (some a) email = a == email

abbrev pub create_status : InvitationError → ℕ
create_status pending_exists = 409
create_status _ = 500

abbrev pub revoke_status : InvitationError → ℕ
revoke_status unavailable = 404
revoke_status state_conflict = 409
revoke_status _ = 500

abbrev pub accept_status : InvitationError → ℕ
accept_status unavailable = 404
accept_status _ = 500

-- The answer of a handler to the result of its transaction.
abbrev pub answer :
    {A : Type 0}
    → (A → Reply)
    → (InvitationError → ℕ)
    → Result InvitationError A × Tables
    → Reply × Tables
answer good status (ok a, s) = (good a, s)
answer good status (err e, s) = (refused (status e), s)

-- The requests with what they draw: the time, new identifiers and a new token.
pub data Request : Type 0 where
  create : ℕ → ℕ → Fresh → ℕ → ℕ → ℕ → Option CreateInvitationRequest → Request
  list : ℕ → ℕ → ℕ → Request
  revoke : ℕ → Fresh → ℕ → ℕ → ℕ → Request
  accept : ℕ → Fresh → ℕ → ℕ → Option ℕ → Request
  check_delivery : ℕ → ℕ → Request

abbrev pub is_accept : Request → Bool
is_accept (accept _ _ _ _ _) = true
is_accept _ = false

module _ (config : Config) where
  -- The manual link, which only this answer holds.
  abbrev pub created_reply : ℕ → HouseInvitation → Reply
  created_reply token i =
      elim (build_invitation_acceptance_url config.link.query config.base token) [
        | none ↦ refused 500
        | some url ↦ created i url
      ]

  unfoldable pub create_checked_request :
      ℕ → ℕ → Fresh → ℕ → ℕ → ℕ → ℕ → Role → Tables → Reply × Tables
  unfolding create_invitation delivery build_invitation_acceptance_url
  create_checked_request now id ids token house user email role s =
      answer (created_reply token) create_status (
        transact
          (create_invitation config.lib now id ids token house user email role
            (now + config.invitation_ttl) (delivery config.link config.base id house token))
          s)

  -- The role and the address of a body that decodes.
  unfoldable pub create_valid :
      ℕ → ℕ → Fresh → ℕ → ℕ → ℕ → ℕ → Option Role → Tables → Reply × Tables
  unfolding create_checked_request
  create_valid now id ids token house user email none s = (refused 400, s)
  create_valid now id ids token house user email (some role) s =
      if is_address (config.parse_address email) email
      then create_checked_request now id ids token house user email role s
      else (refused 400, s)

  -- The body, after the check of the caller.
  unfoldable pub create_body :
      ℕ → ℕ → Fresh → ℕ → ℕ → ℕ → Option CreateInvitationRequest → Tables → Reply × Tables
  unfolding create_valid
  create_body now id ids token house user none s = (refused 400, s)
  create_body now id ids token house user (some req) s =
      create_valid now id ids token house user (config.lib.normalize req.email)
        (chosen_role req.role) s

  unfoldable pub handle_create :
      ℕ → ℕ → Fresh → ℕ → ℕ → ℕ → Option CreateInvitationRequest → Tables → Reply × Tables
  unfolding as_admin create_body
  handle_create now id ids token house user body s =
      as_admin house user (create_body now id ids token house user body) s

  unfoldable pub handle_list : ℕ → ℕ → ℕ → Tables → Reply × Tables
  unfolding as_admin list_invitations
  handle_list now house user s =
      as_admin house user (λ x. answer listed (λ _. 500) (transact (list_invitations now house) x))
        s

  unfoldable pub handle_revoke : ℕ → Fresh → ℕ → ℕ → ℕ → Tables → Reply × Tables
  unfolding as_admin revoke_invitation
  handle_revoke now ids house user id s =
      as_admin house user
        (λ x.
          answer invitation revoke_status
            (transact (revoke_invitation config.lib now ids house id user) x))
        s

  -- The mail address of the caller's row in `users`, or nothing.
  unfoldable pub accept_as : ℕ → Fresh → ℕ → ℕ → ℕ → Option ℕ → Tables → Reply × Tables
  unfolding accept_invitation
  accept_as now ids member_id user token none s = (refused 401, s)
  accept_as now ids member_id user token (some email) s =
      answer invitation accept_status
        (transact (accept_invitation config.lib now ids member_id token user email) s)

  unfoldable pub handle_accept : ℕ → Fresh → ℕ → ℕ → Option ℕ → Tables → Reply × Tables
  unfolding accept_as
  handle_accept now ids member_id user none s = (refused 400, s)
  handle_accept now ids member_id user (some token) s =
      if config.trim token == 0
      then (refused 400, s)
      else accept_as now ids member_id user (config.trim token) (config.user_email user) s

  unfoldable pub serve : Request → Tables → Reply × Tables
  unfolding handle_create handle_list handle_revoke handle_accept invitation_delivery_available
  serve (create now id ids token house user body) s =
      handle_create now id ids token house user body s
  serve (list now house user) s = handle_list now house user s
  serve (revoke now ids house user id) s = handle_revoke now ids house user id s
  serve (accept now ids member_id user body) s = handle_accept now ids member_id user body s
  serve (check_delivery now id) s =
      (no_reply, (transact (invitation_delivery_available now id) s).1)

  -- The tables after requests in some order.
  unfoldable pub serve_all : List Request → Tables → Tables
  unfolding serve
  serve_all [] s = s
  serve_all (r ∷ rs) s = serve_all rs (serve r s).1
