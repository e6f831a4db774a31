-- ===== src/Auth/Accounts.antt =====
-- Registering and signing in: `UpsertFromWorkOS` of src/backend/internal/repository/users.go and the
-- handlers `Register`, `Login` and `WorkOSCallback` of src/backend/internal/handlers/auth.go. What the
-- rate limiters answer is an argument.
pub mod Rows
pub mod Linked
pub mod Protected
use roomies.Base.{
  ℕ, ◌+◌, Bool, true, false, not, ◌&&◌, ◌||◌, Option, none, some, List, [], ◌∷◌, ltb, leb, ◌==◌,
  if◌then◌else◌,
}
use roomies.Base.Sql.{select_one, count_where, update_where}
use roomies.Base.Result.{Result, ok, err}
use roomies.Base.Tx.{Tx, pure, read, modify, fail_if, ◌>>=◌, ◌>>◌}
use roomies.Auth.{User, Tables, has_user_id}

-- Functions of other libraries: texts, addresses and `bcrypt`.
pub record Lib : Type 0 where
  pub len : ℕ → ℕ
  pub trim : ℕ → ℕ
  pub lower : ℕ → ℕ
  pub is_address : ℕ → Bool
  pub generate_hash : ℕ → Option ℕ
  pub compare_hash : ℕ → ℕ → Bool

pub data AuthError : Type 0 where
  local_password_account unique_violation : AuthError

abbrev pub Action : Type 0 → Type 0
Action = Tx AuthError Tables

-- The answers of the handlers; `signed_in` gives a session of the user.
pub data Reply : Type 0 where
  too_many_requests password_disabled not_configured invalid_body fields_required : Reply
  bad_password_length bad_email already_registered internal_error : Reply
  invalid_credentials authentication_failed account_exists : Reply
  signed_in : User → Reply

abbrev pub has_email : ℕ → User → Bool
has_email email u = u.email == email

abbrev pub same_id : Option ℕ → ℕ → Bool
same_id none id = false
same_id (some k) id = k == id

abbrev pub has_workos_id : ℕ → User → Bool
has_workos_id id u = same_id u.workos_user_id id

abbrev pub clashes_workos : Option ℕ → User → Bool
clashes_workos none u = false
clashes_workos (some id) u = has_workos_id id u

-- PRIMARY KEY(id), and the unique e-mail and identity.
abbrev pub clashes : User → User → Bool
clashes new u = u.id == new.id || u.email == new.email || clashes_workos new.workos_user_id u

abbrev pub add_user : User → Tables → Tables
add_user u s = record s { users = u ∷ s.users }

unfoldable pub create_user : User → Action (Unit {0})
create_user new = do
  n ← read (λ s. count_where (clashes new) s.users)
  fail_if (not (n == 0)) unique_violation
  modify (add_user new)

abbrev pub rename : ℕ → ℕ → User → User
rename name email u = record u { name = name; email = email }

abbrev pub link : ℕ → ℕ → User → User
link workos name u = record u { workos_user_id = some workos; name = name }

abbrev pub update_user : ℕ → (User → User) → Tables → Tables
update_user id f s = record s { users = update_where (has_user_id id) f s.users }

-- Another row must not have the new e-mail or identity.
abbrev pub is_other : ℕ → (User → Bool) → User → Bool
is_other id q u = not (u.id == id) && q u

abbrev pub change_user : ℕ → (User → Bool) → (User → User) → Action (Unit {0})
change_user id taken f = do
  n ← read (λ s. count_where (is_other id taken) s.users)
  fail_if (not (n == 0)) unique_violation
  modify (update_user id f)

module _ (fresh_id workos email name : ℕ) where
  abbrev pub new_workos_user : User
  new_workos_user = record {
    id = fresh_id;
    name = name;
    email = email;
    password_hash = none;
    workos_user_id = some workos;
  }

  unfoldable pub known_identity : User → Action User
  known_identity u =
      if u.name == name && u.email == email
      then pure u
      else (change_user u.id (has_email email) (rename name email) >> pure (rename name email u))

  abbrev pub link_account : User → Option ℕ → Action User
  link_account u (some hash) = λ s. err local_password_account
  link_account u none =
      change_user u.id (has_workos_id workos) (link workos name) >> pure (link workos name u)

  abbrev pub known_email : Option User → Action User
  known_email (some u) = link_account u u.password_hash
  known_email none = create_user new_workos_user >> pure new_workos_user

  abbrev pub known_workos : Option User → Action User
  known_workos (some u) = known_identity u
  known_workos none = read (λ s. select_one (has_email email) s.users) >>= known_email

  -- An account with a local password is not linked to an identity.
  unfoldable pub upsert_from_workos : Action User
  unfolding create_user known_identity
  upsert_from_workos = read (λ s. select_one (has_workos_id workos) s.users) >>= known_workos

pub record RegisterRequest : Type 0 where
  pub name : ℕ
  pub email : ℕ
  pub password : ℕ

pub record LoginRequest : Type 0 where
  pub email : ℕ
  pub password : ℕ

-- A WorkOS identity, or `none` where the code is not accepted.
pub record Identity : Type 0 where
  pub workos_user_id : ℕ
  pub email : ℕ
  pub name : ℕ

abbrev pub hash_of : Option User → Option ℕ
hash_of none = none
hash_of (some u) = u.password_hash

module _ (lib : Lib) where
  abbrev pub is_empty : ℕ → Bool
  is_empty text = lib.len text == 0

  abbrev pub normal_email : ℕ → ℕ
  normal_email text = lib.lower (lib.trim text)

  abbrev pub created : User → Result AuthError (Unit {0} × Tables) → Tables → Reply × Tables
  created u (ok (_, t)) s = (signed_in u, t)
  created u (err e) s = (internal_error, s)

  abbrev pub register_hash : ℕ → RegisterRequest → Option ℕ → Tables → Reply × Tables
  register_hash id req none s = (internal_error, s)
  register_hash id req (some hash) s =
      let u : User = record {
        id = id;
        name = lib.trim req.name;
        email = normal_email req.email;
        password_hash = some hash;
        workos_user_id = none;
      } in
      created u (create_user u s) s

  unfoldable pub register : Bool → Bool → ℕ → Option RegisterRequest → Tables → Reply × Tables
  register allowed password_enabled id none s =
      if not allowed
      then (too_many_requests, s)
      else (if not password_enabled then (password_disabled, s) else (invalid_body, s))
  register allowed password_enabled id (some req) s =
      let email = normal_email req.email in
      if not allowed
      then (too_many_requests, s)
      else if not password_enabled
      then (password_disabled, s)
      else if is_empty (lib.trim req.name) || is_empty email || is_empty req.password
      then (fields_required, s)
      else if ltb (lib.len req.password) 8 || ltb 72 (lib.len req.password)
      then (bad_password_length, s)
      else if not (lib.is_address email)
      then (bad_email, s)
      else if not (count_where (has_email email) s.users == 0)
      then (already_registered, s)
      else register_hash id req (lib.generate_hash req.password) s

  -- A comparison with a dummy hash, for the time that it takes, is left out.
  abbrev pub check_hash : Option User → Option ℕ → ℕ → Reply
  check_hash none hash password = invalid_credentials
  check_hash (some u) none password = invalid_credentials
  check_hash (some u) (some hash) password =
      if lib.compare_hash hash password then signed_in u else invalid_credentials

  unfoldable pub login : Bool → Bool → Bool → Option LoginRequest → Tables → Reply
  login allowed password_enabled account_allowed none s =
      if not allowed
      then too_many_requests
      else (if not password_enabled then password_disabled else invalid_body)
  login allowed password_enabled account_allowed (some req) s =
      let email = normal_email req.email in
      let found = select_one (has_email email) s.users in
      if not allowed
      then too_many_requests
      else if not password_enabled
      then password_disabled
      else if is_empty email || is_empty req.password
      then fields_required
      else if not account_allowed
      then too_many_requests
      else check_hash found (hash_of found) req.password

  abbrev pub callback_reply : Result AuthError (User × Tables) → Tables → Reply × Tables
  callback_reply (ok (u, t)) s = (signed_in u, t)
  callback_reply (err local_password_account) s = (account_exists, s)
  callback_reply (err unique_violation) s = (internal_error, s)

  -- `transaction` tells whether the state of the request is the one of the cookie, with a code and a
  -- verifier.
  unfoldable pub workos_callback :
      Bool → Bool → ℕ → Option Bool → Option Identity → Tables → Reply × Tables
  unfolding upsert_from_workos
  workos_callback configured allowed id none identity s =
      if not configured
      then (not_configured, s)
      else (if not allowed then (too_many_requests, s) else (invalid_body, s))
  workos_callback configured allowed id (some transaction) none s =
      if not configured
      then (not_configured, s)
      else (if not allowed then (too_many_requests, s) else (authentication_failed, s))
  workos_callback configured allowed id (some transaction) (some i) s =
      if not configured
      then (not_configured, s)
      else if not allowed
      then (too_many_requests, s)
      else if not transaction
      then (authentication_failed, s)
      else callback_reply (upsert_from_workos id i.workos_user_id (normal_email i.email) i.name s) s
