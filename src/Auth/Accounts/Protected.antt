-- ===== src/Auth/Accounts/Protected.antt =====
-- Accounts with a local password and no linked identity (src/backend/internal/handlers/auth.go,
-- src/backend/internal/repository/users.go).
use roomies.Base.{
  ℕ, ltb, ◌≡◌, refl, Bool, true, false, not, ◌&&◌, ◌||◌, Option, none, some, arith, ◌==◌,
  if◌then◌else◌, Bool-cases, inl, inr,
}
use roomies.Base.Sql.{select_one, count_where}
use roomies.Base.Result.{Result, ok, err}
use roomies.Auth.{User, Tables, has_user_id}
use roomies.Auth.Accounts.{
  Lib, AuthError, local_password_account, unique_violation, Reply, too_many_requests,
  password_disabled, not_configured, invalid_body, fields_required, bad_password_length, bad_email,
  already_registered, internal_error, invalid_credentials, authentication_failed, account_exists,
  signed_in, has_email, has_workos_id, create_user, upsert_from_workos, RegisterRequest,
  LoginRequest, Identity, created, register_hash, register, check_hash, hash_of, login,
  callback_reply, workos_callback, normal_email, is_empty,
}
use roomies.Auth.Accounts.Rows.{is_not_local, found_row, create_fresh}
use roomies.Auth.Accounts.Linked.{workos_other}

-- A call of one of the three handlers.
pub data SignIn : Type 0 where
  registers : Bool → Bool → ℕ → Option RegisterRequest → SignIn
  logs_in : Bool → Bool → Bool → Option LoginRequest → SignIn
  calls_back : Bool → Bool → ℕ → Option Bool → Option Identity → SignIn

abbrev pub sign_in : Lib → SignIn → Tables → Reply
sign_in lib (registers allowed enabled id req) s = (register lib allowed enabled id req s).0
sign_in lib (logs_in allowed enabled account req) s = login lib allowed enabled account req s
sign_in lib (calls_back configured allowed id transaction identity) s =
    (workos_callback lib configured allowed id transaction identity s).0

abbrev pub gives_session : ℕ → Reply → Bool
gives_session id too_many_requests = false
gives_session id password_disabled = false
gives_session id not_configured = false
gives_session id invalid_body = false
gives_session id fields_required = false
gives_session id bad_password_length = false
gives_session id bad_email = false
gives_session id already_registered = false
gives_session id internal_error = false
gives_session id invalid_credentials = false
gives_session id authentication_failed = false
gives_session id account_exists = false
gives_session id (signed_in u) = u.id == id

abbrev pub matches : Lib → ℕ → Option ℕ → Bool
matches lib password none = false
matches lib password (some hash) = lib.compare_hash hash password

-- The password of the call is the one of a user with the identifier.
abbrev pub knows_password : Lib → ℕ → ℕ → Tables → Bool
knows_password lib id password s =
    not (count_where (λ u. u.id == id && matches lib password u.password_hash) s.users == 0)

abbrev pub proves_password : Lib → ℕ → SignIn → Tables → Bool
proves_password lib id (registers _ _ _ _) s = false
proves_password lib id (logs_in _ _ _ none) s = false
proves_password lib id (logs_in _ _ _ (some req)) s = knows_password lib id req.password s
proves_password lib id (calls_back _ _ _ _ _) s = false

module _ (id : ℕ) (s : Tables) (there : (count_where (has_user_id id) s.users == 0) ≡ false)
    (local : count_where (is_not_local id) s.users ≡ 0) where
  callback_other :
      (lib : Lib) (r : Result AuthError (User × Tables))
      → ((v : User × Tables) → r ≡ ok v → (v.0.id == id) ≡ false)
      → gives_session id (callback_reply lib r s).0 ≡ true
      → false ≡ true
  callback_other lib (ok v) other h = ground (arith, other v refl, h)
  callback_other lib (err local_password_account) other h = h
  callback_other lib (err unique_violation) other h = h

  created_other :
      (lib : Lib) (new : User)
      → (r : Result AuthError (Unit {0} × Tables)) → create_user new s ≡ r
      → gives_session id (created lib new r s).0 ≡ true
      → false ≡ true
  created_other lib new (ok v) run h = ground (arith, create_fresh id new s v there run, h)
  created_other lib new (err e) run h = h

  -- A check that is refused gives no session.
  past :
      (b : Bool) (x : Reply) (y : Reply × Tables)
      → gives_session id x ≡ false
      → gives_session id (if b then (x, s) else y).0 ≡ true
      → gives_session id y.0 ≡ true
  past true x y refused h = absurd (ground (arith, refused, h))
  past false x y refused h = h

  past_reply :
      (b : Bool) (x y : Reply)
      → gives_session id x ≡ false
      → gives_session id (if b then x else y) ≡ true
      → gives_session id y ≡ true
  past_reply true x y refused h = absurd (ground (arith, refused, h))
  past_reply false x y refused h = h

  module _ (lib : Lib) where
    register_other :
        (allowed enabled : Bool) (fresh_id : ℕ) (o : Option RegisterRequest)
        → gives_session id (register lib allowed enabled fresh_id o s).0 ≡ true
        → false ≡ true
    unfolding register
    register_other allowed enabled fresh_id none h =
        past (not enabled) password_disabled (invalid_body, s) refl
          (past (not allowed) too_many_requests _ refl h)
    register_other allowed enabled fresh_id (some req) h =
        let email = normal_email lib req.email in
        let h' = past (not allowed) too_many_requests _ refl h in
        let h' = past (not enabled) password_disabled _ refl h' in
        let h' =
          past (is_empty lib (lib.trim req.name) || is_empty lib email || is_empty lib req.password)
            fields_required _ refl h' in
        let h' =
          past (ltb (lib.len req.password) 8 || ltb 72 (lib.len req.password)) bad_password_length _
            refl h' in
        let h' = past (not (lib.is_address email)) bad_email _ refl h' in
        hash_other (lib.generate_hash req.password) (
          past (not (count_where (has_email email) s.users == 0)) already_registered
            (register_hash lib fresh_id req (lib.generate_hash req.password) s) refl h')
      where
        hash_other :
            (o : Option ℕ)
            → gives_session id (register_hash lib fresh_id req o s).0 ≡ true
            → false ≡ true
        hash_other none k = k
        hash_other (some hash) k = created_other lib _ _ refl k

    callback_refused :
        (configured allowed : Bool) (fresh_id : ℕ) (transaction : Option Bool) (o : Option Identity)
        → gives_session id (workos_callback lib configured allowed fresh_id transaction o s).0
          ≡ true
        → false ≡ true
    unfolding workos_callback upsert_from_workos
    callback_refused configured allowed fresh_id none o h =
        past (not allowed) too_many_requests (invalid_body, s) refl
          (past (not configured) not_configured _ refl h)
    callback_refused configured allowed fresh_id (some ready) none h =
        past (not allowed) too_many_requests (authentication_failed, s) refl
          (past (not configured) not_configured _ refl h)
    callback_refused configured allowed fresh_id (some ready) (some i) h =
        callback_other lib
          (upsert_from_workos fresh_id i.workos_user_id (normal_email lib i.email) i.name s)
          (λ v run.
            workos_other id s there local fresh_id i.workos_user_id (normal_email lib i.email)
              i.name (select_one (has_workos_id i.workos_user_id) s.users) v refl run)
          (past (not ready) authentication_failed _ refl (
            past (not allowed) too_many_requests _ refl
              (past (not configured) not_configured _ refl h)))

    check_proves :
        (o : Option User) (hash : Option ℕ) (q : User → Bool) (password : ℕ)
        → select_one q s.users ≡ o
        → hash_of o ≡ hash
        → gives_session id (check_hash lib o hash password) ≡ true
        → knows_password lib id password s ≡ true
    check_proves none hash q password found own h = cc
    check_proves (some u) none q password found own h = cc
    check_proves (some u) (some hash) q password found own h =
        elim (Bool-cases (lib.compare_hash hash password)) [
          | inr wrong ↦ absurd (ground (arith, wrong, h))
          | inl right ↦
              let same : (u.id == id) ≡ true = ground (arith, right, h) in
              let match : matches lib password u.password_hash ≡ true = rw own right in
              let row =
                (found_row q s.users u found).1
                  (λ v. v.id == id && matches lib password v.password_hash)
                  (ground (arith, same, match)) in
              ground (arith, row)
        ]

    login_proves :
        (allowed enabled account : Bool) (o : Option LoginRequest)
        → gives_session id (login lib allowed enabled account o s) ≡ true
        → proves_password lib id (logs_in allowed enabled account o) s ≡ true
    unfolding login
    login_proves allowed enabled account none h =
        let h' = past_reply (not allowed) too_many_requests _ refl h in
        absurd (
          let q = past_reply (not enabled) password_disabled invalid_body refl h' in
          ground (arith, q))
    login_proves allowed enabled account (some req) h =
        let email = normal_email lib req.email in
        let found = select_one (has_email email) s.users in
        let h' = past_reply (not allowed) too_many_requests _ refl h in
        let h' = past_reply (not enabled) password_disabled _ refl h' in
        let h' =
          past_reply (is_empty lib email || is_empty lib req.password) fields_required _ refl h' in
        check_proves found (hash_of found) (has_email email) req.password refl refl (
          past_reply (not account) too_many_requests
            (check_hash lib found (hash_of found) req.password) refl h')

-- Only the password opens an account that has one. Where there is a user with an identifier, and
-- every user with it has a local password and no linked identity, then registering, signing in or
-- returning from WorkOS gives a session of that identifier only if it was a sign-in whose password is
-- the one of a user with the identifier.
pub password_needed :
    (lib : Lib) (id : ℕ) (call : SignIn) (s : Tables)
    → (count_where (has_user_id id) s.users == 0) ≡ false
    → count_where (is_not_local id) s.users ≡ 0
    → gives_session id (sign_in lib call s) ≡ true
    → proves_password lib id call s ≡ true
password_needed lib id (registers allowed enabled fresh_id o) s there local h =
    register_other id s there local lib allowed enabled fresh_id o h
password_needed lib id (logs_in allowed enabled account o) s there local h =
    login_proves id s there local lib allowed enabled account o h
password_needed lib id (calls_back configured allowed fresh_id transaction o) s there local h =
    callback_refused id s there local lib configured allowed fresh_id transaction o h
