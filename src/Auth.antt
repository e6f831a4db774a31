-- ===== src/Auth.antt =====
-- Users and sessions: src/backend/internal/repository/users.go, `JWTAuth` of
-- src/backend/internal/middleware/auth.go and the handlers of src/backend/internal/handlers/auth.go.
-- Texts are numbers; the signing of tokens, the hash of passwords and the functions on texts are
-- parameters. Times are nanoseconds.
pub mod SignedOut
pub mod Accepted
pub mod Accounts
use roomies.Base.{
  ℕ, ◌+◌, ◌*◌, ◌/◌, Bool, true, false, not, ◌&&◌, ◌||◌, Option, none, some, List, [], ◌∷◌, ltb, leb,
  ◌==◌, if◌then◌else◌,
}
use roomies.Base.Sql.{select_one, count_where, update_where, delete_where}
use roomies.Base.Result.{Result, ok, err}
use roomies.Base.Tx.{Tx, pure, read, modify, fail, fail_if, ◌>>=◌, ◌>>◌}
use roomies.Queue.{second}

-- `password_hash` is `none` for the empty text.
pub record User : Type 0 where
  pub id : ℕ
  pub name : ℕ
  pub email : ℕ
  pub password_hash : Option ℕ
  pub workos_user_id : Option ℕ

pub record RevokedSession : Type 0 where
  pub jti : ℕ
  pub expires_at : ℕ

pub record Tables : Type 0 where
  pub users : List User
  pub revoked_sessions : List RevokedSession

-- The claims of a session; an identifier that is missing or empty is `none`.
pub record Claims : Type 0 where
  pub user_id : Option ℕ
  pub email : ℕ
  pub jti : Option ℕ
  -- in whole seconds, as the token has it
  pub exp : ℕ
  pub workos_session_id : Option ℕ

-- The token library with the secret: the claims of a token with a valid HS256 signature and an expiry.
pub record Jwt : Type 0 where
  pub sign : Claims → ℕ
  pub verified : ℕ → Option Claims

-- The `Authorization` header: none, one that is no bearer, or a bearer, and the session cookie; an
-- empty token is `none`.
pub data Authorization : Type 0 where
  no_header malformed : Authorization
  bearer : Option ℕ → Authorization

pub record Request : Type 0 where
  pub authorization : Authorization
  pub cookie : Option ℕ

abbrev pub token_from : Authorization → Option ℕ → Option ℕ
token_from no_header cookie = cookie
token_from malformed cookie = none
token_from (bearer token) cookie = token

-- `sessionToken`
abbrev pub session_token : Request → Option ℕ
session_token r = token_from r.authorization r.cookie

-- `Unix()` drops the part of a second.
abbrev pub unix : ℕ → ℕ
unix t = t / second

-- The `Time` of the claim `exp`.
abbrev pub expiry : Claims → ℕ
expiry c = c.exp * second

-- Before the expiry.
abbrev pub unexpired : ℕ → Option Claims → Option Claims
unexpired now none = none
unexpired now (some c) = if ltb now (expiry c) then some c else none

-- `ParseSessionClaims`
abbrev pub parse_session_claims : Jwt → ℕ → ℕ → Option Claims
parse_session_claims jwt now raw = unexpired now (jwt.verified raw)

abbrev pub has_user_id : ℕ → User → Bool
has_user_id id u = u.id == id

abbrev pub has_jti : ℕ → RevokedSession → Bool
has_jti jti r = r.jti == jti

-- `SessionActive`
abbrev pub session_active : ℕ → ℕ → Tables → Bool
session_active user jti s =
    not (count_where (has_user_id user) s.users == 0)
    && count_where (has_jti jti) s.revoked_sessions == 0

-- The answers of `JWTAuth`; `authorized` calls the next handler.
pub data AuthReply : Type 0 where
  missing_header invalid_token invalid_payload session_ended : AuthReply
  authorized : ℕ → ℕ → AuthReply

abbrev pub auth_ids : Option ℕ → Option ℕ → ℕ → Tables → AuthReply
auth_ids none jti email s = invalid_payload
auth_ids (some user) none email s = invalid_payload
auth_ids (some user) (some jti) email s =
    if session_active user jti s then authorized user email else session_ended

abbrev pub auth_claims : Option Claims → Tables → AuthReply
auth_claims none s = invalid_token
auth_claims (some c) s = auth_ids c.user_id c.jti c.email s

abbrev pub auth_token : Jwt → ℕ → Option ℕ → Tables → AuthReply
auth_token jwt now none s = missing_header
auth_token jwt now (some raw) s = auth_claims (parse_session_claims jwt now raw) s

unfoldable pub jwt_auth : Jwt → ℕ → Request → Tables → AuthReply
jwt_auth jwt now r s = auth_token jwt now (session_token r) s

-- `RevokeSession`: ON CONFLICT (jti) DO NOTHING.
abbrev pub revoke_session : ℕ → ℕ → Tables → Tables
revoke_session jti expires s =
    if count_where (has_jti jti) s.revoked_sessions == 0
    then (record s {
      revoked_sessions = record { jti = jti; expires_at = expires } ∷ s.revoked_sessions;
    })
    else s

abbrev pub is_past : ℕ → RevokedSession → Bool
is_past now r = ltb r.expires_at now

unfoldable pub purge_expired_revocations : ℕ → Tables → Tables
purge_expired_revocations now s = record s {
  revoked_sessions = delete_where (is_past now) s.revoked_sessions;
}

-- `sessionClaims`
abbrev pub session_claims : Jwt → ℕ → Option ℕ → Option Claims
session_claims jwt now none = none
session_claims jwt now (some raw) = parse_session_claims jwt now raw

abbrev pub revoke_jti : Option ℕ → ℕ → Tables → Tables
revoke_jti none expires s = s
revoke_jti (some jti) expires s = revoke_session jti expires s

abbrev pub revoke_claims : Option Claims → Tables → Tables
revoke_claims none s = s
revoke_claims (some c) s = revoke_jti c.jti (expiry c) s

-- `Logout`, where the database answers; it also clears the cookies.
unfoldable pub logout : Jwt → ℕ → Request → Tables → Tables
logout jwt now r s = revoke_claims (session_claims jwt now (session_token r)) s

-- The claims of `generateToken`; `jti` is a fresh random text.
abbrev pub session_of : ℕ → ℕ → User → ℕ → Option ℕ → Claims
session_of now ttl user jti workos_session = record {
  user_id = some user.id;
  email = user.email;
  jti = some jti;
  exp = unix (now + ttl);
  workos_session_id = workos_session;
}

unfoldable pub generate_token : Jwt → ℕ → ℕ → User → ℕ → Option ℕ → ℕ
generate_token jwt now ttl user jti workos_session =
    jwt.sign (session_of now ttl user jti workos_session)
