-- ===== src/Auth/Accepted.antt =====
-- Sessions that are given out (src/backend/internal/handlers/auth.go).
use roomies.Base.{ℕ, ◌+◌, ◌*◌, ◌<◌, ◌≡◌, false, Option, some, arith, ◌==◌}
use roomies.Base.Sql.{count_where}
use roomies.Queue.{second}
use roomies.Auth.{
  User, Tables, Jwt, Request, has_user_id, has_jti, authorized, jwt_auth, session_of, unix,
  generate_token, session_token,
}

-- A token that a sign-in gives is accepted until it expires, which is the end of the session rounded
-- down to a whole second. Where the library reads the claims of the session back from the token that
-- it signed, a request with the token of a user is authorized as that user and with that e-mail at
-- any time before that second, as long as the user exists and the session is not revoked.
pub session_accepted :
    (jwt : Jwt) (now ttl later jti : ℕ) (u : User) (workos_session : Option ℕ) (r : Request)
    (s : Tables)
    → jwt.verified (jwt.sign (session_of now ttl u jti workos_session))
      ≡ some (session_of now ttl u jti workos_session)
    → session_token r ≡ some (generate_token jwt now ttl u jti workos_session)
    → later < unix (now + ttl) * second
    → (count_where (has_user_id u.id) s.users == 0) ≡ false
    → count_where (has_jti jti) s.revoked_sessions ≡ 0
    → jwt_auth jwt later r s ≡ authorized u.id u.email
unfolding jwt_auth generate_token
session_accepted jwt now ttl later jti u workos_session r s reads token early user active =
    rw (token, reads) (ground (arith, early, user, active))
