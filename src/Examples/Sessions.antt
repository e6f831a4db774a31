-- ===== src/Examples/Sessions.antt =====
-- Sign-ins, sessions and sign-outs.
use roomies.Base.{ℕ, ◌+◌, ◌*◌, ◌≡◌, refl, false, true, none, some, [], ◌∷◌, arith, ◌==◌}
use roomies.Queue.{second}
use roomies.Auth.{
  User, Tables, Claims, Jwt, Request, bearer, no_header, authorized, jwt_auth, logout,
  purge_expired_revocations, generate_token,
}
use roomies.Auth.SignedOut.{Steps, waits, purges, done, is_authorized, signed_out_refused}
use roomies.Auth.Accepted.{session_accepted}
use roomies.Auth.Accounts.{Lib, login}
use roomies.Auth.Accounts.Protected.{
  SignIn, logs_in, sign_in, gives_session, proves_password, password_needed,
}

abbrev cat : User
cat = record { id = 3; name = 4; email = 6; password_hash = some 108; workos_user_id = none }

abbrev one_user : Tables
one_user = record { users = cat ∷ []; revoked_sessions = [] }

-- A session of 50 seconds under the identifier 9.
abbrev session : Claims
session = record { user_id = some 3; email = 6; jti = some 9; exp = 60; workos_session_id = none }

abbrev one_token : Jwt
one_token = record {
  sign = λ _. 1;
  verified = λ t. elim (t == 1) [ true ↦ some session | false ↦ none ];
}

abbrev with_token : Request
with_token = record { authorization = bearer (some 1); cookie = none }

abbrev by_cookie : Request
by_cookie = record { authorization = no_header; cookie = some 1 }

abbrev signed_out : Tables
signed_out = record {
  users = cat ∷ [];
  revoked_sessions = record { jti = 9; expires_at = 60 * second } ∷ [];
}

before : jwt_auth one_token (20 * second) by_cookie one_user ≡ authorized 3 6
unfolding jwt_auth
before = refl

out : logout one_token (20 * second) with_token one_user ≡ signed_out
unfolding logout
out = refl

purged : purge_expired_revocations (59 * second) signed_out ≡ signed_out
unfolding purge_expired_revocations
purged = refl

later-Steps :
    Steps one_token
      (20 * second)
      (logout one_token (20 * second) with_token one_user)
      (59 * second)
      (purge_expired_revocations (59 * second) (logout one_token (20 * second) with_token one_user))
later-Steps = waits (ground arith) (purges done)

signed_out_refused_example :
    is_authorized (
      jwt_auth one_token (59 * second) by_cookie (
        purge_expired_revocations
          (59 * second)
          (logout one_token (20 * second) with_token one_user)))
    ≡ false
signed_out_refused_example =
    signed_out_refused one_token (20 * second) (59 * second) 1 9 session with_token by_cookie
      one_user
      (purge_expired_revocations (59 * second) (logout one_token (20 * second) with_token one_user))
      refl refl refl refl refl later-Steps

abbrev start : ℕ
start = 10500000000

token_lem : some 1 ≡ some (generate_token one_token start (50 * second) cat 9 none)
unfolding generate_token
token_lem = refl

session_accepted_example : jwt_auth one_token (59 * second) by_cookie one_user ≡ authorized 3 6
session_accepted_example =
    session_accepted one_token start (50 * second) (59 * second) 9 cat none by_cookie one_user refl
      token_lem (ground arith) refl refl

-- A password is a number, its hash is 100 more.
abbrev shifted : Lib
shifted = record {
  len = λ t. t;
  trim = λ t. t;
  lower = λ t. t;
  is_address = λ _. true;
  generate_hash = λ p. some (p + 100);
  compare_hash = λ h p. h == p + 100;
}

abbrev sign_in_call : SignIn
sign_in_call = logs_in true true true (some (record { email = 6; password = 8 }))

signs_in : gives_session 3 (sign_in shifted sign_in_call one_user) ≡ true
unfolding login
signs_in = refl

password_needed_example : proves_password shifted 3 sign_in_call one_user ≡ true
password_needed_example = password_needed shifted 3 sign_in_call one_user refl refl signs_in
