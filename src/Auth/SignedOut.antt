-- ===== src/Auth/SignedOut.antt =====
-- Sessions that were signed out (src/backend/internal/handlers/auth.go,
-- src/backend/internal/repository/users.go).
use roomies.Base.{
  ℕ, ◌≤◌, ◌<◌, ◌≡◌, refl, ◌⊎◌, Bool, true, false, ◌&&◌, Option, none, some, List, [], ◌∷◌, arith,
  ltb, leb, ◌==◌, ==_refl, Bool-cases, Option-cases, inl, inr,
}
use roomies.Base.Sql.{count_where, delete_where}
use roomies.Auth.{
  User, RevokedSession, Tables, Claims, expiry, Jwt, Request, session_token, has_jti, AuthReply,
  missing_header, invalid_token, invalid_payload, session_ended, authorized, jwt_auth, is_past,
  purge_expired_revocations, logout, revoke_claims, revoke_jti, revoke_session, session_claims,
}

abbrev pub is_authorized : AuthReply → Bool
is_authorized missing_header = false
is_authorized invalid_token = false
is_authorized invalid_payload = false
is_authorized session_ended = false
is_authorized (authorized _ _) = true

-- Time passes, revocations are purged, sessions are signed out, and the users are changed in any way.
pub data Steps (jwt : Jwt) : ℕ → Tables → ℕ → Tables → Type 0 where
  done : {now : ℕ} {s : Tables} → Steps jwt now s now s
  waits :
      {now later end : ℕ} {s t : Tables}
      → now ≤ later
      → Steps jwt later s end t
      → Steps jwt now s end t
  purges :
      {now end : ℕ} {s t : Tables}
      → Steps jwt now (purge_expired_revocations now s) end t
      → Steps jwt now s end t
  signs_out :
      (r : Request) {now end : ℕ} {s t : Tables}
      → Steps jwt now (logout jwt now r s) end t
      → Steps jwt now s end t
  changes_users :
      (users : List User) {now end : ℕ} {s t : Tables}
      → Steps jwt now (record s { users = users }) end t
      → Steps jwt now s end t

-- A revocation of the identifier that lasts at least as long as the session.
abbrev pub covers : ℕ → ℕ → RevokedSession → Bool
covers jti exp r = r.jti == jti && leb exp r.expires_at

abbrev IsOver : ℕ → ℕ → ℕ → Tables → Type 0
IsOver jti exp now s =
    (exp ≤ now) ⊎ ((count_where (covers jti exp) s.revoked_sessions == 0) ≡ false)

purge_covers :
    (jti exp now : ℕ) (xs : List RevokedSession)
    → now < exp
    → (count_where (covers jti exp) xs == 0) ≡ false
    → (count_where (covers jti exp) (delete_where (is_past now) xs) == 0) ≡ false
purge_covers jti exp now [] early h = cc
purge_covers jti exp now (x ∷ xs) early h = elim (Bool-cases (covers jti exp x)) [
  | inl hit ↦
      let kept : is_past now x ≡ false = ground (arith, hit, early) in ground (arith, hit, kept)
  | inr miss ↦
      let rest = purge_covers jti exp now xs early (ground (arith, miss, h)) in
      elim (Bool-cases (is_past now x)) [
        | inl gone ↦ ground (arith, gone, rest)
        | inr kept ↦ ground (arith, kept, miss, rest)
      ]
]

covered_blocks :
    (jti exp : ℕ) (xs : List RevokedSession)
    → (count_where (covers jti exp) xs == 0) ≡ false
    → (count_where (has_jti jti) xs == 0) ≡ false
covered_blocks jti exp [] h = cc
covered_blocks jti exp (x ∷ xs) h = elim (Bool-cases (covers jti exp x)) [
  | inl hit ↦ ground (arith, hit)
  | inr miss ↦
      let rest = covered_blocks jti exp xs (ground (arith, miss, h)) in ground (arith, rest)
]

module _ (jwt : Jwt) (jti exp : ℕ) where
  revoke_keeps :
      (now other expires : ℕ) (s : Tables)
      → IsOver jti exp now s
      → IsOver jti exp now (revoke_session other expires s)
  revoke_keeps now other expires s (inl late) = inl late
  revoke_keeps now other expires s (inr h) =
      elim (Bool-cases (count_where (has_jti other) s.revoked_sessions == 0)) [
        | inl fresh ↦ inr (ground (arith, fresh, h))
        | inr there ↦ inr (ground (arith, there, h))
      ]

  claims_keep :
      (now : ℕ) (o : Option Claims) (s : Tables)
      → IsOver jti exp now s
      → IsOver jti exp now (revoke_claims o s)
  claims_keep now none s h = h
  claims_keep now (some c) s h = go c.jti
    where
      go : (o : Option ℕ) → IsOver jti exp now (revoke_jti o (expiry c) s)
      go none = h
      go (some other) = revoke_keeps now other (expiry c) s h

  purge_keeps :
      (now : ℕ) (s : Tables)
      → IsOver jti exp now s
      → IsOver jti exp now (purge_expired_revocations now s)
  unfolding purge_expired_revocations
  purge_keeps now s (inl late) = inl late
  purge_keeps now s (inr h) = elim (Bool-cases (ltb now exp)) [
    | inl early ↦ inr (purge_covers jti exp now s.revoked_sessions (ground (arith, early)) h)
    | inr late ↦ inl (ground (arith, late))
  ]

  wait_keeps :
      (now later : ℕ) (s : Tables) → now ≤ later → IsOver jti exp now s → IsOver jti exp later s
  wait_keeps now later s le (inl late) = inl (ground (arith, le, late))
  wait_keeps now later s le (inr h) = inr h

  Steps-keep :
      {now end : ℕ} {s t : Tables}
      → Steps jwt now s end t
      → IsOver jti exp now s
      → IsOver jti exp end t
  unfolding logout
  Steps-keep done h = h
  Steps-keep (waits {now} {later} {end} {s} {t} le rest) h =
      Steps-keep rest (wait_keeps now later s le h)
  Steps-keep (purges {now} {end} {s} {t} rest) h = Steps-keep rest (purge_keeps now s h)
  Steps-keep (signs_out r {now} {end} {s} {t} rest) h =
      Steps-keep rest (claims_keep now (session_claims jwt now (session_token r)) s h)
  Steps-keep (changes_users users {now} {end} {s} {t} rest) h = Steps-keep rest h

-- Where a token has the claims, its session is over and nobody is authorized by it.
over_refused :
    (jwt : Jwt) (now raw jti : ℕ) (c : Claims) (r : Request) (s : Tables)
    → session_token r ≡ some raw
    → jwt.verified raw ≡ some c
    → c.jti ≡ some jti
    → IsOver jti (expiry c) now s
    → is_authorized (jwt_auth jwt now r s) ≡ false
unfolding jwt_auth
over_refused jwt now raw jti c r s token verified id over = elim (Bool-cases (ltb now (expiry c))) [
  | inr late ↦ rw (token, verified, late) refl
  | inl early ↦ elim over [
    | inl late ↦ absurd (ground (arith, early, late))
    | inr covered ↦
        let blocked = covered_blocks jti (expiry c) s.revoked_sessions covered in
        elim (Option-cases c.user_id) [
          | inl nobody ↦ rw (token, verified, early, nobody) refl
          | inr (user, there) ↦ rw (token, verified, early, there, id) (ground (arith, blocked))
        ]
  ]
]

all_cover :
    (jti exp : ℕ) (xs : List RevokedSession)
    → count_where (λ x. has_jti jti x && ltb x.expires_at exp) xs ≡ 0
    → (count_where (has_jti jti) xs == 0) ≡ false
    → (count_where (covers jti exp) xs == 0) ≡ false
all_cover jti exp [] long there = cc
all_cover jti exp (x ∷ xs) long there = elim (Bool-cases (has_jti jti x)) [
  | inl hit ↦ ground (arith, hit, long)
  | inr miss ↦
      let rest = all_cover jti exp xs (ground (arith, miss, long)) (ground (arith, miss, there)) in
      ground (arith, miss, rest)
]

-- The revocation is there, or an earlier one that lasts as long.
revoked_covers :
    (jti exp : ℕ) (s : Tables)
    → count_where (λ x. has_jti jti x && ltb x.expires_at exp) s.revoked_sessions ≡ 0
    → (count_where (covers jti exp) (revoke_session jti exp s).revoked_sessions == 0) ≡ false
revoked_covers jti exp s long =
    elim (Bool-cases (count_where (has_jti jti) s.revoked_sessions == 0)) [
      | inl fresh ↦ rw fresh (ground (arith, ==_refl jti))
      | inr there ↦ rw there (all_cover jti exp s.revoked_sessions long there)
    ]

logged_out :
    (jwt : Jwt) (now raw jti : ℕ) (c : Claims) (r : Request) (s : Tables)
    → session_token r ≡ some raw
    → jwt.verified raw ≡ some c
    → c.jti ≡ some jti
    → count_where (λ x. has_jti jti x && ltb x.expires_at (expiry c)) s.revoked_sessions ≡ 0
    → IsOver jti (expiry c) now (logout jwt now r s)
unfolding logout
logged_out jwt now raw jti c r s token verified id long = elim (Bool-cases (ltb now (expiry c))) [
  | inr late ↦ inl (ground (arith, late))
  | inl early ↦ inr (rw (token, verified, early, id) (revoked_covers jti (expiry c) s long))
]

-- A session that was signed out is never accepted again. Where a verified token has a session
-- identifier, and no revocation of that identifier ends before the token does, signing out with it
-- has the effect that, after any time, purges of old revocations, other sign-outs and changes of the
-- users, no request with the token is authorized.
pub signed_out_refused :
    (jwt : Jwt) (now end raw jti : ℕ) (c : Claims) (r late : Request) (s t : Tables)
    → session_token r ≡ some raw
    → session_token late ≡ some raw
    → jwt.verified raw ≡ some c
    → c.jti ≡ some jti
    → count_where (λ x. has_jti jti x && ltb x.expires_at (expiry c)) s.revoked_sessions ≡ 0
    → Steps jwt now (logout jwt now r s) end t
    → is_authorized (jwt_auth jwt end late t) ≡ false
signed_out_refused jwt now end raw jti c r late s t token late_token verified id long steps =
    over_refused jwt end raw jti c late t late_token verified id (
      Steps-keep jwt jti (expiry c) steps (logged_out jwt now raw jti c r s token verified id long))
