-- ===== src/Idempotency/Replay.antt =====
-- What a first and a later request with an idempotency key find
-- (src/backend/internal/middleware/idempotency.go).
use Prim.Native.String.{String}
use roomies.Base.{
  ℕ, ◌≤◌, ◌≡◌, ◌∙◌, refl, ap, sym, ◌⊎◌, true, false, Option, none, some, List, [], ◌∷◌, arith, leb,
  ltb, ==_refl, if◌then◌else◌, Bool-cases, Option-cases, inl, inr,
}
use roomies.Base.Sql.{select_one}
use roomies.Idempotency.{
  Method, method_code, IdempotencyRecord, StoredHttpResponse, Request, Captured, Response, handled,
  replayed, refused, Server, of_key, complete_row, is_completed, start_idempotent_request,
  complete_idempotent_request, abort_idempotent_request, supports_idempotency, processing,
  max_idempotency_body_bytes, internal_server_error, capture_status, to_store, idempotency,
  same_request,
}

abbrev complete_option : StoredHttpResponse → Option IdempotencyRecord → Option IdempotencyRecord
complete_option response none = none
complete_option response (some y) = some (complete_row response y)

module _ (user key : ℕ) where
  select_complete :
      (response : StoredHttpResponse) (rows : List IdempotencyRecord) {r : IdempotencyRecord}
      → select_one (of_key user key) rows ≡ some r
      → select_one (of_key user key) (complete_idempotent_request user key response rows)
        ≡ some (complete_row response r)
  unfolding complete_idempotent_request
  select_complete response [] h = cc
  select_complete response (x ∷ rows) {r} h = elim (Bool-cases (of_key user key x)) [
    | inl here ↦
        let q : ◌≡◌ {A = Option IdempotencyRecord} (some x) (some r) = ground arith in
        let same : (if of_key user key x then complete_row response x else x)
            ≡ complete_row response x =
          rw here refl in
        rw same (rw here (ap (complete_option response) q))
    | inr other ↦
        let rest = select_complete response rows {r = r} (ground arith) in
        let same : (if of_key user key x then complete_row response x else x) ≡ x = rw other refl in
        rw same (rw other rest)
  ]

  delete_absent :
      (rows : List IdempotencyRecord)
      → select_one (of_key user key) rows ≡ none
      → abort_idempotent_request user key rows ≡ rows
  unfolding abort_idempotent_request
  delete_absent [] h = refl
  delete_absent (x ∷ rows) h = ground (arith, delete_absent rows)

module _ {S : Type 0} (byte_length : String → ℕ) (body_sha256 : String → ℕ)
    (redact_invitation_token_response : String → String) (next : Request → S → Captured × S) where
  abbrev serve_once : Request → Server S → Response × Server S
  serve_once = idempotency byte_length body_sha256 redact_invitation_token_response next

  abbrev store_of : Captured → StoredHttpResponse
  store_of = to_store byte_length body_sha256 redact_invitation_token_response next

  abbrev pub keyed : Method → ℕ → ℕ → ℕ → String → Request
  keyed method user key path content = record {
    method = method;
    key = some key;
    user_id = some user;
    path = path;
    content = some content;
  }

  -- A request by a method that the middleware keys (POST, PUT or DELETE), whose key is in the table of
  -- its user, never runs the handler: the tables and the application's state stay as they are, whatever
  -- the path and the body, and the answer is a refusal, or the stored response of a completed request
  -- with the same method, path and body hash.
  pub idempotency_known_key :
      (method : Method) (user key path : ℕ) (content : String) (s : Server S)
      (r : IdempotencyRecord)
      → supports_idempotency method ≡ true
      → select_one (of_key user key) s.rows ≡ some r
      → ((serve_once (keyed method user key path content) s).1 ≡ s)
        × (((code : ℕ) × ((serve_once (keyed method user key path content) s).0 ≡ refused code))
            ⊎ ((stored : StoredHttpResponse) × (r.response ≡ some stored)
                × (is_completed r.state ≡ true)
                × (same_request method path (body_sha256 content) r ≡ true)
                × ((serve_once (keyed method user key path content) s).0 ≡ replayed stored)))
  unfolding idempotency start_idempotent_request
  idempotency_known_key method user key path content s r supported known =
      elim (Bool-cases (ltb max_idempotency_body_bytes (byte_length content))) [
        | inl large ↦ (ground arith, inl (413, ground arith))
        | inr small ↦ elim (Bool-cases (same_request method path (body_sha256 content) r)) [
          | inr different ↦ (ground arith, inl (409, ground arith))
          | inl same ↦ elim (Bool-cases (is_completed r.state)) [
            | inr busy ↦ (ground arith, inl (409, ground arith))
            | inl done ↦ elim (Option-cases r.response) [
              | inl absent ↦ (ground arith, inl (500, ground arith))
              | inr (stored, there) ↦ (ground arith, inr (stored, there, done, same, ground arith))
            ]
          ]
        ]
      ]

  replay_of_completed :
      (method : Method) (user key path : ℕ) (content : String) (t : Server S)
      (r : IdempotencyRecord) (stored : StoredHttpResponse)
      → supports_idempotency method ≡ true
      → byte_length content ≤ max_idempotency_body_bytes
      → select_one (of_key user key) t.rows ≡ some r
      → same_request method path (body_sha256 content) r ≡ true
      → is_completed r.state ≡ true
      → r.response ≡ some stored
      → serve_once (keyed method user key path content) t ≡ (replayed stored, t)
  unfolding idempotency start_idempotent_request
  replay_of_completed method user key path content t r stored supported small known same done
        there =
      ground arith

  abbrev new_record : Method → ℕ → ℕ → ℕ → String → IdempotencyRecord
  new_record method user key path content = record {
    user_id = user;
    idempotency_key = key;
    method = method;
    path = path;
    body_hash = body_sha256 content;
    state = processing;
    response = none;
  }

  -- The server after a new key whose handler's status is below 500.
  abbrev served : Request → IdempotencyRecord → Server S → Server S
  served req r s = record {
    rows =
        complete_idempotent_request r.user_id r.idempotency_key (store_of (next req s.app).0)
          (r ∷ s.rows);
    app = (next req s.app).1;
  }

  first_time :
      (method : Method) (user key path : ℕ) (content : String) (s : Server S)
      → supports_idempotency method ≡ true
      → byte_length content ≤ max_idempotency_body_bytes
      → select_one (of_key user key) s.rows ≡ none
      → leb internal_server_error
          (capture_status (next (keyed method user key path content) s.app).0.status_code)
        ≡ false
      → serve_once (keyed method user key path content) s ≡ (
        handled (next (keyed method user key path content) s.app).0,
        served (keyed method user key path content) (new_record method user key path content) s,
      )
  unfolding idempotency start_idempotent_request
  first_time method user key path content s supported small new good = ground arith

  -- What the handler answered is replayed to a repeated request, of a method that the middleware keys
  -- (POST, PUT or DELETE): where the key is new, the body is in
  -- bounds and the handler's status is below 500, the repeated request runs no handler, so the
  -- application's state and the table stay as the first left them, and its answer is the stored response.
  pub idempotency_replays :
      (method : Method) (user key path : ℕ) (content : String) (s : Server S)
      → supports_idempotency method ≡ true
      → byte_length content ≤ max_idempotency_body_bytes
      → select_one (of_key user key) s.rows ≡ none
      → leb internal_server_error
          (capture_status (next (keyed method user key path content) s.app).0.status_code)
        ≡ false
      → (let req = keyed method user key path content in
          let first = serve_once req s in
          let out = next req s.app in
          (first.0 ≡ handled out.0)
          × (first.1.app ≡ out.1)
          × (serve_once req first.1 ≡ (replayed (store_of out.0), first.1)))
  unfolding idempotency start_idempotent_request complete_idempotent_request
  idempotency_replays method user key path content s supported small new good =
      let req = keyed method user key path content in
      let r = new_record method user key path content in
      let first = first_time method user key path content s supported small new good in
      let t = served req r s in
      let stored = store_of (next req s.app).0 in
      let found =
        select_complete user key stored (r ∷ s.rows) {r = r}
          (ground (arith, ==_refl user, ==_refl key)) in
      let same : same_request method path (body_sha256 content) r ≡ true =
        ground (arith, ==_refl (method_code method), ==_refl path, ==_refl (body_sha256 content)) in
      let again =
        replay_of_completed method user key path content t (complete_row stored r) stored supported
          small found same refl refl in
      (
        ap (λ x. x.0) first,
        ap (λ x. x.1.app) first,
        ap (λ x. serve_once req x.1) first ∙ again ∙ ap (λ x. (replayed stored, x.1)) (sym first),
      )

  -- A request whose handler fails with a status of 500 or above leaves no trace in the table: its key is
  -- free again, and only the handler's own change of the application's state stays.
  pub idempotency_aborts :
      (method : Method) (user key path : ℕ) (content : String) (s : Server S)
      → supports_idempotency method ≡ true
      → byte_length content ≤ max_idempotency_body_bytes
      → select_one (of_key user key) s.rows ≡ none
      → leb internal_server_error
          (capture_status (next (keyed method user key path content) s.app).0.status_code)
        ≡ true
      → serve_once (keyed method user key path content) s ≡ (
        handled (next (keyed method user key path content) s.app).0,
        record { rows = s.rows; app = (next (keyed method user key path content) s.app).1 },
      )
  unfolding idempotency start_idempotent_request abort_idempotent_request
  idempotency_aborts method user key path content s supported small new bad =
      ground (arith, delete_absent user key s.rows new, ==_refl user, ==_refl key)
