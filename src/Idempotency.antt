-- ===== src/Idempotency.antt =====
-- Requests with an idempotency key: src/backend/internal/repository/idempotency.go and the
-- middleware of src/backend/internal/middleware/idempotency.go around a handler.
pub mod Replay
use Prim.Native.String.{String}
use roomies.Base.{
  ℕ, suc, Bool, true, false, not, ◌&&◌, ◌||◌, Option, none, some, List, [], ◌∷◌, leb, ltb, ◌==◌,
  if◌then◌else◌,
}
use roomies.Base.Sql.{select_one, update_where, delete_where}
use roomies.Base.Result.{Result, ok, err}

pub data IdempotencyError : Type 0 where
  idempotency_conflict idempotency_in_progress missing_status_code : IdempotencyError

pub data State : Type 0 where
  processing completed : State

-- `http.MethodPost` and the others; `other` is any method but these.
pub data Method : Type 0 where
  get post put delete other : Method

abbrev pub method_code : Method → ℕ
method_code get = 0
method_code post = 1
method_code put = 2
method_code delete = 3
method_code other = 4

abbrev pub same_method : Method → Method → Bool
same_method a b = method_code a == method_code b

pub record StoredHttpResponse : Type 0 where
  pub status_code : ℕ
  pub body : String
  pub content_type : String

-- A row of `idempotency_keys`; the three nullable columns of the response are set together.
pub record IdempotencyRecord : Type 0 where
  pub user_id : ℕ
  pub idempotency_key : ℕ
  pub method : Method
  pub path : ℕ
  pub body_hash : ℕ
  pub state : State
  pub response : Option StoredHttpResponse

abbrev pub is_completed : State → Bool
is_completed processing = false
is_completed completed = true

abbrev pub of_key : ℕ → ℕ → IdempotencyRecord → Bool
of_key user key r = r.user_id == user && r.idempotency_key == key

abbrev pub same_request : Method → ℕ → ℕ → IdempotencyRecord → Bool
same_request method path hash r =
    same_method r.method method && r.path == path && r.body_hash == hash

abbrev pub stored_response :
    Option StoredHttpResponse → Result IdempotencyError (Option StoredHttpResponse)
stored_response none = err missing_status_code
stored_response (some r) = ok (some r)

-- What a request finds whose INSERT meets UNIQUE(user_id, idempotency_key).
abbrev pub existing :
    Method → ℕ → ℕ → IdempotencyRecord → Result IdempotencyError (Option StoredHttpResponse)
existing method path hash r =
    if not (same_request method path hash r)
    then err idempotency_conflict
    else (if not (is_completed r.state)
        then err idempotency_in_progress
        else stored_response r.response)

abbrev pub started :
    ℕ
    → ℕ
    → Method
    → ℕ
    → ℕ
    → List IdempotencyRecord
    → Option IdempotencyRecord
    → Result IdempotencyError (Option StoredHttpResponse) × List IdempotencyRecord
started user key method path hash rows none = (
  ok none,
  record {
    user_id = user;
    idempotency_key = key;
    method = method;
    path = path;
    body_hash = hash;
    state = processing;
    response = none;
  }
      ∷ rows,
)
started user key method path hash rows (some r) = (existing method path hash r, rows)

-- `StartIdempotentRequest`
unfoldable pub start_idempotent_request :
    ℕ
    → ℕ
    → Method
    → ℕ
    → ℕ
    → List IdempotencyRecord
    → Result IdempotencyError (Option StoredHttpResponse) × List IdempotencyRecord
start_idempotent_request user key method path hash rows =
    started user key method path hash rows (select_one (of_key user key) rows)

abbrev pub complete_row : StoredHttpResponse → IdempotencyRecord → IdempotencyRecord
complete_row response r = record r { state = completed; response = some response }

-- `CompleteIdempotentRequest`
unfoldable pub complete_idempotent_request :
    ℕ → ℕ → StoredHttpResponse → List IdempotencyRecord → List IdempotencyRecord
complete_idempotent_request user key response =
    update_where (of_key user key) (complete_row response)

-- `AbortIdempotentRequest`
unfoldable pub abort_idempotent_request : ℕ → ℕ → List IdempotencyRecord → List IdempotencyRecord
abort_idempotent_request user key =
    delete_where (λ r. of_key user key r && not (is_completed r.state))

pub record Request : Type 0 where
  pub method : Method
  -- The trimmed header and the authenticated user, `none` where they are empty.
  pub key : Option ℕ
  pub user_id : Option ℕ
  pub path : ℕ
  -- `none` where reading the body fails.
  pub content : Option String

-- What the handler leaves in `responseCapture`; status 0 where it never wrote.
pub record Captured : Type 0 where
  pub status_code : ℕ
  pub body : String
  pub content_type : Option String
  pub one_time_token : Bool

pub data Response : Type 0 where
  handled : Captured → Response
  replayed : StoredHttpResponse → Response
  refused : ℕ → Response

abbrev pub supports_idempotency : Method → Bool
supports_idempotency post = true
supports_idempotency put = true
supports_idempotency delete = true
supports_idempotency _ = false

abbrev pub max_idempotency_body_bytes : ℕ
max_idempotency_body_bytes = 1048576

abbrev pub internal_server_error : ℕ
internal_server_error = 500

abbrev pub content_type_of : Option String → String
content_type_of none = "application/octet-stream"
content_type_of (some t) = t

-- The table of keys, and the state of the handlers.
pub record Server (S : Type 0) : Type 0 where
  pub rows : List IdempotencyRecord
  pub app : S

-- The status that is stored: 200 where the handler wrote none.
abbrev pub capture_status : ℕ → ℕ
capture_status n = if n == 0 then 200 else n

-- The middleware. Code outside the repository: the length of a body in bytes, SHA-256, and the
-- JSON decoder and encoder behind `redactInvitationTokenResponse`. `next` is the handler, over the
-- state `S` it works on.
module _ {S : Type 0} (byte_length : String → ℕ) (body_sha256 : String → ℕ)
    (redact_invitation_token_response : String → String) (next : Request → S → Captured × S) where
  abbrev pub to_store : Captured → StoredHttpResponse
  to_store c = record {
    status_code = capture_status c.status_code;
    body = if c.one_time_token then redact_invitation_token_response c.body else c.body;
    content_type = content_type_of c.content_type;
  }

  abbrev pub serve : Request → Server S → Response × Server S
  serve req s = let out = next req s.app in (handled out.0, record s { app = out.1 })

  -- After `next.ServeHTTP(capture, r)`.
  abbrev pub finish : ℕ → ℕ → Captured × S → List IdempotencyRecord → Response × Server S
  finish user key out rows =
      if leb internal_server_error (capture_status out.0.status_code)
      then (handled out.0, record { rows = abort_idempotent_request user key rows; app = out.1 })
      else (
        handled out.0,
        record { rows = complete_idempotent_request user key (to_store out.0) rows; app = out.1 },
      )

  abbrev pub dispatch :
      ℕ
      → ℕ
      → Request
      → S
      → Result IdempotencyError (Option StoredHttpResponse) × List IdempotencyRecord
      → Response × Server S
  dispatch user key req app (ok (some stored), rows) =
      (replayed stored, record { rows = rows; app = app })
  dispatch user key req app (ok none, rows) = finish user key (next req app) rows
  dispatch user key req app (err idempotency_conflict, rows) =
      (refused 409, record { rows = rows; app = app })
  dispatch user key req app (err idempotency_in_progress, rows) =
      (refused 409, record { rows = rows; app = app })
  dispatch user key req app (err missing_status_code, rows) =
      (refused 500, record { rows = rows; app = app })

  abbrev pub with_body : ℕ → ℕ → Request → Server S → Option String → Response × Server S
  with_body user key req s none = (refused 400, s)
  with_body user key req s (some body) =
      if ltb max_idempotency_body_bytes (byte_length body)
      then (refused 413, s)
      else dispatch user key req s.app
          (start_idempotent_request user key req.method req.path (body_sha256 body) s.rows)

  abbrev pub with_key : Request → Server S → Option ℕ → Option ℕ → Response × Server S
  with_key req s (some key) (some user) = with_body user key req s req.content
  with_key req s none _ = serve req s
  with_key req s (some key) none = serve req s

  unfoldable pub idempotency : Request → Server S → Response × Server S
  unfolding start_idempotent_request complete_idempotent_request abort_idempotent_request
  idempotency req s =
      if not (supports_idempotency req.method)
      then serve req s
      else with_key req s req.key req.user_id
