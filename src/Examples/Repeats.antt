-- ===== src/Examples/Repeats.antt =====
-- Runs of requests with an idempotency key.
use Prim.Native.String.{String}
use roomies.Base.{ℕ, ◌+◌, ◌≡◌, ◌⊎◌, refl, true, false, none, some, [], ◌∷◌, arith}
use roomies.Idempotency.{
  Captured, Server, IdempotencyRecord, StoredHttpResponse, Method, State, Response, handled,
  replayed, refused, idempotency, to_store, is_completed, same_request,
}
use roomies.Idempotency.Replay.{keyed, idempotency_replays, idempotency_known_key}
use roomies.Idempotency
use roomies.Examples.Data.{keep_body}

-- Repeated requests: a handler that counts its calls, and one that fails.
abbrev made : ℕ → Captured
made code = record {
  status_code = code;
  body = "made";
  content_type = none;
  one_time_token = false;
}

abbrev counting : Idempotency.Request → ℕ → Captured × ℕ
counting _ n = (made 201, n + 1)

abbrev failing : Idempotency.Request → ℕ → Captured × ℕ
failing _ n = (made 503, n + 1)

abbrev one_byte : String → ℕ
one_byte _ = 1

abbrev idle_server : Server ℕ
idle_server = record { rows = []; app = 0 }

abbrev earlier : IdempotencyRecord
earlier = record {
  user_id = 11;
  idempotency_key = 77;
  method = Method.post;
  path = 4;
  body_hash = 1;
  state = State.processing;
  response = none;
}

abbrev busy_server : Server ℕ
busy_server = record { rows = earlier ∷ []; app = 0 }

idempotency_replays_example :
    (let req = keyed one_byte one_byte keep_body counting Method.post 11 77 4 "x" in
      let first = idempotency one_byte one_byte keep_body counting req idle_server in
      let out = counting req 0 in
      (first.0 ≡ handled out.0)
      × (first.1.app ≡ out.1)
      × (idempotency one_byte one_byte keep_body counting req first.1
          ≡ (replayed (to_store one_byte one_byte keep_body counting out.0), first.1)))
idempotency_replays_example =
    idempotency_replays one_byte one_byte keep_body counting Method.post 11 77 4 "x" idle_server
      refl (omega arith) refl refl

abbrev again : Response × Server ℕ
again =
    idempotency one_byte one_byte keep_body counting
      (keyed one_byte one_byte keep_body counting Method.post 11 77 4 "x") busy_server

idempotency_known_key_example :
    (again.1 ≡ busy_server)
    × (((code : ℕ) × (again.0 ≡ refused code))
        ⊎ ((stored : StoredHttpResponse) × (earlier.response ≡ some stored)
            × (is_completed earlier.state ≡ true)
            × (same_request Method.post 4 1 earlier ≡ true)
            × (again.0 ≡ replayed stored)))
idempotency_known_key_example =
    idempotency_known_key one_byte one_byte keep_body counting Method.post 11 77 4 "x" busy_server
      earlier refl refl
