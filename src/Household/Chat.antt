-- ===== src/Household/Chat.antt =====
-- The chat of a house and the retention of its texts (`CreateChat`, `EditChat`, `DeleteChat` and
-- `RunChatRetention` of src/backend/internal/repository/household.go). `strings.TrimSpace` and the time
-- one year before another are parameters.
use Prim.Native.String.{String, count}
use roomies.Base.{
  ℕ, zero, suc, ◌+◌, ◌*◌, Bool, not, ◌&&◌, ◌||◌, Option, none, some, is_some, List, [], ◌∷◌, ◌++◌,
  length, ltb, leb, ◌==◌, if◌then◌else◌,
}
use roomies.Base.Sql.{select_where, count_where, update_where}
use roomies.Base.Tx.{Tx, pure, read, modify, fail_if, ◌>>=◌, ◌>>◌}
use roomies.Houses.{is_empty}
use roomies.Queue.{lease_is_free, same_owner}
use roomies.Household.{
  HouseholdError, invalid_input, unique_violation, household_not_found, version_conflict, Mutation,
  mutation, Verb, created, updated, deleted, redacted, chat,
}

pub record ChatMessage : Type 0 where
  pub cursor : ℕ
  pub id : ℕ
  pub house_id : ℕ
  pub author_id : ℕ
  pub body : Option String
  pub created_at : ℕ
  pub updated_at : ℕ
  pub deleted_at : Option ℕ
  pub redacted_at : Option ℕ

-- The one row of `chat_retention_jobs`, without the time of its last change.
pub record RetentionJob : Type 0 where
  pub available_at : ℕ
  pub lease_owner : Option ℕ
  pub lease_expires_at : Option ℕ
  pub lease_generation : ℕ
  pub last_completed_at : Option ℕ

pub record Chats : Type 0 where
  pub messages : List ChatMessage
  pub last_cursor : ℕ
  pub retention : RetentionJob
  pub mutations : List Mutation

abbrev pub Action : Type 0 → Type 0
Action = Tx HouseholdError Chats

abbrev pub set_messages : List ChatMessage → Chats → Chats
set_messages ms s = record s { messages = ms }

abbrev pub set_retention : RetentionJob → Chats → Chats
set_retention j s = record s { retention = j }

unfoldable pub record_chat : ℕ → Option ℕ → Verb → ℕ → Action (Unit {0})
record_chat house actor verb id =
    modify (λ s. record s { mutations = s.mutations ++ mutation house actor verb chat id ∷ [] })

abbrev pub chat_body_limit : ℕ
chat_body_limit = 4000

abbrev pub is_bad_body : String → Bool
is_bad_body body = is_empty body || ltb chat_body_limit (count body)

-- The cursor is the next one of the table.
abbrev pub add_message : ℕ → ℕ → ℕ → ℕ → String → Chats → Chats
add_message now id house actor body s = record s {
  last_cursor = s.last_cursor + 1;
  messages =
      record {
        cursor = s.last_cursor + 1;
        id = id;
        house_id = house;
        author_id = actor;
        body = some body;
        created_at = now;
        updated_at = now;
        deleted_at = none;
        redacted_at = none;
      }
      ∷ s.messages;
}

-- UNIQUE(id)
unfoldable pub insert_chat : ℕ → ℕ → ℕ → ℕ → String → Action (Unit {0})
insert_chat now id house actor body = do
  n ← read (λ s. count_where (λ m. m.id == id) s.messages)
  fail_if (not (n == 0)) unique_violation
  modify (add_message now id house actor body)

-- The body is the trimmed text.
unfoldable pub create_chat : ℕ → ℕ → ℕ → ℕ → String → Action (Unit {0})
unfolding insert_chat record_chat
create_chat now id house actor body = do
  fail_if (is_bad_body body) invalid_input
  insert_chat now id house actor body
  record_chat house (some actor) created id

abbrev pub of_author : ℕ → ℕ → ℕ → ChatMessage → Bool
of_author house id actor m = m.house_id == house && m.id == id && m.author_id == actor

-- … AND deleted_at IS NULL AND redacted_at IS NULL
abbrev pub may_edit : ℕ → ℕ → ℕ → ChatMessage → Bool
may_edit house id actor m =
    of_author house id actor m && not (is_some m.deleted_at) && not (is_some m.redacted_at)

-- … AND deleted_at IS NULL
abbrev pub may_delete : ℕ → ℕ → ℕ → ChatMessage → Bool
may_delete house id actor m = of_author house id actor m && not (is_some m.deleted_at)

abbrev pub edit_message : ℕ → String → ChatMessage → ChatMessage
edit_message now body m = record m { body = some body; updated_at = now }

abbrev pub delete_message : ℕ → ChatMessage → ChatMessage
delete_message now m = record m { body = none; deleted_at = some now; updated_at = now }

abbrev pub redact_message : ℕ → ChatMessage → ChatMessage
redact_message now m = record m { body = none; redacted_at = some now; updated_at = now }

-- An UPDATE of the messages that must change a row.
unfoldable pub update_messages :
    (ChatMessage → Bool) → (ChatMessage → ChatMessage) → Action (Unit {0})
update_messages p f = do
  n ← read (λ s. count_where p s.messages)
  modify (λ s. set_messages (update_where p f s.messages) s)
  fail_if (n == 0) household_not_found

unfoldable pub edit_chat : ℕ → ℕ → ℕ → ℕ → String → Action (Unit {0})
unfolding update_messages record_chat
edit_chat now house id actor body = do
  fail_if (is_bad_body body) invalid_input
  update_messages (may_edit house id actor) (edit_message now body)
  record_chat house (some actor) updated id

unfoldable pub delete_chat : ℕ → ℕ → ℕ → ℕ → Action (Unit {0})
unfolding update_messages record_chat
delete_chat now house id actor = do
  update_messages (may_delete house id actor) (delete_message now)
  record_chat house (some actor) deleted id

-- body IS NOT NULL AND created_at <= …
abbrev pub is_target : ℕ → ChatMessage → Bool
is_target limit m = is_some m.body && leb m.created_at limit

-- ORDER BY created_at, id
abbrev pub comes_first : ChatMessage → ChatMessage → Bool
comes_first a b =
    if a.created_at == b.created_at then leb a.id b.id else ltb a.created_at b.created_at

abbrev pub place : ChatMessage → List ChatMessage → List ChatMessage
place m [] = m ∷ []
place m (x ∷ xs) = if comes_first m x then m ∷ x ∷ xs else x ∷ place m xs

abbrev pub in_order : List ChatMessage → List ChatMessage
in_order [] = []
in_order (m ∷ ms) = place m (in_order ms)

-- LIMIT
abbrev pub take : ℕ → List ChatMessage → List ChatMessage
take zero ms = []
take (suc n) [] = []
take (suc n) (m ∷ ms) = m ∷ take n ms

-- One round of the loop over the targets; an UPDATE of no row is no error.
unfoldable pub redact_target : ℕ → ChatMessage → Action (Unit {0})
unfolding record_chat
redact_target now target = do
  modify (λ s.
      set_messages
        (update_where (λ m. m.id == target.id && is_some m.body) (redact_message now) s.messages) s)
  record_chat target.house_id none redacted target.id

unfoldable pub redact_all : ℕ → List ChatMessage → Action (Unit {0})
unfolding redact_target
redact_all now [] = pure tt
redact_all now (m ∷ ms) = do redact_target now m; redact_all now ms

abbrev pub day : ℕ
day = 24 * 3600 * 1000000000

abbrev pub batch_size : ℕ → ℕ
batch_size batch = if batch == 0 || ltb 500 batch then 100 else batch

abbrev pub claim : ℕ → ℕ → ℕ → RetentionJob → RetentionJob
claim now owner lease j = record j {
  lease_owner = some owner;
  lease_expires_at = some (now + lease);
  lease_generation = j.lease_generation + 1;
}

abbrev pub finish : ℕ → ℕ → RetentionJob → RetentionJob
finish now next j = record j {
  available_at = next;
  lease_owner = none;
  lease_expires_at = none;
  last_completed_at = some now;
}

-- The rest of `RunChatRetention`, after the claim of the job.
unfoldable pub retain_claimed : ℕ → ℕ → ℕ → ℕ → Action ℕ
unfolding redact_all
retain_claimed now limit owner batch = do
  generation ← read (λ s. s.retention.lease_generation)
  targets ← read (λ s. take batch (in_order (select_where (is_target limit) s.messages)))
  redact_all now targets
  held ←
      read (λ s.
        same_owner s.retention.lease_owner owner && s.retention.lease_generation == generation)
  fail_if (not held) version_conflict
  modify (λ s.
      set_retention (finish now (if length targets == batch then now else now + day) s.retention) s)
  pure (length targets)

unfoldable pub run_chat_retention : (ℕ → ℕ) → ℕ → ℕ → ℕ → ℕ → Action ℕ
unfolding retain_claimed
run_chat_retention year_before now owner lease batch = do
  free ←
      read (λ s. leb s.retention.available_at now && lease_is_free now s.retention.lease_expires_at)
  if free
      then modify (λ s. set_retention (claim now owner lease s.retention) s)
        >> retain_claimed now (year_before now) owner (batch_size batch)
      else pure 0
