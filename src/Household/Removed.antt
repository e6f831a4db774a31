-- ===== src/Household/Removed.antt =====
-- Texts of messages that were deleted or redacted (src/backend/internal/repository/household.go).
pub mod Deleted
use Prim.Native.String.{String}
use roomies.Base.{
  ℕ, ◌≡◌, refl, Bool, true, false, not, ◌&&◌, ◌||◌, Option, none, some, is_some, List, [], ◌∷◌,
  arith, leb, ◌==◌, if◌then◌else◌, length, Bool-cases, inl, inr, ◌+◌, ap, ==→eq, subst,
}
use roomies.Base.Sql.{select_where, count_where, update_where}
use roomies.Base.Tx.{transact, modify, ◌>>=◌}
use roomies.Base.Keeps.{
  Keeps, keep_bind, keep_pure, keep_read, keep_modify, keep_fail_if, keep_if, keep_transact,
}
use roomies.Queue.{lease_is_free, same_owner}
use roomies.Household.{Verb}
use roomies.Household.{
  invalid_input, household_not_found, version_conflict, created, updated, deleted, redacted,
}
use roomies.Household.Chat.{
  ChatMessage, Chats, Action, set_messages, set_retention, record_chat, is_bad_body, add_message,
  insert_chat, create_chat, may_edit, may_delete, edit_message, delete_message, redact_message,
  update_messages, edit_chat, delete_chat, redact_target, redact_all, retain_claimed,
  run_chat_retention, batch_size, claim, finish, take, in_order, is_target, day,
}

-- The requests on the chat, and the rounds of the worker.
pub data ChatRequest : Type 0 where
  create : ℕ → ℕ → ℕ → ℕ → String → ChatRequest
  edit : ℕ → ℕ → ℕ → ℕ → String → ChatRequest
  delete : ℕ → ℕ → ℕ → ℕ → ChatRequest
  retain : ℕ → ℕ → ℕ → ℕ → ChatRequest

unfoldable pub run_chat : (ℕ → ℕ) → ChatRequest → Chats → Chats
unfolding create_chat edit_chat delete_chat run_chat_retention
run_chat year_before (create now id house actor body) s =
    (transact (create_chat now id house actor body) s).1
run_chat year_before (edit now house id actor body) s =
    (transact (edit_chat now house id actor body) s).1
run_chat year_before (delete now house id actor) s = (transact (delete_chat now house id actor) s).1
run_chat year_before (retain now owner lease batch) s =
    (transact (run_chat_retention year_before now owner lease batch) s).1

unfoldable pub run_all_chat : (ℕ → ℕ) → List ChatRequest → Chats → Chats
unfolding run_chat
run_all_chat year_before [] s = s
run_all_chat year_before (r ∷ rs) s = run_all_chat year_before rs (run_chat year_before r s)

-- A message that was deleted or redacted, and has no text.
abbrev pub is_erased : ChatMessage → Bool
is_erased m = (is_some m.deleted_at || is_some m.redacted_at) && not (is_some m.body)

abbrev pub has_id : ℕ → ChatMessage → Bool
has_id id m = m.id == id

-- A row of message `id` that is not erased.
abbrev pub survives : ℕ → ChatMessage → Bool
survives id m = m.id == id && not (is_erased m)

-- The message is still a row of the table, and every row of it is erased.
abbrev pub IsErased : ℕ → Chats → Type 0
IsErased id s =
    ((count_where (has_id id) s.messages == 0) ≡ false) × (count_where (survives id) s.messages ≡ 0)

Cleans : ℕ → Chats → Chats → Type 0
Cleans k s t = IsErased k s → IsErased k t

abbrev KeepsClean : ℕ → {A : Type 0} → Action A → Type 0
KeepsClean k m = Keeps (Cleans k) m

module _ (k : ℕ) where
  same : (s : Chats) → (Cleans k) s s
  unfolding Cleans
  same s c = c

  chains : (s t u : Chats) → (Cleans k) s t → (Cleans k) t u → (Cleans k) s u
  unfolding Cleans
  chains s t u f g c = g (f c)

  bind :
      {A B : Type 0} (m : Action A) (f : A → Action B)
      → KeepsClean k m
      → ((a : A) → KeepsClean k (f a))
      → KeepsClean k (m >>= f)
  bind = keep_bind (Cleans k) chains

  erased-update :
      (p : ChatMessage → Bool) (f : ChatMessage → ChatMessage)
      → ((m : ChatMessage) → (f m).id ≡ m.id)
      → ((m : ChatMessage) → p m ≡ true → survives k m ≡ false → survives k (f m) ≡ false)
      → (ms : List ChatMessage)
      → (count_where (has_id k) (update_where p f ms) ≡ count_where (has_id k) ms)
        × (count_where (survives k) ms ≡ 0 → count_where (survives k) (update_where p f ms) ≡ 0)
  erased-update p f named keeps [] = (refl, λ h. refl)
  erased-update p f named keeps (m ∷ ms) =
      let rest = erased-update p f named keeps ms in
      elim (Bool-cases (p m)) [
        | inl hit ↦ (
          ground (arith, rest.0, named m),
          λ h. ground (arith, rest.1 (ground (arith, h)), keeps m hit (ground (arith, h))),
        )
        | inr miss ↦ (ground (arith, rest.0), λ h. ground (arith, h, rest.1 (ground (arith, h))))
      ]

  update_clean :
      (p : ChatMessage → Bool) (f : ChatMessage → ChatMessage)
      → ((m : ChatMessage) → (f m).id ≡ m.id)
      → ((m : ChatMessage) → p m ≡ true → survives k m ≡ false → survives k (f m) ≡ false)
      → KeepsClean k (modify (λ s. set_messages (update_where p f s.messages) s))
  unfolding Cleans
  update_clean p f named keeps =
      keep_modify (Cleans k) _
        (λ s h. let kept = erased-update p f named keeps s.messages in (rw kept.0 h.0, kept.1 h.1))

  update_messages_clean :
      (p : ChatMessage → Bool) (f : ChatMessage → ChatMessage)
      → ((m : ChatMessage) → (f m).id ≡ m.id)
      → ((m : ChatMessage) → p m ≡ true → survives k m ≡ false → survives k (f m) ≡ false)
      → KeepsClean k (update_messages p f)
  unfolding update_messages
  update_messages_clean p f named keeps =
      bind _ _ (keep_read (Cleans k) same (λ s. count_where p s.messages)) (λ n.
        bind _ _ (update_clean p f named keeps)
          (λ _. keep_fail_if (Cleans k) same (n == 0) household_not_found))

  record_clean :
      (house : ℕ) (actor : Option ℕ) (verb : Verb) (id : ℕ)
      → KeepsClean k (record_chat house actor verb id)
  unfolding record_chat Cleans
  record_clean house actor verb id = keep_modify (Cleans k) _ (λ s c. c)

  insert_clean :
      (now id house actor : ℕ) (body : String) → KeepsClean k (insert_chat now id house actor body)
  unfolding insert_chat Cleans
  insert_clean now id house actor body s r run h =
      elim (Bool-cases (count_where (λ m. m.id == id) s.messages == 0)) [
        | inr taken ↦ absurd (ground (arith, run, taken))
        | inl fresh ↦
            let other : (id == k) ≡ false = elim (Bool-cases (id == k)) [
              | inl same ↦ absurd (
                  let e = ap (λ i. count_where (has_id i) s.messages == 0) (==→eq id k same) in
                  cc (fresh, h.0, e))
              | inr ne ↦ ne
            ] in
            let stored : add_message now id house actor body s ≡ r.1 = ground (arith, run, fresh) in
            subst (IsErased k) stored (ground (arith, other, h.0), ground (arith, other, h.1))
      ]

  create_clean :
      (now id house actor : ℕ) (body : String) → KeepsClean k (create_chat now id house actor body)
  unfolding create_chat
  create_clean now id house actor body =
      bind _ _ (keep_fail_if (Cleans k) same (is_bad_body body) invalid_input) (λ _.
        bind _ _ (insert_clean now id house actor body)
          (λ _. record_clean house (some actor) created id))

  edit_clean :
      (now house id actor : ℕ) (body : String) → KeepsClean k (edit_chat now house id actor body)
  unfolding edit_chat
  edit_clean now house id actor body =
      bind _ _ (keep_fail_if (Cleans k) same (is_bad_body body) invalid_input) (λ _.
        bind _ _
          (update_messages_clean (may_edit house id actor) (edit_message now body) (λ m. refl)
            (λ m h z. ground (arith, h, z)))
          (λ _. record_clean house (some actor) updated id))

  delete_clean : (now house id actor : ℕ) → KeepsClean k (delete_chat now house id actor)
  unfolding delete_chat
  delete_clean now house id actor =
      bind _ _
        (update_messages_clean (may_delete house id actor) (delete_message now) (λ m. refl)
          (λ m h z. ground arith))
        (λ _. record_clean house (some actor) deleted id)

  redact_clean : (now : ℕ) (ms : List ChatMessage) → KeepsClean k (redact_all now ms)
  unfolding redact_all redact_target
  redact_clean now [] = keep_pure (Cleans k) same tt
  redact_clean now (m ∷ ms) =
      bind _ _
        (bind _ _
          (update_clean (λ x. x.id == m.id && is_some x.body) (redact_message now) (λ x. refl)
            (λ x h z. ground arith))
          (λ _. record_clean m.house_id none redacted m.id))
        (λ _. redact_clean now ms)

  claimed_clean : (now limit owner batch : ℕ) → KeepsClean k (retain_claimed now limit owner batch)
  unfolding retain_claimed Cleans
  claimed_clean now limit owner batch =
      bind _ _ (keep_read (Cleans k) same (λ s. s.retention.lease_generation)) (λ g.
        bind _ _
          (keep_read (Cleans k) same
            (λ s. take batch (in_order (select_where (is_target limit) s.messages))))
          (λ targets. bind _ _ (redact_clean now targets) (λ _.
            bind _ _
              (keep_read (Cleans k) same (λ s.
                same_owner s.retention.lease_owner owner && s.retention.lease_generation == g))
              (λ held. bind _ _ (keep_fail_if (Cleans k) same (not held) version_conflict) (λ _.
                bind _ _
                  (keep_modify (Cleans k)
                    (λ s.
                      set_retention
                        (finish now (if length targets == batch then now else now + day)
                          s.retention)
                        s)
                    (λ s c. c))
                  (λ _. keep_pure (Cleans k) same (length targets)))))))

  retain_clean :
      (year_before : ℕ → ℕ) (now owner lease batch : ℕ)
      → KeepsClean k (run_chat_retention year_before now owner lease batch)
  unfolding run_chat_retention Cleans
  retain_clean year_before now owner lease batch =
      bind _ _
        (keep_read (Cleans k) same
          (λ s. leb s.retention.available_at now && lease_is_free now s.retention.lease_expires_at))
        (λ free.
          keep_if (Cleans k) free _ _
            (bind _ _
              (keep_modify (Cleans k) (λ s. set_retention (claim now owner lease s.retention) s)
                (λ s c. c))
              (λ _. claimed_clean now (year_before now) owner (batch_size batch)))
            (keep_pure (Cleans k) same 0))

  run_clean :
      (year_before : ℕ → ℕ) (r : ChatRequest) (s : Chats) → (Cleans k) s (run_chat year_before r s)
  unfolding run_chat
  run_clean year_before (create now id house actor body) s =
      keep_transact (Cleans k) _ s (same s) (create_clean now id house actor body)
  run_clean year_before (edit now house id actor body) s =
      keep_transact (Cleans k) _ s (same s) (edit_clean now house id actor body)
  run_clean year_before (delete now house id actor) s =
      keep_transact (Cleans k) _ s (same s) (delete_clean now house id actor)
  run_clean year_before (retain now owner lease batch) s =
      keep_transact (Cleans k) _ s (same s) (retain_clean year_before now owner lease batch)

-- An erased message stays erased: where a message was deleted or redacted and has no text, it is still
-- there, flagged and without a text, after any requests and rounds of the retention, in any order.
pub run_all_chat-IsErased :
    (year_before : ℕ → ℕ) (id : ℕ) (rs : List ChatRequest) (s : Chats)
    → IsErased id s
    → IsErased id (run_all_chat year_before rs s)
unfolding run_all_chat Cleans
run_all_chat-IsErased year_before id [] s h = h
run_all_chat-IsErased year_before id (r ∷ rs) s h =
    run_all_chat-IsErased year_before id rs (run_chat year_before r s)
      (run_clean id year_before r s h)
