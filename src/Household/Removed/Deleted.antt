-- ===== src/Household/Removed/Deleted.antt =====
-- Messages that their authors deleted (`DeleteChat` of src/backend/internal/repository/household.go).
use roomies.Base.{ℕ, ◌≤◌, ◌≡◌, refl, false, List, [], ◌∷◌, arith, ◌==◌, Bool-cases, inl, inr, subst}
use roomies.Base.Sql.{count_where, update_where}
use roomies.Base.Result.{ok}
use roomies.Household.Chat.{
  ChatMessage, Chats, may_delete, delete_message, update_messages, record_chat, delete_chat,
}
use roomies.Household.Removed.{
  ChatRequest, run_all_chat, has_id, survives, IsErased, run_all_chat-IsErased,
}

survives-le :
    (id : ℕ) (ms : List ChatMessage) → count_where (survives id) ms ≤ count_where (has_id id) ms
survives-le id [] = omega arith
survives-le id (m ∷ ms) = ground (arith, survives-le id ms)

module _ (now house id actor : ℕ) where
  abbrev after_delete : List ChatMessage → List ChatMessage
  after_delete = update_where (may_delete house id actor) (delete_message now)

  delete-named :
      (ms : List ChatMessage)
      → count_where (has_id id) (after_delete ms) ≡ count_where (has_id id) ms
  delete-named [] = refl
  delete-named (m ∷ ms) = ground (arith, delete-named ms)

  deletable-le :
      (ms : List ChatMessage)
      → count_where (may_delete house id actor) ms ≤ count_where (has_id id) ms
  deletable-le [] = omega arith
  deletable-le (m ∷ ms) = ground (arith, deletable-le ms)

  -- Of a row with the identifier that is deleted, where there is no other, nothing survives.
  delete-erases :
      (ms : List ChatMessage)
      → count_where (has_id id) ms ≤ 1
      → (count_where (may_delete house id actor) ms == 0) ≡ false
      → ((count_where (has_id id) (after_delete ms) == 0) ≡ false)
        × (count_where (survives id) (after_delete ms) ≡ 0)
  delete-erases [] one some_row = cc
  delete-erases (m ∷ ms) one some_row = elim (Bool-cases (may_delete house id actor m)) [
    | inl hit ↦ ground (arith, hit, one, delete-named ms, survives-le id (after_delete ms))
    | inr miss ↦ elim (Bool-cases (m.id == id)) [
      | inl same ↦ absurd (ground (arith, one, some_row, same, miss, deletable-le ms))
      | inr other ↦
          let rest = delete-erases ms (ground (arith, one)) (ground (arith, miss, some_row)) in
          ground (arith, miss, other, rest)
    ]
  ]

  delete_chat-IsErased :
      (s : Chats) {t : Chats}
      → count_where (has_id id) s.messages ≤ 1
      → delete_chat now house id actor s ≡ ok (tt, t)
      → IsErased id t
  unfolding delete_chat update_messages record_chat
  delete_chat-IsErased s {t} one run =
      elim (Bool-cases (count_where (may_delete house id actor) s.messages == 0)) [
        | inl nothing ↦ absurd (ground (arith, run, nothing))
        | inr some_row ↦
            let erased = delete-erases s.messages one some_row in
            let stored : after_delete s.messages ≡ t.messages = ground (arith, run, some_row) in
            subst
              (λ ms.
                ((count_where (has_id id) ms == 0) ≡ false) × (count_where (survives id) ms ≡ 0))
              stored erased
      ]

-- A text that its author deleted never comes back: where a deletion of a message succeeds, and its
-- identifier is of one row, the message is still there, flagged and without a text, after any requests
-- and rounds of the retention that follow, in any order.
pub deleted_text_stays_away :
    (year_before : ℕ → ℕ) (now house id actor : ℕ) (rs : List ChatRequest) (s : Chats) {t : Chats}
    → count_where (has_id id) s.messages ≤ 1
    → delete_chat now house id actor s ≡ ok (tt, t)
    → IsErased id (run_all_chat year_before rs t)
deleted_text_stays_away year_before now house id actor rs s {t} one run =
    run_all_chat-IsErased year_before id rs t (delete_chat-IsErased now house id actor s one run)
