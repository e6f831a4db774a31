-- ===== src/Notifications/Devices.antt =====
-- Registering a device, seen from the subscriptions of other devices (`CreateSubscription` of
-- src/backend/internal/repository/notifications.go).
use Prim.Native.String.{String}
use roomies.Base.{
  ℕ, ◌≡◌, refl, subst, Bool, true, false, not, ◌&&◌, Option, none, some, List, [], ◌∷◌, arith, ◌==◌,
  Bool-cases, Option-cases, inl, inr,
}
use roomies.Base.Sql.{select_one, count_where, update_where}
use roomies.Base.Result.{ok}
use roomies.Base.Keeps.{keep_find}
use roomies.Base.Tx.{or_fail, ◌>>◌, >>=-eq-ok}
use roomies.Notifications.{Platform, Subscription, Tables, set_subscriptions, Action, store_error}
use roomies.Notifications.Subscriptions.{
  Texts, Cipher, SubscriptionRequest, Secret, same_identity, identity_of, create_subscription,
  create_for, create_on, store_subscription, upsert_subscription, new_subscription, renew,
  secret_of, id_or,
}
use roomies.Notifications.Dispatch.{is_open_with_id}
use roomies.Notifications.Dispatch.Revoked.{is_closed}

-- A row with the identifier is of the device.
abbrev pub has_device : ℕ → ℕ → ℕ → Platform → ℕ → List Subscription → Bool
has_device id house user platform hash xs =
    not (count_where (λ x. x.id == id && same_identity house user platform hash x) xs == 0)

abbrev pub has_identity : Texts → ℕ → ℕ → ℕ → Platform → List Subscription → Option String → Bool
has_identity texts id house user platform xs none = false
has_identity texts id house user platform xs (some identity) =
    has_device id house user platform (texts.hash identity) xs

abbrev pub has_platform : Texts → ℕ → ℕ → ℕ → Secret → List Subscription → Option Platform → Bool
has_platform texts id house user secret xs none = false
has_platform texts id house user secret xs (some platform) =
    has_identity texts id house user platform xs (identity_of texts platform secret)

-- The request is for the device of the row.
abbrev pub registers_row : Texts → ℕ → ℕ → ℕ → SubscriptionRequest → Tables → Bool
registers_row texts id house user req s =
    has_platform texts id house user req.secret s.subscriptions req.platform

found_elsewhere :
    (id house user hash : ℕ) (platform : Platform) (xs : List Subscription) {x : Subscription}
    → has_device id house user platform hash xs ≡ false
    → select_one (same_identity house user platform hash) xs ≡ some x
    → (x.id == id) ≡ false
found_elsewhere id house user hash platform [] h e = cc
found_elsewhere id house user hash platform (y ∷ ys) {x} h e =
    elim (Bool-cases (same_identity house user platform hash y)) [
      | inl hit ↦
          let q : y ≡ x = ground (arith, hit, e) in
          subst (λ z. (z.id == id) ≡ false) q (ground (arith, hit, h))
      | inr miss ↦
          found_elsewhere id house user hash platform ys {x = x} (ground (arith, miss, h))
            (ground (arith, miss, e))
    ]

-- Rows of other devices are renewed.
renewed_elsewhere :
    (id house user hash : ℕ) (platform : Platform) (new : Subscription) (xs : List Subscription)
    → has_device id house user platform hash xs ≡ false
    → count_where (is_open_with_id id) xs ≡ 0
    → count_where
        (is_open_with_id id)
        (update_where (same_identity house user platform hash) (renew new) xs)
      ≡ 0
renewed_elsewhere id house user hash platform new [] h c = refl
renewed_elsewhere id house user hash platform new (x ∷ xs) h c =
    elim (Bool-cases (same_identity house user platform hash x)) [
      | inl hit ↦
          let rest =
            renewed_elsewhere id house user hash platform new xs (ground (arith, hit, h))
              (ground (arith, c)) in
          ground (arith, hit, h, rest)
      | inr miss ↦
          let rest =
            renewed_elsewhere id house user hash platform new xs (ground (arith, miss, h))
              (ground (arith, c)) in
          ground (arith, miss, c, rest)
    ]

upsert_elsewhere :
    (id : ℕ) (new : Subscription) (s : Tables) (r : Unit {0} × Tables)
    → has_device id new.house_id new.user_id new.platform new.identity_hash s.subscriptions ≡ false
    → (new.id == id) ≡ false
    → is_closed id s ≡ true
    → upsert_subscription new s ≡ ok r
    → is_closed id r.1 ≡ true
upsert_elsewhere id new s r h other c e =
    let q = same_identity new.house_id new.user_id new.platform new.identity_hash in
    elim (Bool-cases (count_where q s.subscriptions == 0)) [
      | inr there ↦
          let t : set_subscriptions (update_where q (renew new) s.subscriptions) s ≡ r.1 =
            ground (arith, there, e) in
          let zero =
            renewed_elsewhere id new.house_id new.user_id new.identity_hash new.platform new
              s.subscriptions h (ground (arith, c)) in
          subst (λ t. is_closed id t ≡ true) t (ground (arith, zero))
      | inl absent ↦ elim (Bool-cases (count_where (λ x. x.id == new.id) s.subscriptions == 0)) [
        | inr taken ↦ absurd (ground (arith, absent, taken, e))
        | inl free ↦
            let t : set_subscriptions (new ∷ s.subscriptions) s ≡ r.1 =
              ground (arith, absent, free, e) in
            subst (λ t. is_closed id t ≡ true) t (ground (arith, other, c))
      ]
    ]

module _ (texts : Texts) (cipher : Cipher) (house user fresh_id id : ℕ) where
  store_elsewhere :
      (platform : Platform) (hash : ℕ) (secret : Secret) (s : Tables) (r : Subscription × Tables)
      → has_device id house user platform hash s.subscriptions ≡ false
      → (fresh_id == id) ≡ false
      → is_closed id s ≡ true
      → store_subscription texts cipher house user fresh_id platform hash secret s ≡ ok r
      → is_closed id r.1 ≡ true
  unfolding store_subscription
  store_elsewhere platform hash secret s r h other c e =
      let found = select_one (same_identity house user platform hash) s.subscriptions in
      let stored = id_or fresh_id found in
      let away : (stored == id) ≡ false = elim (Option-cases found) [
        | inl absent ↦ rw absent other
        | inr (x, there) ↦
            rw there (found_elsewhere id house user hash platform s.subscriptions h there)
      ] in
      let seal : Action String = λ s. or_fail (cipher.encrypt stored secret) store_error s in
      let back : Action Subscription = λ s.
        or_fail (select_one (same_identity house user platform hash) s.subscriptions) store_error
          s in
      let write = λ (text : String).
        upsert_subscription
          (new_subscription texts cipher house user fresh_id stored platform hash text) in
      let (text, t, sealed, rest) = >>=-eq-ok seal (λ text. write text >> back) s e in
      let (a, u, written, last) = >>=-eq-ok (write text) (λ _. back) t rest in
      let same =
        keep_find (λ s t. s ≡ t) (λ s. refl) (λ s. cipher.encrypt stored secret) store_error s
          (text, t) sealed in
      let same' =
        keep_find (λ s t. s ≡ t) (λ s. refl)
          (λ s. select_one (same_identity house user platform hash) s.subscriptions) store_error u r
          last in
      let closed : is_closed id u ≡ true =
        upsert_elsewhere id
          (new_subscription texts cipher house user fresh_id stored platform hash text) t (a, u)
          (subst (λ t. has_device id house user platform hash t.subscriptions ≡ false) same h) away
          (subst (λ t. is_closed id t ≡ true) same c) written in
      subst (λ t. is_closed id t ≡ true) same' closed

  for_elsewhere :
      (platform : Platform) (secret : Secret) (o : Option String) (s : Tables)
      (r : Subscription × Tables)
      → has_identity texts id house user platform s.subscriptions o ≡ false
      → (fresh_id == id) ≡ false
      → is_closed id s ≡ true
      → create_for texts cipher house user fresh_id platform secret o s ≡ ok r
      → is_closed id r.1 ≡ true
  for_elsewhere platform secret none s r h other c e = cc
  for_elsewhere platform secret (some identity) s r h other c e =
      store_elsewhere platform (texts.hash identity) (secret_of platform secret) s r h other c e

  on_elsewhere :
      (secret : Secret) (o : Option Platform) (s : Tables) (r : Subscription × Tables)
      → has_platform texts id house user secret s.subscriptions o ≡ false
      → (fresh_id == id) ≡ false
      → is_closed id s ≡ true
      → create_on texts cipher house user fresh_id secret o s ≡ ok r
      → is_closed id r.1 ≡ true
  on_elsewhere secret none s r h other c e = cc
  on_elsewhere secret (some platform) s r h other c e =
      for_elsewhere platform secret (identity_of texts platform secret) s r h other c e

pub create_elsewhere :
    (texts : Texts) (o : Option Cipher) (house user fresh_id id : ℕ) (req : SubscriptionRequest)
    (s : Tables) (r : Subscription × Tables)
    → registers_row texts id house user req s ≡ false
    → (fresh_id == id) ≡ false
    → is_closed id s ≡ true
    → create_subscription texts o house user fresh_id req s ≡ ok r
    → is_closed id r.1 ≡ true
unfolding create_subscription
create_elsewhere texts none house user fresh_id id req s r h other c e = cc
create_elsewhere texts (some cipher) house user fresh_id id req s r h other c e =
    on_elsewhere texts cipher house user fresh_id id req.secret req.platform s r h other c e
