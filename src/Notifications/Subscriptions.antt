-- ===== src/Notifications/Subscriptions.antt =====
-- Push subscriptions: `CreateSubscription` and `RevokeSubscription` of
-- src/backend/internal/repository/notifications.go. The cipher, the hash, the check of an address by
-- `net/url` and the length of a text in bytes are parameters.
use Prim.Native.String.{String}
use roomies.Base.{
  ℕ, Bool, true, false, not, ◌&&◌, ◌||◌, Option, none, some, ◌∷◌, ltb, ◌==◌, if◌then◌else◌,
}
use roomies.Base.Sql.{select_one, count_where, update_where}
use roomies.Base.Tx.{pure, read, modify, fail, fail_if, or_fail, ◌>>=◌, ◌>>◌}
use roomies.Houses.{is_empty}
use roomies.Queue.{is_null}
use roomies.Notifications.{
  Platform, web_push, android_fcm, Subscription, Action, invalid_input, notification_not_found,
  house_missing, store_error, set_subscriptions,
}

-- `subscriptionSecret`
pub record Secret : Type 0 where
  pub endpoint : String
  pub p256dh : String
  pub auth : String
  pub token : String

-- `NotificationDeliveryCipher`
pub record Cipher : Type 0 where
  pub current_key_id : ℕ
  pub encrypt : ℕ → Secret → Option String
  pub decrypt : ℕ → Option String → Option Secret

pub record Texts : Type 0 where
  pub len : String → ℕ
  -- `url.Parse` succeeds with the scheme https, a host and no user
  pub is_push_address : String → Bool
  -- the hexadecimal SHA-256
  pub hash : String → ℕ

-- `platform` is `none` for any other text.
pub record SubscriptionRequest : Type 0 where
  pub platform : Option Platform
  pub secret : Secret

abbrev pub same_platform : Platform → Platform → Bool
same_platform web_push web_push = true
same_platform web_push android_fcm = false
same_platform android_fcm web_push = false
same_platform android_fcm android_fcm = true

abbrev pub of_owner : ℕ → ℕ → Subscription → Bool
of_owner house user x = x.house_id == house && x.user_id == user

-- UNIQUE(house_id, user_id, platform, identity_hash)
abbrev pub same_identity : ℕ → ℕ → Platform → ℕ → Subscription → Bool
same_identity house user platform hash x =
    of_owner house user x && same_platform x.platform platform && x.identity_hash == hash

-- revoked_at IS NULL
abbrev pub is_open : Subscription → Bool
is_open x = is_null x.revoked_at

abbrev pub revoke_at : ℕ → Subscription → Subscription
revoke_at now x = record x { revoked_at = some now; ciphertext = none; key_id = none }

-- `lockHouseForNotificationDelivery`
abbrev pub lock_house_for_delivery : ℕ → Action (Unit {0})
lock_house_for_delivery house =
    (λ s. or_fail (select_one (λ h. h.id == house) s.house.houses) house_missing s) >>= λ _. pure tt

-- `lockSubscription`
abbrev pub is_lockable : ℕ → ℕ → ℕ → Subscription → Bool
is_lockable house user id x = of_owner house user x && x.id == id && is_open x

abbrev pub lock_subscription : ℕ → ℕ → ℕ → Action (Unit {0})
lock_subscription house user id =
    (λ s. or_fail (select_one (is_lockable house user id) s.subscriptions) notification_not_found s)
    >>= λ _. pure tt

unfoldable pub revoke_subscription : ℕ → ℕ → ℕ → ℕ → Action (Unit {0})
revoke_subscription now house user id = do
  lock_house_for_delivery house
  lock_subscription house user id
  n ← read (λ s. count_where (is_lockable house user id) s.subscriptions)
  modify (λ s.
      set_subscriptions (update_where (is_lockable house user id) (revoke_at now) s.subscriptions)
        s)
  fail_if (n == 0) notification_not_found

-- What identifies a subscription: the address or the token, where the request is well formed.
unfoldable pub identity_of : Texts → Platform → Secret → Option String
identity_of texts web_push x =
    if is_empty x.endpoint
      || is_empty x.p256dh
      || is_empty x.auth
      || not (texts.is_push_address x.endpoint)
      || ltb 2048 (texts.len x.endpoint)
      || ltb 256 (texts.len x.p256dh)
      || ltb 256 (texts.len x.auth)
    then none
    else some x.endpoint
identity_of texts android_fcm x =
    if is_empty x.token || ltb 4096 (texts.len x.token) then none else some x.token

-- The fields of the request that are stored for its platform.
abbrev pub secret_of : Platform → Secret → Secret
secret_of web_push x = record x { token = "" }
secret_of android_fcm x = record { endpoint = ""; p256dh = ""; auth = ""; token = x.token }

abbrev pub id_or : ℕ → Option Subscription → ℕ
id_or id none = id
id_or id (some x) = x.id

-- ON CONFLICT(house_id, user_id, platform, identity_hash) DO UPDATE: the row is open again.
abbrev pub renew : Subscription → Subscription → Subscription
renew new x = record x { key_id = new.key_id; ciphertext = new.ciphertext; revoked_at = none }

abbrev pub upsert_subscription : Subscription → Action (Unit {0})
upsert_subscription new =
    let q = same_identity new.house_id new.user_id new.platform new.identity_hash in
    read (λ s. count_where q s.subscriptions) >>= λ k.
    read (λ s. count_where (λ x. x.id == new.id) s.subscriptions) >>= λ taken.
    if k == 0
    then (fail_if (not (taken == 0)) store_error
        >> modify (λ s. set_subscriptions (new ∷ s.subscriptions) s))
    else modify (λ s. set_subscriptions (update_where q (renew new) s.subscriptions) s)

module _ (texts : Texts) (cipher : Cipher) (house user fresh_id : ℕ) where
  abbrev pub new_subscription : ℕ → Platform → ℕ → String → Subscription
  new_subscription id platform hash encrypted = record {
    id = id;
    house_id = house;
    user_id = user;
    platform = platform;
    identity_hash = hash;
    key_id = some cipher.current_key_id;
    ciphertext = some encrypted;
    revoked_at = none;
  }

  unfoldable pub store_subscription : Platform → ℕ → Secret → Action Subscription
  store_subscription platform hash secret = do
    found ← read (λ s. select_one (same_identity house user platform hash) s.subscriptions)
    encrypted ← (λ s. or_fail (cipher.encrypt (id_or fresh_id found) secret) store_error s)
    upsert_subscription (new_subscription (id_or fresh_id found) platform hash encrypted)
    (λ s.
        or_fail (select_one (same_identity house user platform hash) s.subscriptions) store_error s)

  abbrev pub create_for : Platform → Secret → Option String → Action Subscription
  create_for platform secret none = fail invalid_input
  create_for platform secret (some identity) =
      store_subscription platform (texts.hash identity) (secret_of platform secret)

  abbrev pub create_on : Secret → Option Platform → Action Subscription
  create_on secret none = fail invalid_input
  create_on secret (some platform) = create_for platform secret (identity_of texts platform secret)

-- Without a cipher nothing is stored.
unfoldable pub create_subscription :
    Texts → Option Cipher → ℕ → ℕ → ℕ → SubscriptionRequest → Action Subscription
unfolding identity_of store_subscription
create_subscription texts none house user fresh_id req = fail invalid_input
create_subscription texts (some cipher) house user fresh_id req =
    create_on texts cipher house user fresh_id req.secret req.platform
