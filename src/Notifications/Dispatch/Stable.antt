-- ===== src/Notifications/Dispatch/Stable.antt =====
-- Properties of the tables that a change of a single subscription keeps, in the loop of
-- `WithAuthorizedDispatch` (src/backend/internal/repository/notifications.go).
use Prim.Native.String.{String}
use roomies.Base.{
  ℕ, ◌≡◌, refl, subst, Bool, true, false, Option, none, some, List, [], ◌∷◌, arith, Bool-cases, inl,
  inr,
}
use roomies.Base.Sql.{update_where}
use roomies.Base.Result.{Result, ok, err}
use roomies.Notifications.{Subscription, Tables, NotificationError, set_subscriptions}
use roomies.Notifications.Payload.{NotificationPayload}
use roomies.Notifications.Subscriptions.{Cipher, Secret}
use roomies.Notifications.Dispatch.{
  NotificationTarget, Answer, accepted, gone, failed, Run, and_then, answered, dispatch_rotated,
  dispatch_decrypted, dispatch_target, dispatch_targets, send_all, send_wanted, rotate_key,
  target_of, is_open_with_id, store_rotated, revoke_target, quarantine_invalid_target, reseal,
  is_key, open_targets,
}

pub record IsStable (P : Tables → Type 0) : Type 0 where
  pub revokes : (now row : ℕ) (s : Tables) → P s → P (revoke_target now row s)
  pub quarantines :
      (now house : ℕ) (x : Subscription) (s : Tables)
      → P s
      → P (quarantine_invalid_target now house x s)
  pub reseals :
      (key row : ℕ) (text : String) (s : Tables)
      → P s
      → P (
          set_subscriptions
            (update_where (is_open_with_id row) (reseal key text) s.subscriptions)
            s)

module _ {P : Tables → Type 0} (stable : IsStable P) where
  pub and_then-leaves :
      (r : Run) (k : Tables → Run)
      → ((t : Tables) → r.1 ≡ ok t → P t)
      → ((t : Tables) → P t → (u : Tables) → (k t).1 ≡ ok u → P u)
      → (u : Tables) → (and_then r k).1 ≡ ok u
      → P u
  and_then-leaves (a, err e) k first later u h = cc
  and_then-leaves (a, ok t) k first later u h = later t (first t refl) u h

  pub ok-leaves :
      (s u : Tables) → P s → ◌≡◌ {A = Result NotificationError Tables} (ok s) (ok u) → P u
  ok-leaves s u h e = let q : s ≡ u = cc in subst P q h

  answered-leaves :
      (now : ℕ) (t : NotificationTarget) (a : Answer) (s u : Tables)
      → P s
      → (answered now t a s).1 ≡ ok u
      → P u
  answered-leaves now t accepted s u h e = ok-leaves s u h e
  answered-leaves now t gone s u h e =
      ok-leaves (revoke_target now t.id s) u (stable.revokes now t.id s h) e
  answered-leaves now t failed s u h e = cc

  rotated-leaves :
      (key row : ℕ) (o : Option String) (s u : Tables)
      → P s
      → store_rotated key row o s ≡ ok u
      → P u
  rotated-leaves key row none s u h e = cc
  rotated-leaves key row (some text) s u h e =
      ok-leaves
        (set_subscriptions (update_where (is_open_with_id row) (reseal key text) s.subscriptions) s)
        u (stable.reseals key row text s h) e

  rotate-leaves :
      (c : Cipher) (x : Subscription) (secret : Secret) (s u : Tables)
      → P s
      → rotate_key c x secret s ≡ ok u
      → P u
  rotate-leaves c x secret s u h e = elim (Bool-cases (is_key x.key_id c.current_key_id)) [
    | inl same ↦ ok-leaves s u h (ground (arith, same, e))
    | inr other ↦
        rotated-leaves c.current_key_id x.id (c.encrypt x.id secret) s u h
          (ground (arith, other, e))
  ]

  module _ (c : Cipher) (send : NotificationTarget → Answer) (now house : ℕ) where
    decrypted-leaves :
        (x : Subscription) (s u : Tables) (o : Option Secret)
        → P s
        → (dispatch_decrypted c send now house x s o).1 ≡ ok u
        → P u
    decrypted-leaves x s u none h e =
        ok-leaves (quarantine_invalid_target now house x s) u (stable.quarantines now house x s h) e
    decrypted-leaves x s u (some secret) h e = go (rotate_key c x secret s) refl e
      where
        go :
            (r : Result NotificationError Tables)
            → rotate_key c x secret s ≡ r
            → (dispatch_rotated c send now house (target_of x secret) r).1 ≡ ok u
            → P u
        go (ok t) rotated e =
            answered-leaves now (target_of x secret) (send (target_of x secret)) t u
              (rotate-leaves c x secret s t h rotated) e
        go (err x) rotated e = cc

    targets-leaves :
        (xs : List Subscription) (s u : Tables)
        → P s
        → (dispatch_targets c send now house xs s).1 ≡ ok u
        → P u
    unfolding dispatch_targets dispatch_target
    targets-leaves [] s u h e = ok-leaves s u h e
    targets-leaves (x ∷ xs) s u h e =
        and_then-leaves (dispatch_target c send now house x s)
          (dispatch_targets c send now house xs)
          (λ t k. decrypted-leaves x s t (c.decrypt x.id x.ciphertext) h k)
          (λ t k v l. targets-leaves xs t v k l) u e

  module _ (cipher : Option Cipher) (send : NotificationPayload → NotificationTarget → Answer)
      (now : ℕ) (requested : NotificationPayload) where
    all-leaves :
        (o : Option Cipher) (p : NotificationPayload) (s u : Tables)
        → P s
        → (send_all cipher send now requested o p s).1 ≡ ok u
        → P u
    all-leaves none p s u h e = cc
    all-leaves (some c) p s u h e =
        targets-leaves c (send p) now requested.house_id (open_targets requested s) s u h e

    pub wanted-leaves :
        (b : Bool) (p : NotificationPayload) (s u : Tables)
        → P s
        → (send_wanted cipher send now requested b p s).1 ≡ ok u
        → P u
    wanted-leaves false p s u h e = ok-leaves s u h e
    wanted-leaves true p s u h e = all-leaves cipher p s u h e
