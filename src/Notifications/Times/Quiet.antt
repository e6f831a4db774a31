-- ===== src/Notifications/Times/Quiet.antt =====
-- Quiet hours and the daily digest (src/backend/internal/repository/notifications.go), in a time zone
-- whose clock never jumps.
use roomies.Base.{
  ℕ, ◌+◌, ◌*◌, ◌≤◌, ◌<◌, ◌≡◌, ◌≢◌, refl, ◌⊎◌, true, false, ◌&&◌, some, arith, leb, Bool-cases, inl,
  inr,
}
use roomies.Notifications.{NotificationPreferences, Cadence, immediate, daily_digest}
use roomies.Notifications.Times.{
  Zone, is_quiet, digest_at, quiet_end_at, after_quiet, outside_quiet, available_by,
  notification_available_at,
}

abbrev pub minute_number : ℕ → ℕ → ℕ
minute_number day minute = day * 1440 + minute

-- A fixed offset: every minute of every day is there once, in order.
pub record IsSteady (zone : Zone) : Type 0 where
  pub in_day : (t : ℕ) → (zone.local t).minute < 1440
  pub local_date :
      (day minute : ℕ)
      → minute < 1440
      → ((zone.local (zone.date day minute)).day ≡ day)
        × ((zone.local (zone.date day minute)).minute ≡ minute)
  pub later :
      (t day minute : ℕ)
      → minute < 1440
      → minute_number (zone.local t).day (zone.local t).minute < minute_number day minute
      → t < zone.date day minute

module _ (zone : Zone) (at : ℕ) (steady : IsSteady zone) where
  digest_lem :
      (minutes : ℕ)
      → minutes < 1440
      → (at < digest_at zone at minutes)
        × ((zone.local (digest_at zone at minutes)).minute ≡ minutes)
  unfolding digest_at
  digest_lem minutes small =
      let day = (zone.local at).day in
      let first = zone.date day minutes in
      let in_day = steady.in_day at in
      let shown = steady.local_date day minutes small in
      let next = steady.local_date (day + 1) minutes small in
      let after = steady.later at (day + 1) minutes small (omega (arith, in_day)) in
      elim (Bool-cases (leb first at)) [
        | inl e ↦ ground (arith, e, after, next.0, next.1, shown.0, shown.1)
        | inr e ↦ ground (arith, e, shown.0, shown.1)
      ]

  quiet_end_lem :
      (start end : ℕ)
      → end < 1440
      → start ≢ end
      → is_quiet start end (zone.local at).minute ≡ true
      → (at < quiet_end_at zone at start end)
        × ((zone.local (quiet_end_at zone at start end)).minute ≡ end)
  unfolding quiet_end_at
  quiet_end_lem start end small other quiet =
      let now = zone.local at in
      let in_day = steady.in_day at in
      elim (Bool-cases (leb end start && leb start now.minute)) [
        | inl e ↦ ground (
          arith,
          e,
          (steady.local_date (now.day + 1) end small).1,
          steady.later at (now.day + 1) end small (omega (arith, in_day)),
        )
        | inr e ↦ ground (
          arith,
          e,
          quiet,
          other,
          (steady.local_date now.day end small).1,
          steady.later at now.day end small (ground (arith, e, quiet, other)),
        )
      ]

Cadence-cases : (c : Cadence) → (c ≡ immediate) ⊎ (c ≡ daily_digest)
Cadence-cases immediate = inl refl
Cadence-cases daily_digest = inr refl

after_quiet_lem :
    (zone : Zone) (at start end : ℕ)
    → IsSteady zone
    → end < 1440
    → start ≢ end
    → (at ≤ after_quiet zone at start end)
      × (is_quiet start end (zone.local (after_quiet zone at start end)).minute ≡ false)
      × ((is_quiet start end (zone.local at).minute ≡ true) ⊎ (after_quiet zone at start end ≡ at))
unfolding after_quiet
after_quiet_lem zone at start end steady small other =
    elim (Bool-cases (is_quiet start end (zone.local at).minute)) [
      | inl e ↦
          let late = quiet_end_lem zone at steady start end small other e in
          rw (e) (omega (arith, late.0), ground (arith, other, late.1), inl refl)
      | inr e ↦ rw (e) (ground (arith), e, inr refl)
    ]

-- A notification that is not for the digest is never available before its time nor in the quiet hours
-- of its receiver, and at once where it is not quiet; the quiet hours start and end at different
-- minutes of the day. One for the digest is available later, at the minute of the digest.
pub available_at_quiet :
    (zone : Zone) (at : ℕ) (p : NotificationPreferences) (start end : ℕ)
    → IsSteady zone
    → p.quiet_start_minutes ≡ some start
    → p.quiet_end_minutes ≡ some end
    → end < 1440
    → start ≢ end
    → p.digest_minutes < 1440
    → ((p.cadence ≡ immediate)
        × (at ≤ notification_available_at zone at p)
        × (is_quiet start end (zone.local (notification_available_at zone at p)).minute ≡ false)
        × ((is_quiet start end (zone.local at).minute ≡ true)
            ⊎ (notification_available_at zone at p ≡ at)))
      ⊎ ((p.cadence ≡ daily_digest)
          × (at < notification_available_at zone at p)
          × ((zone.local (notification_available_at zone at p)).minute ≡ p.digest_minutes))
unfolding notification_available_at available_by outside_quiet
available_at_quiet zone at p start end steady is_start is_end small other digest_small =
    elim (Cadence-cases p.cadence) [
      | inl e ↦
          let facts = after_quiet_lem zone at start end steady small other in
          inl (
            e,
            rw (e, is_start, is_end) facts.0,
            rw (e, is_start, is_end) facts.1,
            rw (e, is_start, is_end) facts.2,
          )
      | inr e ↦
          let facts = digest_lem zone at steady p.digest_minutes digest_small in
          inr (e, rw (e) facts.0, rw (e) facts.1)
    ]
