-- ===== src/Notifications/Times.antt =====
-- When a notification may be delivered: `notificationAvailableAt` of
-- src/backend/internal/repository/notifications.go. A time zone is a parameter: the local day and the
-- minute of the day of a time, and the time of a minute of a day.
pub mod Quiet
use roomies.Base.{
  ℕ, ◌+◌, Bool, true, false, ◌&&◌, ◌||◌, Option, none, some, ltb, leb, if◌then◌else◌,
}
use roomies.Notifications.{NotificationPreferences, Cadence, immediate, daily_digest}

pub record LocalTime : Type 0 where
  pub day : ℕ
  pub minute : ℕ

-- `time.Time.In` and `time.Date` of one location.
pub record Zone : Type 0 where
  pub local : ℕ → LocalTime
  pub date : ℕ → ℕ → ℕ

-- minute >= start && minute < end, over midnight where the start is not before the end
abbrev pub is_quiet : ℕ → ℕ → ℕ → Bool
is_quiet start end minute =
    if ltb start end then leb start minute && ltb minute end else leb start minute || ltb minute end

module _ (zone : Zone) (at : ℕ) where
  -- The next time of the digest; `AddDate` keeps the minute the first time shows in the zone.
  unfoldable pub digest_at : ℕ → ℕ
  digest_at minutes =
      let first = zone.date (zone.local at).day minutes in
      if leb first at
      then zone.date ((zone.local first).day + 1) (zone.local first).minute
      else first

  -- The end of the quiet hours, on the next day where they began in the evening.
  unfoldable pub quiet_end_at : ℕ → ℕ → ℕ
  quiet_end_at start end =
      let now = zone.local at in
      zone.date (if leb end start && leb start now.minute then now.day + 1 else now.day) end

  unfoldable pub after_quiet : ℕ → ℕ → ℕ
  unfolding quiet_end_at
  after_quiet start end =
      if is_quiet start end (zone.local at).minute then quiet_end_at start end else at

  -- The end is there where the start is: `PutPreferences` stores both or none.
  unfoldable pub outside_quiet : Option ℕ → Option ℕ → ℕ
  unfolding after_quiet
  outside_quiet (some start) (some end) = after_quiet start end
  outside_quiet (some start) none = at
  outside_quiet none end = at

  unfoldable pub available_by : Cadence → NotificationPreferences → ℕ
  unfolding digest_at outside_quiet
  available_by daily_digest p = digest_at p.digest_minutes
  available_by immediate p = outside_quiet p.quiet_start_minutes p.quiet_end_minutes

  unfoldable pub notification_available_at : NotificationPreferences → ℕ
  unfolding available_by
  notification_available_at p = available_by p.cadence p
