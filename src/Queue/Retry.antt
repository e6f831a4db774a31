-- ===== src/Queue/Retry.antt =====
-- When a failed job runs again, and when it is given up (`failOutboxJob` and `jobBackoff` of
-- src/backend/internal/repository/jobs.go).
use roomies.Base.{ℕ, zero, suc, ◌+◌, ◌*◌, ◌≤◌, ◌≡◌, ◌⊎◌, refl, arith, inl, inr}
use roomies.Queue.{job_backoff, second}

-- The backoff is one second after no attempt and after the first, doubles with each attempt from the
-- first to the sixth, and is 32 seconds after six attempts or more.
pub job_backoff_schedule :
    (attempt : ℕ)
    → (job_backoff 0 ≡ second)
      × (job_backoff 1 ≡ second)
      × ((attempt ≡ 0)
          ⊎ ((1 ≤ attempt) × (attempt ≤ 5) × (job_backoff (attempt + 1) ≡ 2 * job_backoff attempt))
          ⊎ ((6 ≤ attempt) × (job_backoff attempt ≡ 32 * second)))
unfolding job_backoff
job_backoff_schedule zero = (ground arith, ground arith, inl refl)
job_backoff_schedule (suc zero) = (ground arith, ground arith, inr (inl (ground arith)))
job_backoff_schedule (suc (suc zero)) = (ground arith, ground arith, inr (inl (ground arith)))
job_backoff_schedule (suc (suc (suc zero))) = (ground arith, ground arith, inr (inl (ground arith)))
job_backoff_schedule (suc (suc (suc (suc zero)))) =
    (ground arith, ground arith, inr (inl (ground arith)))
job_backoff_schedule (suc (suc (suc (suc (suc zero))))) =
    (ground arith, ground arith, inr (inl (ground arith)))
job_backoff_schedule (suc (suc (suc (suc (suc (suc n)))))) =
    (ground arith, ground arith, inr (inr (ground arith)))
