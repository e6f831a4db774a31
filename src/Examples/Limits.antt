-- ===== src/Examples/Limits.antt =====
-- Runs of the window limiter.
use roomies.Base.{◌≡◌, List, [], ◌∷◌}
use roomies.RateLimit.{new_window_limiter}
use roomies.RateLimit.Refines.{Call, answers, answers_by_history, new_window_limiter_refines}

abbrev calls : List Call
calls = (1, 9, 2) ∷ (1, 9, 2) ∷ (1, 9, 2) ∷ (60, 9, 2) ∷ []

new_window_limiter_refines_example :
    answers 100 calls (new_window_limiter 50)
    ≡ answers_by_history (new_window_limiter 50).window 100 calls (λ _. [])
new_window_limiter_refines_example = new_window_limiter_refines 50 100 calls
