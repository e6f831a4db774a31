-- ===== src/RateLimit.antt =====
-- The window limiter of the authentication endpoints (src/backend/internal/middleware/ratelimit.go).
-- Times are nanoseconds; a key is a number, 0 for the empty text, and a limit of zero or less is 0.
-- `ts.After(now - window)` is written `now < ts + window`. The Go map is a function: an absent key
-- reads as no stamps there, so deleting a key is clearing its stamps.
pub mod Refines
use roomies.Base.{
  ℕ, ◌+◌, ◌-◌, Bool, true, false, ◌||◌, Option, none, some, List, [], ◌∷◌, ◌++◌, length, ltb, leb,
  ◌==◌, if◌then◌else◌,
}
use roomies.Base.Sql.{select_where}

pub record WindowLimiter : Type 0 where
  pub window : ℕ
  pub hits : ℕ → List ℕ
  pub last_sweep : ℕ

abbrev pub minute : ℕ
minute = 60000000000

-- A window of zero or less becomes a minute.
unfoldable pub new_window_limiter : ℕ → WindowLimiter
new_window_limiter window = record {
  window = if window == 0 then minute else window;
  hits = λ _. [];
  last_sweep = 0;
}

abbrev pub get_last? : List ℕ → Option ℕ
get_last? [] = none
get_last? (x ∷ []) = some x
get_last? (x ∷ y ∷ ys) = get_last? (y ∷ ys)

-- len(stamps) == 0 || !stamps[len(stamps)-1].After(cutoff)
abbrev pub is_idle : ℕ → ℕ → List ℕ → Bool
is_idle window now stamps = elim (get_last? stamps) [ none ↦ true | some t ↦ leb (t + window) now ]

-- Forget the idle keys.
abbrev pub swept : ℕ → WindowLimiter → WindowLimiter
swept now l = record l {
  hits = λ k. if is_idle l.window now (l.hits k) then [] else l.hits k;
  last_sweep = now;
}

-- … once per window.
unfoldable pub sweep : ℕ → WindowLimiter → WindowLimiter
sweep now l = if leb l.window (now - l.last_sweep) then swept now l else l

-- The stamps after the cutoff.
abbrev pub fresh : ℕ → ℕ → List ℕ → List ℕ
fresh window now = select_where (λ ts. ltb now (ts + window))

abbrev pub set_hits : ℕ → List ℕ → (ℕ → List ℕ) → ℕ → List ℕ
set_hits key stamps hits k = if k == key then stamps else hits k

-- What `Allow` stores for the key where it answers false, and where it answers true.
abbrev pub reject : ℕ → ℕ → WindowLimiter → WindowLimiter
reject now key l = record l { hits = set_hits key (fresh l.window now (l.hits key)) l.hits }

abbrev pub accept : ℕ → ℕ → WindowLimiter → WindowLimiter
accept now key l = record l {
  hits = set_hits key (fresh l.window now (l.hits key) ++ now ∷ []) l.hits;
}

-- `Allow` past its first test and the sweep.
record_hit : ℕ → ℕ → ℕ → WindowLimiter → Bool × WindowLimiter
record_hit now key limit l =
    if leb limit (length (fresh l.window now (l.hits key)))
    then (false, reject now key l)
    else (true, accept now key l)

-- `Allow`, at the time `now`.
unfoldable pub allow : ℕ → ℕ → ℕ → WindowLimiter → Bool × WindowLimiter
unfolding sweep record_hit
allow now key limit l =
    if limit == 0 || key == 0 then (true, l) else record_hit now key limit (sweep now l)
