-- ===== src/RateLimit/Refines.antt =====
-- The limiter (src/backend/internal/middleware/ratelimit.go) against a full history of hits.
use mathlib.Core.Path.{ap₂}
use roomies.Base.{
  ℕ, ◌+◌, ◌-◌, ◌≤◌, ◌≡◌, refl, ap, sym, ◌∙◌, ◌⊎◌, Bool, true, false, ◌||◌, List, [], ◌∷◌, ◌++◌,
  length, All, All-append, arith, ltb, leb, ◌==◌, ==→eq, if◌then◌else◌, Bool-cases, inl, inr,
}
use roomies.RateLimit.{
  WindowLimiter, is_idle, swept, reject, accept, new_window_limiter, sweep, fresh, set_hits,
  record_hit, allow,
}

-- The specification: every accepted hit of every key, for ever.
abbrev pub History : Type 0
History = ℕ → List ℕ

-- A hit is accepted exactly where fewer than `limit` accepted hits of its key are younger than the
-- window.
pub allow_by_history : ℕ → ℕ → ℕ → ℕ → History → Bool × History
allow_by_history window now key limit h =
    if limit == 0 || key == 0
    then (true, h)
    else (if leb limit (length (fresh window now (h key)))
        then (false, h)
        else (true, set_hits key (h key ++ now ∷ []) h))

abbrev pub Ascending : List ℕ → Type 0
Ascending [] = Unit
Ascending (x ∷ xs) = All (λ y. x ≤ y) xs × Ascending xs

-- At time `now` and later, both hold the same fresh stamps; the stamps stand in order of time.
pub record Refines (now : ℕ) (l : WindowLimiter) (h : History) : Type 0 where
  pub same : (k now' : ℕ) → now ≤ now' → fresh l.window now' (l.hits k) ≡ fresh l.window now' (h k)
  pub ascending : (k : ℕ) → Ascending (l.hits k)
  pub past : (k : ℕ) → All (λ t. t ≤ now) (l.hits k)

fresh-fresh :
    (w now now' : ℕ) (xs : List ℕ) → now ≤ now' → fresh w now' (fresh w now xs) ≡ fresh w now' xs
fresh-fresh w now now' [] h = refl
fresh-fresh w now now' (x ∷ xs) h = ground (arith, fresh-fresh w now now' xs h)

fresh-append :
    (w now : ℕ) (xs ys : List ℕ) → fresh w now (xs ++ ys) ≡ fresh w now xs ++ fresh w now ys
fresh-append w now [] ys = refl
fresh-append w now (x ∷ xs) ys = ground (arith, fresh-append w now xs ys)

All-fresh : (P : ℕ → Type 0) (w now : ℕ) (xs : List ℕ) → All P xs → All P (fresh w now xs)
All-fresh P w now [] h = tt
All-fresh P w now (x ∷ xs) h = elim (Bool-cases (ltb now (x + w))) [
  | inl new ↦ rw new (h.0, All-fresh P w now xs h.1)
  | inr old ↦ rw old (All-fresh P w now xs h.1)
]

Ascending-fresh : (w now : ℕ) (xs : List ℕ) → Ascending xs → Ascending (fresh w now xs)
Ascending-fresh w now [] h = tt
Ascending-fresh w now (x ∷ xs) h = elim (Bool-cases (ltb now (x + w))) [
  | inl new ↦ rw new (All-fresh _ w now xs h.0, Ascending-fresh w now xs h.1)
  | inr old ↦ rw old (Ascending-fresh w now xs h.1)
]

Ascending-snoc :
    (xs : List ℕ) (t : ℕ) → Ascending xs → All (λ x. x ≤ t) xs → Ascending (xs ++ t ∷ [])
Ascending-snoc [] t h b = (tt, tt)
Ascending-snoc (x ∷ xs) t h b =
    (All-append (λ y. x ≤ y) (t ∷ []) (b.0, tt) xs h.0, Ascending-snoc xs t h.1 b.1)

All-later :
    (now now' : ℕ) (xs : List ℕ) → now ≤ now' → All (λ t. t ≤ now) xs → All (λ t. t ≤ now') xs
All-later now now' [] h b = tt
All-later now now' (x ∷ xs) h b = (omega arith, All-later now now' xs h b.1)

-- Where the last stamp is too old, all are, and stay so.
idle-fresh :
    (w now now' : ℕ) (xs : List ℕ)
    → Ascending xs
    → is_idle w now xs ≡ true
    → now ≤ now'
    → fresh w now' xs ≡ []
idle-fresh w now now' [] a i h = refl
idle-fresh w now now' (x ∷ []) a i h = ground arith
idle-fresh w now now' (x ∷ y ∷ ys) a i h = ground (arith, idle-fresh w now now' (y ∷ ys) a.1 i h)

Refines-if :
    (b : Bool) (now : ℕ) {l l' : WindowLimiter} {h : History}
    → Refines now l h
    → Refines now l' h
    → Refines now (if b then l else l') h
Refines-if true now r r' = r
Refines-if false now r r' = r'

Refines-later :
    {now : ℕ} (now' : ℕ) {l : WindowLimiter} {h : History}
    → now ≤ now'
    → Refines now l h
    → Refines now' l h
Refines-later {now} now' {l} later r = record {
  same = λ k n le. r.same k n (omega arith);
  ascending = r.ascending;
  past = λ k. All-later now now' (l.hits k) later (r.past k);
}

swept-Refines :
    (now : ℕ) {l : WindowLimiter} {h : History} → Refines now l h → Refines now (swept now l) h
swept-Refines now {l} r = record {
  same = λ k n le. elim (Bool-cases (is_idle l.window now (l.hits k))) [
    | inl idle ↦
        rw idle (sym (idle-fresh l.window now n (l.hits k) (r.ascending k) idle le) ∙ r.same k n le)
    | inr live ↦ rw live (r.same k n le)
  ];
  ascending = λ k. elim (Bool-cases (is_idle l.window now (l.hits k))) [
    | inl idle ↦ rw idle tt
    | inr live ↦ rw live (r.ascending k)
  ];
  past = λ k. elim (Bool-cases (is_idle l.window now (l.hits k))) [
    | inl idle ↦ rw idle tt
    | inr live ↦ rw live (r.past k)
  ];
}

module _ (now key : ℕ) {l : WindowLimiter} {h : History} (r : Refines now l h) where
  reject-Refines : Refines now (reject now key l) h
  reject-Refines = record {
    same = λ k n le. elim (Bool-cases (k == key)) [
      | inl at ↦
          rw (at, ==→eq k key at, fresh-fresh l.window now n (l.hits key) le) (r.same key n le)
      | inr other ↦ rw other (r.same k n le)
    ];
    ascending = λ k. elim (Bool-cases (k == key)) [
      | inl at ↦ rw at (Ascending-fresh l.window now (l.hits key) (r.ascending key))
      | inr other ↦ rw other (r.ascending k)
    ];
    past = λ k. elim (Bool-cases (k == key)) [
      | inl at ↦ rw at (All-fresh _ l.window now (l.hits key) (r.past key))
      | inr other ↦ rw other (r.past k)
    ];
  }

  accept-Refines : Refines now (accept now key l) (set_hits key (h key ++ now ∷ []) h)
  accept-Refines =
      let kept = fresh l.window now (l.hits key) in
      let old = All-fresh (λ t. t ≤ now) l.window now (l.hits key) (r.past key) in
      record {
        same = λ k n le. elim (Bool-cases (k == key)) [
          | inl at ↦ rw (
            at,
            fresh-append l.window n kept (now ∷ []),
            fresh-append l.window n (h key) (now ∷ []),
            fresh-fresh l.window now n (l.hits key) le,
            r.same key n le,
          )
          | inr other ↦ rw other (r.same k n le)
        ];
        ascending = λ k. elim (Bool-cases (k == key)) [
          | inl at ↦ rw at (
              Ascending-snoc kept now (Ascending-fresh l.window now (l.hits key) (r.ascending key))
                old)
          | inr other ↦ rw other (r.ascending k)
        ];
        past = λ k. elim (Bool-cases (k == key)) [
          | inl at ↦ rw at (All-append (λ t. t ≤ now) (now ∷ []) (omega arith, tt) kept old)
          | inr other ↦ rw other (r.past k)
        ];
      }

  record_hit_lem :
      (limit : ℕ)
      → (limit == 0 || key == 0) ≡ false
      → ((record_hit now key limit l).0 ≡ (allow_by_history l.window now key limit h).0)
        × Refines now (record_hit now key limit l).1 (allow_by_history l.window now key limit h).1
  unfolding record_hit allow_by_history
  record_hit_lem limit on =
      let e = r.same key now (omega arith) in
      elim (Bool-cases (leb limit (length (fresh l.window now (h key))))) [
        | inl full ↦
            let full' : leb limit (length (fresh l.window now (l.hits key))) ≡ true = rw e full in
            rw (on, full', full) (refl, reject-Refines)
        | inr room ↦
            let room' : leb limit (length (fresh l.window now (l.hits key))) ≡ false = rw e room in
            rw (on, room', room) (refl, accept-Refines)
      ]

module _ (now key limit : ℕ) (l : WindowLimiter) where
  allow_off : (limit == 0 || key == 0) ≡ true → allow now key limit l ≡ (true, l)
  unfolding allow
  allow_off off = rw off

  allow_on :
      (limit == 0 || key == 0) ≡ false
      → allow now key limit l ≡ record_hit now key limit (sweep now l)
  unfolding allow
  allow_on on = rw on

  sweep_cases : (sweep now l ≡ swept now l) ⊎ (sweep now l ≡ l)
  unfolding sweep
  sweep_cases = elim (Bool-cases (leb l.window (now - l.last_sweep))) [
    | inl due ↦ inl (rw due)
    | inr early ↦ inr (rw early)
  ]

history_off :
    (w now key limit : ℕ) (h : History)
    → (limit == 0 || key == 0) ≡ true
    → allow_by_history w now key limit h ≡ (true, h)
unfolding allow_by_history
history_off w now key limit h off = rw off

-- At any later time the limiter answers as the full history does, keeps its window, and goes on
-- answering so.
pub allow-Refines :
    (now now' key limit : ℕ) {l : WindowLimiter} {h : History}
    → Refines now l h
    → now ≤ now'
    → ((allow now' key limit l).0 ≡ (allow_by_history l.window now' key limit h).0)
      × Refines now' (allow now' key limit l).1 (allow_by_history l.window now' key limit h).1
allow-Refines now now' key limit {l} {h} r later =
    let r' = Refines-later now' later r in
    elim (Bool-cases (limit == 0 || key == 0)) [
      | inl off ↦
          rw (allow_off now' key limit l off, history_off l.window now' key limit h off) (refl, r')
      | inr on ↦ rw (allow_on now' key limit l on) (elim (sweep_cases now' key limit l) [
        | inl due ↦ rw due (record_hit_lem now' key (swept-Refines now' r') limit on)
        | inr early ↦ rw early (record_hit_lem now' key r' limit on)
      ])
    ]

allow_window : (now key limit : ℕ) (l : WindowLimiter) → (allow now key limit l).1.window ≡ l.window
unfolding allow sweep record_hit
allow_window now key limit l = ground arith

-- The calls of a client: the time since the last one, the key and the limit.
abbrev pub Call : Type 0
Call = ℕ × ℕ × ℕ

pub answers : ℕ → List Call → WindowLimiter → List Bool
answers now [] l = []
answers now ((wait, key, limit) ∷ cs) l =
    let (b, l') = allow (now + wait) key limit l in b ∷ answers (now + wait) cs l'

pub answers_by_history : ℕ → ℕ → List Call → History → List Bool
unfolding allow_by_history
answers_by_history window now [] h = []
answers_by_history window now ((wait, key, limit) ∷ cs) h =
    let (b, h') = allow_by_history window (now + wait) key limit h in
    b ∷ answers_by_history window (now + wait) cs h'

answers-Refines :
    (now : ℕ) (cs : List Call) {l : WindowLimiter} {h : History}
    → Refines now l h
    → answers now cs l ≡ answers_by_history l.window now cs h
unfolding answers answers_by_history
answers-Refines now [] r = refl
answers-Refines now ((wait, key, limit) ∷ cs) {l} {h} r =
    let (same, r') = allow-Refines now (now + wait) key limit r (omega arith) in
    let rest = answers-Refines (now + wait) cs r' in
    let h' = (allow_by_history l.window (now + wait) key limit h).1 in
    ap₂ (λ b bs. b ∷ bs) same
      (rest
        ∙ ap (λ w. answers_by_history w (now + wait) cs h') (allow_window (now + wait) key limit l))

-- A new limiter answers every sequence of calls exactly as if it kept each accepted hit for ever:
-- a call is let through exactly where fewer than its limit of the accepted hits of its key are
-- younger than the window, or where it has no limit or no key.
pub new_window_limiter_refines :
    (window now : ℕ) (cs : List Call)
    → answers now cs (new_window_limiter window)
      ≡ answers_by_history (new_window_limiter window).window now cs (λ _. [])
unfolding new_window_limiter
new_window_limiter_refines window now cs =
    answers-Refines now cs (record { same = λ k n le. refl; ascending = λ k. tt; past = λ k. tt })
