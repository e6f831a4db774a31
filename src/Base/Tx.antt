-- ===== src/Base/Tx.antt =====
-- Database transactions. The body of a transaction is a function of the store that fails or gives
-- a value and the new store; `transact` keeps the new store on success and the old one on an
-- error, as `defer tx.Rollback()` and the final `tx.Commit()` do.
use mathlib.Core.Path.{◌≡◌, refl, ap}
use mathlib.Core.Bool.{Bool, true, false}
use mathlib.Core.Option.{Option, none, some}
use roomies.Base.Result.{Result, ok, err}

abbrev pub Tx : Type 0 → Type 0 → Type 0 → Type 0
Tx E S A = S → Result E (A × S)

module _ {E S : Type 0} where
  abbrev pub pure : {A : Type 0} → A → Tx E S A
  pure a s = ok (a, s)

  abbrev pub fail : {A : Type 0} → E → Tx E S A
  fail e s = err e

  abbrev pub read : {A : Type 0} → (S → A) → Tx E S A
  read f s = ok (f s, s)

  abbrev pub modify : (S → S) → Tx E S (Unit {0})
  modify f s = ok (tt, f s)

  -- `if bad { return err }`
  abbrev pub fail_if : Bool → E → Tx E S (Unit {0})
  fail_if true e = fail e
  fail_if false e = pure tt

  -- `sql.ErrNoRows` as the error `e`
  abbrev pub or_fail : {A : Type 0} → Option A → E → Tx E S A
  or_fail none e = fail e
  or_fail (some a) e = pure a

infixl 5 ◌>>=◌ ◌>>◌
abbrev pub ◌>>=◌ : {E S A B : Type 0} → Tx E S A → (A → Tx E S B) → Tx E S B
◌>>=◌ m f s = elim (m s) [ ok r ↦ f r.0 r.1 | err e ↦ err e ]

abbrev pub ◌>>◌ : {E S A B : Type 0} → Tx E S A → Tx E S B → Tx E S B
m >> k = m >>= λ _. k

abbrev pub transact : {E S A : Type 0} → Tx E S A → S → Result E A × S
transact m s = elim (m s) [ ok r ↦ (ok r.0, r.1) | err e ↦ (err e, s) ]

-- Inversion of a successful bind.
pub >>=-eq-ok :
    {E S A B : Type 0} (m : Tx E S A) (f : A → Tx E S B) (s : S) {r : B × S}
    → (m >>= f) s ≡ ok r
    → (a : A) × (s' : S) × (m s ≡ ok (a, s')) × (f a s' ≡ ok r)
>>=-eq-ok {E} {S} {A} {B} m f s {r} h = go (m s) h
  where
    go :
        (x : Result E (A × S))
        → ◌≡◌ {A = Result E (B × S)} (elim x [ ok p ↦ f p.0 p.1 | err e ↦ err e ]) (ok r)
        → (a : A) × (s' : S) × (x ≡ ok (a, s')) × (f a s' ≡ ok r)
    go (ok (a, s')) e = (a, s', refl, e)
    go (err x) e = cc

-- A chain goes on with what its first part gave.
pub >>=-ok :
    {E S A B : Type 0} (m : Tx E S A) (f : A → Tx E S B) (s : S) {a : A} {t : S}
    → m s ≡ ok (a, t)
    → (m >>= f) s ≡ f a t
>>=-ok {E} {S} {A} {B} m f s e =
    ap (λ x. elim x as (λ _. Result E (B × S)) [ ok p ↦ f p.0 p.1 | err e ↦ err e ]) e
