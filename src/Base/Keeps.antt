-- ===== src/Base/Keeps.antt =====
-- Transactions whose every successful run relates the store before to the store after: the relation
-- is reflexive and transitive, so a chain of statements keeps it where each statement does.
use mathlib.Core.Path.{◌≡◌, refl, sym, subst}
use mathlib.Core.Bool.{Bool, true, false}
use mathlib.Core.Option.{Option, none, some}
use roomies.Base.Tests.{if◌then◌else◌}
use roomies.Base.Result.{Result, ok, err}
use roomies.Base.Tx.{Tx, pure, fail, read, modify, fail_if, or_fail, ◌>>=◌, >>=-eq-ok, transact}

module _ {E S : Type 0} (R : S → S → Type 0) where
  abbrev pub Keeps : {A : Type 0} → Tx E S A → Type 0
  Keeps {A} m = (s : S) (r : A × S) → m s ≡ ok r → R s r.1

  pub keep_one :
      {A : Type 0} (a : A) (s t : S) (r : A × S)
      → R s t
      → ◌≡◌ {A = Result E (A × S)} (ok (a, t)) (ok r)
      → R s r.1
  keep_one a s t r h e = let q : t ≡ r.1 = cc in subst (R s) q h

  pub keep_modify : (f : S → S) → ((s : S) → R s (f s)) → Keeps (modify f)
  keep_modify f h s r e = keep_one tt s (f s) r (h s) e

  pub keep_fail : {A : Type 0} (x : E) → Keeps (fail {A = A} x)
  keep_fail x s r e = cc

  module _ (rfl : (s : S) → R s s) where
    pub keep_pure : {A : Type 0} (a : A) → Keeps (pure a)
    keep_pure a s r e = keep_one a s s r (rfl s) e

    pub keep_read : {A : Type 0} (f : S → A) → Keeps (read f)
    keep_read f s r e = keep_one (f s) s s r (rfl s) e

    pub keep_fail_if : (b : Bool) (x : E) → Keeps (fail_if b x)
    keep_fail_if true x s r e = cc
    keep_fail_if false x s r e = keep_one tt s s r (rfl s) e

    pub keep_find : {A : Type 0} (f : S → Option A) (x : E) → Keeps (λ s. or_fail (f s) x s)
    keep_find {A} f x s r e = go (f s) e
      where
        go : (o : Option A) → or_fail o x s ≡ ok r → R s r.1
        go none h = cc
        go (some a) h = keep_one a s s r (rfl s) h

  pub keep_if :
      {A : Type 0} (b : Bool) (m k : Tx E S A) → Keeps m → Keeps k → Keeps (if b then m else k)
  keep_if true m k hm hk = hm
  keep_if false m k hm hk = hk

  module _ (trans : (s t u : S) → R s t → R t u → R s u) where
    pub keep_bind :
        {A B : Type 0} (m : Tx E S A) (f : A → Tx E S B)
        → Keeps m
        → ((a : A) → Keeps (f a))
        → Keeps (m >>= f)
    keep_bind m f hm hf s r e =
        let (a, t, first, second) = >>=-eq-ok m f s e in
        trans s t r.1 (hm s (a, t) first) (hf a t r second)

  -- The store that is left behind, also by a transaction that fails.
  pub keep_transact : {A : Type 0} (m : Tx E S A) (s : S) → R s s → Keeps m → R s (transact m s).1
  keep_transact {A} m s same h = go (m s) (h s)
    where
      go :
          (x : Result E (A × S))
          → ((r : A × S) → x ≡ ok r → R s r.1)
          → R s (elim x as (λ _. Result E A × S) [ ok r ↦ (ok r.0, r.1) | err e ↦ (err e, s) ]).1
      go (ok r) k = k r refl
      go (err e) k = same

-- Transactions that give one value, whatever the store.
module _ {E S A : Type 0} (a : A) where
  abbrev pub Returns : Tx E S A → Type 0
  Returns m = (s : S) (r : A × S) → m s ≡ ok r → r.0 ≡ a

  pub pure-Returns : Returns (pure a)
  pure-Returns s r e = let q : a ≡ r.0 = cc in sym q

  pub bind-Returns :
      {B : Type 0} (m : Tx E S B) (f : B → Tx E S A) → ((b : B) → Returns (f b)) → Returns (m >>= f)
  bind-Returns m f h s r e = let (b, t, first, second) = >>=-eq-ok m f s e in h b t r second
