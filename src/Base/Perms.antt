-- ===== src/Base/Perms.antt =====
-- What a rearranged list shares with the list: its sums, its length, what holds of all its elements.
use mathlib.Core.List.{Perm, Permᴰ, List, [], ◌∷◌}
use mathlib.Core.Logic.{∥∥₁_elim}
use mathlib.Core.Path.{◌≡◌, refl, ap, subst, ◌∙◌}
use mathlib.Core.HLevel.{×_prop}
use native.Mathlib.Nat.{ℕ_set}
use native.Mathlib.Omega.{arith}
use Prim.Native.Nat.{ℕ, suc}
use roomies.Base.Lists.{sum_by, All, length}

-- A rearranged list has the same sums.
sum_by-Permᴰ {ℓ} :
    {A : Type ℓ} (f : A → ℕ) {xs ys : List A} → Permᴰ xs ys → sum_by f xs ≡ sum_by f ys
sum_by-Permᴰ f Permᴰ.nil = refl
sum_by-Permᴰ f (Permᴰ.cons e p) = omega (arith, ap f e, sum_by-Permᴰ f p)
sum_by-Permᴰ f (Permᴰ.swap e e') = omega (arith, ap f e, ap f e')
sum_by-Permᴰ f (Permᴰ.trans p q) = sum_by-Permᴰ f p ∙ sum_by-Permᴰ f q

pub sum_by-Perm {ℓ} :
    {A : Type ℓ} (f : A → ℕ) {xs ys : List A} → Perm xs ys → sum_by f xs ≡ sum_by f ys
sum_by-Perm f p = ∥∥₁_elim p (ℕ_set _ _) (sum_by-Permᴰ f)

length-Permᴰ {ℓ} : {A : Type ℓ} {xs ys : List A} → Permᴰ xs ys → length xs ≡ length ys
length-Permᴰ Permᴰ.nil = refl
length-Permᴰ (Permᴰ.cons e p) = ap suc (length-Permᴰ p)
length-Permᴰ (Permᴰ.swap e e') = refl
length-Permᴰ (Permᴰ.trans p q) = length-Permᴰ p ∙ length-Permᴰ q

pub length-Perm {ℓ} : {A : Type ℓ} {xs ys : List A} → Perm xs ys → length xs ≡ length ys
length-Perm p = ∥∥₁_elim p (ℕ_set _ _) length-Permᴰ

module _ {ℓ κ} {A : Type ℓ} (P : A → Type κ) where
  All-prop : ((x : A) → IsProp (P x)) → (xs : List A) → IsProp (All P xs)
  All-prop prop [] a b = refl
  All-prop prop (x ∷ xs) a b = ×_prop (prop x) (All-prop prop xs) a b

  All-Permᴰ : {xs ys : List A} → Permᴰ xs ys → All P xs → All P ys
  All-Permᴰ Permᴰ.nil h = tt
  All-Permᴰ (Permᴰ.cons e p) h = (subst P e h.0, All-Permᴰ p h.1)
  All-Permᴰ (Permᴰ.swap e e') h = (subst P e' h.1.0, (subst P e h.0, h.1.1))
  All-Permᴰ (Permᴰ.trans p q) h = All-Permᴰ q (All-Permᴰ p h)

  pub All-Perm : ((x : A) → IsProp (P x)) → {xs ys : List A} → Perm xs ys → All P xs → All P ys
  All-Perm prop {ys} p h = ∥∥₁_elim p (All-prop prop ys) (λ d. All-Permᴰ d h)
