-- ===== src/Examples/Shares.antt =====
-- Runs of the amounts and the shares.
use roomies.Base.{
  ℕ, ◌/◌, ◌≡◌, refl, true, List, [], ◌∷◌, map, length, arith, sum_by, All, contains, Distinct,
}
use roomies.Base.Int.{pos, ◌+ℤ◌, add64, wrap64}
use roomies.Base.Result.{ok}
use roomies.Models.{SplitEntry}
use roomies.Money.{money_to_cents}
use roomies.Splits.{user_ids, active_members, build_custom_splits, build_splits}
use roomies.Splits.Even.{cents, IsNear, build_splits-even}
use roomies.Splits.Custom.{InRange, build_custom_splits_sound}
use roomies.Examples.Data.{hundredths, people, share, count_up}

abbrev requested : List (SplitEntry ℕ)
requested = record { user_id = 11; amount = 501 } ∷ record { user_id = 12; amount = 500 } ∷ []

build_custom_splits_run :
    build_custom_splits hundredths count_up 50 (pos 1001) requested people
    ≡ ok (share 60 11 501 "" ∷ share 61 12 500 "" ∷ [])
unfolding build_custom_splits money_to_cents add64 wrap64 ◌+ℤ◌
build_custom_splits_run = refl

build_custom_splits_sound_example :
    (pos 1001 ≡ pos (sum_by cents (share 60 11 501 "" ∷ share 61 12 500 "" ∷ [])))
    × (11 ∷ 12 ∷ [] ≡ map (λ e. e.user_id) requested)
    × Distinct (11 ∷ 12 ∷ [])
    × All (λ u. contains (user_ids (active_members people)) u ≡ true) (11 ∷ 12 ∷ [])
    × All InRange (share 60 11 501 "" ∷ share 61 12 500 "" ∷ [])
build_custom_splits_sound_example =
    build_custom_splits_sound hundredths count_up 50 (pos 1001) requested people
      build_custom_splits_run (omega arith)

build_splits_run :
    build_splits hundredths count_up 50 (pos 1001) [] people
    ≡ ok (share 60 11 501 "" ∷ share 61 12 500 "" ∷ [])
unfolding build_splits ◌+ℤ◌
build_splits_run = refl

build_splits-even_example :
    (sum_by cents (share 60 11 501 "" ∷ share 61 12 500 "" ∷ []) ≡ 1001)
    × (11 ∷ 12 ∷ [] ≡ user_ids (active_members people))
    × All
        (IsNear (1001 / length (active_members people)))
        (share 60 11 501 "" ∷ share 61 12 500 "" ∷ [])
build_splits-even_example = build_splits-even hundredths count_up 50 1001 people build_splits_run
