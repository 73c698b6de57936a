-- ===== src/Results/Ranking.antt =====
-- src/results/ranking.ts: standard competition ranking. A value is a `Decimal` of two places in
-- hundredths, so `toDecimalPlaces(2)` leaves it as it is. The `Map` from items to ranks is the list
-- of pairs in the order of insertion.

pub mod Places
use edu_gear_back_end.Common.{
  leb, ◌==◌, if◌then◌else◌, ℕ, ◌+◌, ◌%◌, Bool, false, ◌&&◌, Option, none, some, List, [], ◌∷◌,
}
use edu_gear_back_end.Common.Sorting.{insert, sort}
use edu_gear_back_end.Common.Text.{Text, codes}

-- `previous !== null && current.equals(previous)`
abbrev pub repeats : Option ℕ → ℕ → Bool
repeats none current = false
repeats (some previous) current = current == previous

module _ {A : Type 0} (value : A → ℕ) where
  -- `value(b).comparedTo(value(a)) <= 0`: the highest first.
  abbrev pub by_value : A → A → Bool
  by_value a b = leb (value b) (value a)

  -- The body of `sorted.forEach`.
  pub place : ℕ → Option ℕ → ℕ → List A → List (A × ℕ)
  place index previous rank [] = []
  place index previous rank (item ∷ items) =
      let again = repeats previous (value item) in
      let rank' = if again then rank else index + 1 in
      let previous' = if again then previous else some (value item) in
      (item, rank') ∷ place (index + 1) previous' rank' items

  unfoldable pub competition_rank : List A → List (A × ℕ)
  unfolding place sort insert
  competition_rank items = place 0 none 0 (sort by_value items)

-- `ranks.get(item)`, where the identity of an item is a key of its row.
unfoldable pub rank_of {ℓ} : {A : Type ℓ} → (A → ℕ) → ℕ → List (A × ℕ) → Option ℕ
rank_of key k [] = none
rank_of key k ((item, rank) ∷ ranks) = if key item == k then some rank else rank_of key k ranks

-- The suffix alone: the printed text is the number followed by it.
unfoldable pub ordinal_suffix : ℕ → Text
ordinal_suffix position =
    let last_two = position % 100 in
    if leb 11 last_two && leb last_two 13
    then codes "th"
    else if position % 10 == 1
    then codes "st"
    else if position % 10 == 2
    then codes "nd"
    else if position % 10 == 3
    then codes "rd"
    else codes "th"
