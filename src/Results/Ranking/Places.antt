-- ===== src/Results/Ranking/Places.antt =====
-- `competitionRank` of src/results/ranking.ts, and a description of its places by counting.
use edu_gear_back_end.Common.{
  ltb, leb, ◌==◌, if◌then◌else◌, Bool-cases, count, Has, All, ℕ, ◌+◌, ◌≤◌, ◌<◌, ◌≡◌, refl, ap, inl,
  inr, true, false, Option, none, some, List, [], ◌∷◌, arith,
}
use edu_gear_back_end.Common.Sorting.{sort, IsSorted, Has-sort, count-sort, sort-IsSorted}
use edu_gear_back_end.Results.Ranking.{repeats, by_value, place, competition_rank, rank_of}

module _ {A : Type 0} (value : A → ℕ) where
  -- How many items have a value above `v`.
  abbrev pub above : ℕ → List A → ℕ
  above v xs = count (λ y. ltb v (value y)) xs

  abbrev AtMost : ℕ → List A → Type 0
  AtMost v xs = All (λ y. leb (value y) v ≡ true) xs

  above_none : (v : ℕ) (xs : List A) → AtMost v xs → above v xs ≡ 0
  above_none v [] h = refl
  above_none v (x ∷ xs) h = ground (arith, above_none v xs h.1)

  AtMost-mono : (v w : ℕ) (xs : List A) → v ≤ w → AtMost v xs → AtMost w xs
  AtMost-mono v w [] le h = tt
  AtMost-mono v w (x ∷ xs) le h = (ground arith, AtMost-mono v w xs le h.1)

  -- `seen v` counts the items already placed with a value above `v`; this is it after one more.
  abbrev seen_with : A → (ℕ → ℕ) → ℕ → ℕ
  seen_with y seen v = seen v + (if ltb v (value y) then 1 else 0)

  above-cons :
      (seen : ℕ → ℕ) (y : A) (ys : List A) (v : ℕ)
      → seen v + above v (y ∷ ys) ≡ seen_with y seen v + above v ys
  above-cons seen y ys v = ground arith

  -- The state of the loop before the items `xs`, the last value placed being `previous`.
  record Placing (seen : ℕ → ℕ) (index previous rank : ℕ) (xs : List A) : Type 0 where
    sorted : IsSorted (by_value value) xs
    low : AtMost previous xs
    counted : rank ≡ 1 + seen previous
    full : (v : ℕ) → v < previous → seen v ≡ index

  Placing-again :
      (seen : ℕ → ℕ) (index previous rank : ℕ) (y : A) (ys : List A)
      → Placing seen index previous rank (y ∷ ys)
      → value y ≡ previous
      → Placing (seen_with y seen) (index + 1) previous rank ys
  Placing-again seen index previous rank y ys s e = record {
    sorted = s.sorted.1;
    low = s.low.1;
    counted = ground (arith, s.counted);
    full = λ v h. ground (arith, s.full v h);
  }

  Placing-fresh :
      (seen : ℕ → ℕ) (index previous rank : ℕ) (y : A) (ys : List A)
      → Placing seen index previous rank (y ∷ ys)
      → value y < previous
      → Placing (seen_with y seen) (index + 1) (value y) (index + 1) ys
  Placing-fresh seen index previous rank y ys s less = record {
    sorted = s.sorted.1;
    low = s.sorted.0;
    counted = ground (arith, s.full (value y) less);
    full = λ v h. ground (arith, s.full v (omega arith));
  }

  -- The rank of each item is one more than the number of items of a greater value, among those
  -- placed before and those to come.
  place-above :
      (seen : ℕ → ℕ) (index previous rank : ℕ) (xs : List A) (x : A) (r : ℕ)
      → Placing seen index previous rank xs
      → Has (x, r) (place value index (some previous) rank xs)
      → r ≡ 1 + (seen (value x) + above (value x) xs)
  unfolding place
  place-above seen index previous rank [] x r s h = elim h [ ]
  place-above seen index previous rank (y ∷ ys) x r s h = elim (Bool-cases (value y == previous)) [
    | inl again ↦
        let tail = λ (k : Has (x, r) (place value (index + 1) (some previous) rank ys)).
          place-above (seen_with y seen) (index + 1) previous rank ys x r
            (Placing-again seen index previous rank y ys s (ground arith)) k in
        ground (arith, tail, above-cons seen y ys (value x), above_none (value y) ys, s.counted)
    | inr fresh ↦
        let less : value y < previous = ground (arith, s.low.0) in
        let tail = λ (k : Has (x, r) (place value (index + 1) (some (value y)) (index + 1) ys)).
          place-above (seen_with y seen) (index + 1) (value y) (index + 1) ys x r
            (Placing-fresh seen index previous rank y ys s less) k in
        ground (
          arith,
          tail,
          above-cons seen y ys (value x),
          above_none (value y) ys,
          s.full (value y) less,
        )
  ]

  place_first :
      (y : A) (ys : List A) (x : A) (r : ℕ)
      → IsSorted (by_value value) (y ∷ ys)
      → Has (x, r) (place value 0 none 0 (y ∷ ys))
      → r ≡ 1 + above (value x) (y ∷ ys)
  unfolding place
  place_first y ys x r s h =
      let seen = seen_with y (λ v. 0) in
      let start : Placing seen 1 (value y) 1 ys = record {
        sorted = s.1;
        low = s.0;
        counted = ground arith;
        full = λ v k. ground arith;
      } in
      let tail = λ (k : Has (x, r) (place value 1 (some (value y)) 1 ys)).
        place-above seen 1 (value y) 1 ys x r start k in
      ground (arith, tail, above_none (value y) ys)

  by_value_total : (x y : A) → by_value value x y ≡ false → by_value value y x ≡ true
  by_value_total x y h = ground arith

  by_value_trans :
      (x y z : A)
      → by_value value x y ≡ true
      → by_value value y z ≡ true
      → by_value value x z ≡ true
  by_value_trans x y z h k = ground arith

  -- The rank of an item is one more than the number of items with a greater value: tied items share
  -- a place, and the next item takes the place after all of them.
  pub competition_rank-above :
      (items : List A) (x : A) (r : ℕ)
      → Has (x, r) (competition_rank value items)
      → r ≡ 1 + above (value x) items
  unfolding competition_rank
  competition_rank-above items x r h =
      rw (← count-sort (by_value value) (λ y. ltb (value x) (value y)) items) (
        by_first (sort (by_value value) items) h
          (sort-IsSorted (by_value value) by_value_total by_value_trans items))
    where
      by_first :
          (l : List A)
          → Has (x, r) (place value 0 none 0 l)
          → IsSorted (by_value value) l
          → r ≡ 1 + above (value x) l
      by_first [] k s = elim k [ ]
      by_first (y ∷ ys) k s = place_first y ys x r s k

  place-Has :
      (index : ℕ) (previous : Option ℕ) (rank : ℕ) (xs : List A) (x : A)
      → Has x xs
      → (r : ℕ) × Has (x, r) (place value index previous rank xs)
  unfolding place
  place-Has index previous rank [] x h = elim h [ ]
  place-Has index previous rank (y ∷ ys) x (inl e) =
      ((if repeats previous (value y) then rank else index + 1), inl (rw e))
  place-Has index previous rank (y ∷ ys) x (inr h) =
      let again = repeats previous (value y) in
      let rank' = if again then rank else index + 1 in
      let previous' = if again then previous else some (value y) in
      let (r, k) = place-Has (index + 1) previous' rank' ys x h in (r, inr k)

  -- Every item has a rank.
  pub competition_rank-Has :
      (items : List A) (x : A) → Has x items → (r : ℕ) × Has (x, r) (competition_rank value items)
  unfolding competition_rank
  competition_rank-Has items x h =
      place-Has 0 none 0 (sort (by_value value) items) x ((Has-sort (by_value value) x items).1 h)

  place-Has_item :
      (index : ℕ) (previous : Option ℕ) (rank : ℕ) (xs : List A) (x : A) (r : ℕ)
      → Has (x, r) (place value index previous rank xs)
      → Has x xs
  unfolding place
  place-Has_item index previous rank [] x r h = elim h [ ]
  place-Has_item index previous rank (y ∷ ys) x r (inl e) = inl (ap (λ (p : A × ℕ). p.0) e)
  place-Has_item index previous rank (y ∷ ys) x r (inr h) =
      let again = repeats previous (value y) in
      let rank' = if again then rank else index + 1 in
      let previous' = if again then previous else some (value y) in
      inr (place-Has_item (index + 1) previous' rank' ys x r h)

  -- Only the items have ranks.
  pub competition_rank-Has_item :
      (items : List A) (x : A) (r : ℕ) → Has (x, r) (competition_rank value items) → Has x items
  unfolding competition_rank
  competition_rank-Has_item items x r h =
      (Has-sort (by_value value) x items).0
        (place-Has_item 0 none 0 (sort (by_value value) items) x r h)

-- A look-up by a key finds the rank of an item with that key.
pub rank_of-Has :
    {A : Type 0} (key : A → ℕ) (ranks : List (A × ℕ)) (x : A) (r : ℕ)
    → Has (x, r) ranks
    → (y : A) × (q : ℕ) × Has (y, q) ranks × (key y ≡ key x) × (rank_of key (key x) ranks ≡ some q)
unfolding rank_of
rank_of-Has {A} key [] x r h = elim h [ ]
rank_of-Has {A} key ((y, q) ∷ ranks) x r h = elim (Bool-cases (key y == key x)) [
  | inl same ↦ (y, q, inl refl, ground arith, rw same)
  | inr other ↦
      let there = later h other in
      let (z, p, k, e, found) = rank_of-Has key ranks x r there in (z, p, inr k, e, rw other found)
]
  where
    later : Has (x, r) ((y, q) ∷ ranks) → (key y == key x) ≡ false → Has (x, r) ranks
    later (inl e) o = absurd (ground (arith, ap (λ (p : A × ℕ). p.0) e))
    later (inr k) o = k
