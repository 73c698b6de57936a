-- ===== src/Results/Compute/Positions.antt =====
-- Class positions of src/results/compute-results.ts, and their description by counting.
use mathlib.Core.Path.{subst}
use edu_gear_back_end.Common.{
  ltb, if◌then◌else◌, Bool-cases, same, filter, count, Has, ℕ, ◌+◌, ◌≡◌, refl, sym, ap, ◌∙◌, inl,
  inr, Bool, true, ◌&&◌, Option, none, some, List, [], ◌∷◌, map, arith,
}
use edu_gear_back_end.Results.Ranking.Places.{
  above, competition_rank-above, competition_rank-Has, competition_rank-Has_item, rank_of-Has,
}
use edu_gear_back_end.Results.Ranking.{competition_rank, rank_of}
use edu_gear_back_end.Common.Members.{count-map, Has-map, Has-of-map, count-filter, Has-filter}
use edu_gear_back_end.Results.Compute.{
  ComputeSubject, ComputedSubject, ComputedStudent, SubjectStats, ComputeInput, compute_student,
  is_ranked, set_class_position, rank_students, subject_ranks, set_subject_position, rank_subject,
  totals_of, subject_round, subject_rounds, compute_results,
}

-- What ranking looks at, and what it gives.
abbrev Standing : Type 0
Standing = ℕ × ℕ × ℕ × Option ℕ

abbrev standing : ComputedStudent → Standing
standing s = (s.student_id, s.average, s.subject_count, s.position)

rank_subject-standing :
    (subject : ℕ) (ranks : List ((ℕ × ComputedSubject) × ℕ)) (computed : List ComputedStudent)
    → map standing (map (set_subject_position subject ranks) computed) ≡ map standing computed
rank_subject-standing subject ranks [] = refl
rank_subject-standing subject ranks (s ∷ computed) =
    ap (λ l. standing s ∷ l) (rank_subject-standing subject ranks computed)

subject_round-standing :
    (subject : ComputeSubject) (totals : List ℕ) (state : List ComputedStudent × List SubjectStats)
    → map standing (subject_round subject totals state).0 ≡ map standing state.0
unfolding rank_subject
subject_round-standing subject [] (computed, stats) = refl
subject_round-standing subject (t ∷ ts) (computed, stats) =
    rank_subject-standing subject.id (subject_ranks subject.id computed) computed

-- The rounds over the subjects change no standing.
subject_rounds-standing :
    (subjects : List ComputeSubject) (state : List ComputedStudent × List SubjectStats)
    → map standing (subject_rounds subjects state).0 ≡ map standing state.0
unfolding subject_rounds
subject_rounds-standing [] state = refl
subject_rounds-standing (s ∷ ss) state =
    subject_rounds-standing ss (subject_round s (totals_of s.id state.0) state)
    ∙ subject_round-standing s (totals_of s.id state.0) state

-- A ranked student with a higher average.
abbrev pub is_above : ℕ → ComputedStudent → Bool
is_above average t = is_ranked t && ltb average t.average

abbrev standing_above : ℕ → Standing → Bool
standing_above average (id, other, subject_count, position) =
    ltb 0 subject_count && ltb average other

-- Equal standings count alike.
count-standing :
    (average : ℕ) (xs : List ComputedStudent)
    → count (standing_above average) (map standing xs) ≡ count (is_above average) xs
count-standing average xs = count-map standing (standing_above average) xs

-- What a row of the result has for its place.
abbrev pub IsPlaced : List ComputedStudent → ComputedStudent → Type 0
IsPlaced students s =
    s.position ≡ (if is_ranked s then some (1 + count (is_above s.average) students) else none)

module _ (input : ComputeInput) where
  abbrev computed : List ComputedStudent
  computed = map (compute_student input) input.students

  -- One id has one computed row.
  computed_by_id :
      (x y : ComputedStudent)
      → Has x computed
      → Has y computed
      → x.student_id ≡ y.student_id
      → x ≡ y
  unfolding compute_student
  computed_by_id x y h k e =
      let (a, _, ea) = Has-of-map (compute_student input) input.students x h in
      let (b, _, eb) = Has-of-map (compute_student input) input.students y k in
      cc (
        ea,
        eb,
        ap (compute_student input) (
            sym (ap (λ (s : ComputedStudent). s.student_id) ea)
            ∙ e
            ∙ ap (λ (s : ComputedStudent). s.student_id) eb),
      )

  abbrev ranked : List ComputedStudent
  ranked = filter is_ranked computed

  abbrev ranks : List (ComputedStudent × ℕ)
  ranks = competition_rank (λ (s : ComputedStudent). s.average) ranked

  -- The rank that a ranked student looks up.
  rank_of-above :
      (x : ComputedStudent)
      → Has x computed
      → is_ranked x ≡ true
      → rank_of (λ (t : ComputedStudent). t.student_id) x.student_id ranks
        ≡ some (1 + count (is_above x.average) computed)
  rank_of-above x h t =
      let average = λ (s : ComputedStudent). s.average in
      let id = λ (s : ComputedStudent). s.student_id in
      let listed : Has x ranked = (Has-filter is_ranked computed x).1 (h, t) in
      let (r, placed) = competition_rank-Has average ranked x listed in
      let (y, q, there, same, found) = rank_of-Has id ranks x r placed in
      let y_listed = competition_rank-Has_item average ranked y q there in
      let y_computed = ((Has-filter is_ranked computed y).0 y_listed).0 in
      let equal : y ≡ x = computed_by_id y x y_computed h same in
      let counted : q ≡ 1 + above average x.average ranked =
        rw (← equal) (competition_rank-above average ranked y q there) in
      found
      ∙ ap some counted
      ∙ ap (λ (n : ℕ). some (1 + n))
          (count-filter is_ranked (λ y. ltb x.average y.average) computed)

  -- Setting the positions leaves what `is_above` reads.
  above-set_class_position :
      (average : ℕ) (xs : List ComputedStudent)
      → count (is_above average) (map (set_class_position ranks) xs) ≡ count (is_above average) xs
  above-set_class_position average [] = refl
  above-set_class_position average (x ∷ xs) = ground (arith, above-set_class_position average xs)

  computed_unplaced : (x : ComputedStudent) → Has x computed → x.position ≡ none
  unfolding compute_student
  computed_unplaced x h =
      let (a, _, e) = Has-of-map (compute_student input) input.students x h in
      ap (λ (s : ComputedStudent). s.position) e

  rank_students-IsPlaced :
      (s : ComputedStudent) → Has s (rank_students computed) → IsPlaced (rank_students computed) s
  unfolding rank_students
  rank_students-IsPlaced s h =
      let (x, listed, e) = Has-of-map (set_class_position ranks) computed s h in
      let placed = rank_of-above x listed in
      let same = above-set_class_position x.average computed in
      let unplaced = computed_unplaced x listed in
      elim (Bool-cases (is_ranked x)) [
        | inl yes_ranked ↦ rw e (ground (arith, placed yes_ranked, same, unplaced))
        | inr not_ranked ↦ rw e (ground (arith, same, unplaced))
      ]

-- Every row of the result has its place in the class: a student who takes a subject is placed one
-- below the number of ranked students with a strictly higher average, so that tied students share
-- a place, and a student who takes none has no place.
pub compute_results-IsPlaced :
    (input : ComputeInput) (s : ComputedStudent)
    → Has s (compute_results input).students
    → IsPlaced (compute_results input).students s
unfolding compute_results
compute_results-IsPlaced input s h =
    let ranked_rows = rank_students (map (compute_student input) input.students) in
    let rows = (subject_rounds input.subjects (ranked_rows, [])).0 in
    let same : map standing rows ≡ map standing ranked_rows =
      subject_rounds-standing input.subjects (ranked_rows, []) in
    let kept : Has (standing s) (map standing ranked_rows) =
      subst (Has (standing s)) same (Has-map standing rows s h) in
    let (t, listed, e) = Has-of-map standing ranked_rows (standing s) kept in
    let counted : count (is_above s.average) rows ≡ count (is_above s.average) ranked_rows =
      sym (count-standing s.average rows)
      ∙ ap (count (standing_above s.average)) same
      ∙ count-standing s.average ranked_rows in
    let placed = rank_students-IsPlaced input t listed in
    let average : s.average ≡ t.average = ap (λ (a : Standing). a.1) e in
    let subject_count : s.subject_count ≡ t.subject_count = ap (λ (a : Standing). a.2) e in
    let position : s.position ≡ t.position = ap (λ (a : Standing). a.3) e in
    ground (arith, placed, average, subject_count, position, counted)
