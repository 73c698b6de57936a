-- ===== src/Results/Compute.antt =====
-- src/results/compute-results.ts: a class arm's term results from raw scores.
mod Types
pub mod Missing
pub mod Positions
pub mod Grades
pub use Types.*
use mathlib.Core.Option
use edu_gear_back_end.Common.{
  ltb, ◌==◌, if◌then◌else◌, or_else, is_none, length, filter, all, any, sum_by, ℕ, ◌+◌, ◌*◌, ◌/◌,
  max, min, Bool, true, false, ◌&&◌, ◌||◌, Option, none, some, List, [], ◌∷◌, ◌++◌, map,
}
use edu_gear_back_end.Results.Grading.{grade_for}
use edu_gear_back_end.Results.Ranking.{competition_rank, rank_of}

-- `scoreOf.get(key)`: the last score that was set for the key.
unfoldable pub score_of : List ComputeScore → ℕ → ℕ → ℕ → Option ℕ
score_of [] student subject component = none
score_of (s ∷ scores) student subject component =
    let here = s.student_id == student && s.subject_id == subject && s.component_id == component in
    elim (score_of scores student subject component) [
      | some later ↦ some later
      | none ↦ if here then some s.score else none
    ]

-- `touched.has(key)`
unfoldable pub touched : List ComputeScore → ℕ → ℕ → Bool
touched scores student subject =
    any (λ s. s.student_id == student && s.subject_id == subject) scores

-- `sum.div(n).toDecimalPlaces(2, ROUND_HALF_UP)`
unfoldable pub mean : ℕ → ℕ → ℕ
mean sum n = (2 * sum + n) / (2 * n)

unfoldable pub taken_subjects : ComputeInput → ℕ → List ComputeSubject
unfolding touched
taken_subjects input student =
    filter (λ subject. subject.compulsory || touched input.scores student subject.id) input.subjects

unfoldable pub component_scores :
    List ComputeScore → List ComputeComponent → ℕ → ℕ → List ComputedComponentScore
unfolding score_of
component_scores scores components student subject =
    map
      (λ component. record {
        component_id = component.id;
        name = component.name;
        max_score = component.max_score;
        score = score_of scores student subject component.id;
      })
      components

abbrev pub absent : List ComputedComponentScore → List ComputedComponentScore
absent = filter (λ part. is_none part.score)

abbrev pub is_empty {ℓ} : {A : Type ℓ} → List A → Bool
is_empty [] = true
is_empty (x ∷ xs) = false

unfoldable pub compute_subject : ComputeInput → ℕ → ComputeSubject → ComputedSubject
unfolding component_scores grade_for
compute_subject input student subject =
    let parts = component_scores input.scores input.components student subject.id in
    let total = sum_by (λ part. or_else part.score 0) parts in
    let band = grade_for total input.bands in
    record {
      subject_id = subject.id;
      subject_name = subject.name;
      components = parts;
      total = total;
      grade = Option.map (λ b. b.grade) band;
      remark = Option.map (λ b. b.remark) band;
      is_pass = or_else (Option.map (λ b. b.is_pass) band) false;
      position = 0;
      complete = is_empty (absent parts);
    }

unfoldable pub compute_student : ComputeInput → ℕ → ComputedStudent
unfolding compute_subject taken_subjects mean
compute_student input student =
    let results = map (compute_subject input student) (taken_subjects input student) in
    let total = sum_by (λ subject. subject.total) results in
    record {
      student_id = student;
      subjects = results;
      total = total;
      average = if is_empty results then 0 else mean total (length results);
      subject_count = length results;
      position = none;
      complete = all (λ subject. subject.complete) results;
    }

-- The entries that the loop over a student's subjects pushes onto `missing`.
unfoldable pub missing_of : ComputeInput → ℕ → List ComputeSubject → List MissingScores
unfolding component_scores
missing_of input student [] = []
missing_of input student (subject ∷ subjects) =
    let gaps = absent (component_scores input.scores input.components student subject.id) in
    let rest = missing_of input student subjects in
    if is_empty gaps
    then rest
    else record {
      student_id = student;
      subject_id = subject.id;
      component_ids = map (λ part. part.component_id) gaps;
    }
      ∷ rest

unfoldable pub all_missing : ComputeInput → List ℕ → List MissingScores
unfolding missing_of taken_subjects
all_missing input [] = []
all_missing input (student ∷ students) =
    missing_of input student (taken_subjects input student) ++ all_missing input students

abbrev pub is_ranked : ComputedStudent → Bool
is_ranked student = ltb 0 student.subject_count

-- `student.position = classRanks.get(student) ?? null`, for a ranked student.
abbrev pub set_class_position : List (ComputedStudent × ℕ) → ComputedStudent → ComputedStudent
set_class_position ranks s =
    if is_ranked s
    then record s { position = rank_of (λ (t : ComputedStudent). t.student_id) s.student_id ranks }
    else s

unfoldable pub rank_students : List ComputedStudent → List ComputedStudent
unfolding competition_rank rank_of
rank_students computed =
    let ranks = competition_rank (λ (s : ComputedStudent). s.average) (filter is_ranked computed) in
    map (set_class_position ranks) computed

-- `computed.flatMap(...)`: the results in one subject, each with the student who owns it.
unfoldable pub entries_of : ℕ → List ComputedStudent → List (ℕ × ComputedSubject)
entries_of subject [] = []
entries_of subject (s ∷ computed) =
    map (λ r. (s.student_id, r)) (filter (λ r. r.subject_id == subject) s.subjects)
    ++ entries_of subject computed

-- The ranks of one subject's entries, keyed by the student.
unfoldable pub subject_ranks : ℕ → List ComputedStudent → List ((ℕ × ComputedSubject) × ℕ)
unfolding entries_of competition_rank
subject_ranks subject computed =
    competition_rank (λ (e : ℕ × ComputedSubject). e.1.total) (entries_of subject computed)

-- `entry.position = ranks.get(entry) ?? 0`, for the results in the subject.
abbrev pub set_position : ℕ → Option ℕ → ComputedSubject → ComputedSubject
set_position subject rank r =
    if r.subject_id == subject then record r { position = or_else rank 0 } else r

abbrev pub set_subject_position :
    ℕ → List ((ℕ × ComputedSubject) × ℕ) → ComputedStudent → ComputedStudent
set_subject_position subject ranks s = record s {
  subjects =
      map (set_position subject (rank_of (λ (e : ℕ × ComputedSubject). e.0) s.student_id ranks))
        s.subjects;
}

unfoldable pub rank_subject : ℕ → List ComputedStudent → List ComputedStudent
unfolding subject_ranks rank_of
rank_subject subject computed =
    map (set_subject_position subject (subject_ranks subject computed)) computed

abbrev pub maximum : ℕ → List ℕ → ℕ
maximum m [] = m
maximum m (x ∷ xs) = maximum (max m x) xs

abbrev pub minimum : ℕ → List ℕ → ℕ
minimum m [] = m
minimum m (x ∷ xs) = minimum (min m x) xs

-- The statistics of one subject from the totals of its entries.
unfoldable pub stats_of : ComputeSubject → ℕ → List ℕ → SubjectStats
unfolding mean
stats_of subject total totals = record {
  subject_id = subject.id;
  subject_name = subject.name;
  highest = maximum total totals;
  lowest = minimum total totals;
  average = mean (sum_by (λ t. t) (total ∷ totals)) (length (total ∷ totals));
  student_count = length (total ∷ totals);
}

abbrev pub totals_of : ℕ → List ComputedStudent → List ℕ
totals_of subject computed = map (λ e. e.1.total) (entries_of subject computed)

-- One round of the loop over the subjects; no entries, no round.
abbrev pub subject_round :
    ComputeSubject
    → List ℕ
    → List ComputedStudent × List SubjectStats
    → List ComputedStudent × List SubjectStats
subject_round subject [] (computed, stats) = (computed, stats)
subject_round subject (t ∷ ts) (computed, stats) =
    (rank_subject subject.id computed, stats ++ stats_of subject t ts ∷ [])

unfoldable pub subject_rounds :
    List ComputeSubject
    → List ComputedStudent × List SubjectStats
    → List ComputedStudent × List SubjectStats
unfolding rank_subject stats_of entries_of
subject_rounds [] state = state
subject_rounds (subject ∷ subjects) state =
    subject_rounds subjects (subject_round subject (totals_of subject.id state.0) state)

unfoldable pub compute_results : ComputeInput → ComputeResult
unfolding compute_student all_missing rank_students subject_rounds
compute_results input =
    let computed = map (compute_student input) input.students in
    let (students, stats) = subject_rounds input.subjects (rank_students computed, []) in
    record {
      students = students;
      subject_stats = stats;
      missing = all_missing input input.students;
      ranked_count = length (filter is_ranked computed);
    }
