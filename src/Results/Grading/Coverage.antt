-- ===== src/Results/Grading/Coverage.antt =====
-- `validateGradeBands` and `gradeFor` of src/results/grading.ts together.
use mathlib.Core.Path.{subst}
use edu_gear_back_end.Common.{
  ltb, leb, ◌==◌, if◌then◌else◌, Bool-cases, find, Has, All, ℕ, ◌+◌, ◌-◌, ◌/◌, ◌≤◌, ◌<◌, ◌≡◌, refl,
  sym, inl, inr, Bool, true, false, not, some, List, [], ◌∷◌, ◌++◌, arith,
}
use edu_gear_back_end.Common.Sorting.{sort, Has-sort}
use edu_gear_back_end.Common.Text.{Text, includes_text, trim, to_upper_case}
use edu_gear_back_end.Results.Grading.{
  GradeBand, Problem, duplicate, inverted, overlap, uncovered, push_if, band_problems, gap_problems,
  last_band, top_problems, range_problems, by_min_score, unless_any, validate_grade_bands, covers,
  grade_for,
}

abbrev IsUpright : GradeBand → Type 0
IsUpright b = b.min_score ≤ b.max_score

-- Each band begins where the one before it ends, and the last ends at 100.
abbrev Chain : GradeBand → List GradeBand → Type 0
Chain b [] = b.max_score ≡ 100
Chain b (c ∷ cs) = (c.min_score ≡ b.max_score + 1) × Chain c cs

append-eq-nil : (xs ys : List Problem) → xs ++ ys ≡ [] → (xs ≡ []) × (ys ≡ [])
append-eq-nil [] ys h = (refl, h)
append-eq-nil (x ∷ xs) ys h = cc

push_if-eq-nil : (b : Bool) (p : Problem) → push_if b p ≡ [] → b ≡ false
push_if-eq-nil true p h = cc
push_if-eq-nil false p h = refl

band_problems-IsUpright :
    (seen : List Text) (bands : List GradeBand)
    → band_problems seen bands ≡ []
    → All IsUpright bands
unfolding band_problems
band_problems-IsUpright seen [] h = tt
band_problems-IsUpright seen (b ∷ bs) h =
    let key = to_upper_case (trim b.grade) in
    let once = push_if (includes_text key seen) (duplicate b.grade) in
    let upright = push_if (ltb b.max_score b.min_score) (inverted b.grade) in
    let later = band_problems (key ∷ seen) bs in
    let (_, rest) = append-eq-nil once (upright ++ later) h in
    let (here, there) = append-eq-nil upright later rest in
    (
      ground (arith, push_if-eq-nil (ltb b.max_score b.min_score) (inverted b.grade) here),
      band_problems-IsUpright (key ∷ seen) bs there,
    )

abbrev gap_here : GradeBand → GradeBand → List Problem
gap_here previous current =
    if leb current.min_score previous.max_score
    then overlap previous.grade current.grade ∷ []
    else push_if (ltb (previous.max_score + 1) current.min_score)
        (uncovered (previous.max_score + 1) (current.min_score - 1))

gap_here-eq-nil : (b c : GradeBand) → gap_here b c ≡ [] → c.min_score ≡ b.max_score + 1
gap_here-eq-nil b c h = ground arith

gap_problems-Chain :
    (b : GradeBand) (bs : List GradeBand)
    → gap_problems b bs ≡ []
    → top_problems (last_band b bs).max_score ≡ []
    → Chain b bs
unfolding gap_problems
gap_problems-Chain b [] h t = ground arith
gap_problems-Chain b (c ∷ cs) h t =
    let (here, later) = append-eq-nil (gap_here b c) (gap_problems c cs) h in
    (gap_here-eq-nil b c here, gap_problems-Chain c cs later t)

All-Has : (P : GradeBand → Type 0) (b : GradeBand) (bs : List GradeBand) → All P bs → Has b bs → P b
All-Has P b [] a h = elim h [ ]
All-Has P b (c ∷ cs) (p, a) (inl e) = subst P (sym e) p
All-Has P b (c ∷ cs) (p, a) (inr h) = All-Has P b cs a h

All-of_Has :
    (P : GradeBand → Type 0) (bs : List GradeBand) → ((b : GradeBand) → Has b bs → P b) → All P bs
All-of_Has P [] f = tt
All-of_Has P (b ∷ bs) f = (f b (inl refl), All-of_Has P bs (λ c h. f c (inr h)))

-- In a chain, whatever follows a band begins above its end.
Chain-above :
    (b : GradeBand) (bs : List GradeBand) (c : GradeBand)
    → Chain b bs
    → All IsUpright bs
    → Has c bs
    → b.max_score < c.min_score
Chain-above b [] c k u h = elim h [ ]
Chain-above b (d ∷ ds) c k u (inl e) = ground arith
Chain-above b (d ∷ ds) c k u (inr h) = omega (arith, Chain-above d ds c k.1 u.1 h, k.0, u.0)

Chain-covers :
    (b : GradeBand) (bs : List GradeBand) (whole : ℕ)
    → Chain b bs
    → b.min_score ≤ whole
    → whole ≤ 100
    → (c : GradeBand) × Has c (b ∷ bs) × (covers whole c ≡ true)
Chain-covers b [] w k low high = (b, inl refl, ground arith)
Chain-covers b (c ∷ cs) w k low high = elim (Bool-cases (leb w b.max_score)) [
  | inl le ↦ (b, inl refl, ground arith)
  | inr gt ↦ let (d, h, cov) = Chain-covers c cs w k.1 (ground arith) high in (d, inr h, cov)
]

Chain-unique :
    (b : GradeBand) (bs : List GradeBand) (c d : GradeBand) (whole : ℕ)
    → Chain b bs
    → All IsUpright (b ∷ bs)
    → Has c (b ∷ bs)
    → Has d (b ∷ bs)
    → covers whole c ≡ true
    → covers whole d ≡ true
    → c ≡ d
Chain-unique b bs c d w k u (inl e) (inl e') hc hd = cc
Chain-unique b bs c d w k u (inl e) (inr h) hc hd =
    absurd (ground (arith, Chain-above b bs d k u.1 h))
Chain-unique b bs c d w k u (inr h) (inl e) hc hd =
    absurd (ground (arith, Chain-above b bs c k u.1 h))
Chain-unique b (x ∷ bs) c d w k u (inr h) (inr h') hc hd =
    Chain-unique x bs c d w k.1 u.1 h h' hc hd
Chain-unique b [] c d w k u (inr h) (inr h') hc hd = elim h [ ]

find-Has :
    (p : GradeBand → Bool) (bs : List GradeBand) (b : GradeBand)
    → Has b bs
    → p b ≡ true
    → (c : GradeBand) × (find p bs ≡ some c) × Has c bs × (p c ≡ true)
find-Has p [] b h t = elim h [ ]
find-Has p (c ∷ cs) b (inl e) t = (c, rw (← e) (rw t), inl refl, rw (← e) t)
find-Has p (c ∷ cs) b (inr h) t = elim (Bool-cases (p c)) [
  | inl here ↦ (c, rw here, inl refl, here)
  | inr other ↦
      let (d, found, listed, good) = find-Has p cs b h t in (d, rw other found, inr listed, good)
]

-- What the sorted bands of a scale without problems satisfy.
record IsScale (b : GradeBand) (bs : List GradeBand) : Type 0 where
  bottom : b.min_score ≡ 0
  chain : Chain b bs
  upright : All IsUpright (b ∷ bs)

range_problems-IsScale :
    (b : GradeBand) (bs : List GradeBand)
    → range_problems (b ∷ bs) ≡ []
    → All IsUpright (b ∷ bs)
    → IsScale b bs
unfolding range_problems
range_problems-IsScale b bs h u =
    let low = push_if (not (b.min_score == 0)) (uncovered 0 (b.min_score - 1)) in
    let gaps = gap_problems b bs in
    let top = top_problems (last_band b bs).max_score in
    let (no_low, rest) = append-eq-nil low (gaps ++ top) h in
    let (no_gaps, no_top) = append-eq-nil gaps top rest in
    record {
      bottom =
          ground
            (arith, push_if-eq-nil (not (b.min_score == 0)) (uncovered 0 (b.min_score - 1)) no_low);
      chain = gap_problems-Chain b bs no_gaps no_top;
      upright = u;
    }

unless_any-eq-nil :
    (first later : List Problem) → unless_any first later ≡ [] → (first ≡ []) × (later ≡ [])
unless_any-eq-nil [] later h = (refl, h)
unless_any-eq-nil (p ∷ ps) later h = cc

-- The bands of a scale that `validate_grade_bands` accepts, once sorted.
accepted-IsScale :
    (bands : List GradeBand)
    → validate_grade_bands bands ≡ []
    → (b : GradeBand) × (bs : List GradeBand) × (sort by_min_score bands ≡ b ∷ bs) × IsScale b bs
unfolding validate_grade_bands
accepted-IsScale [] h = cc
accepted-IsScale (a ∷ as') h =
    let bands = a ∷ as' in
    let (each, range) = unless_any-eq-nil _ _ h in
    let upright = band_problems-IsUpright [] bands each in
    let sorted =
      All-of_Has IsUpright (sort by_min_score bands)
        (λ b k. All-Has IsUpright b bands upright ((Has-sort by_min_score b bands).0 k)) in
    nonempty (sort by_min_score bands) ((Has-sort by_min_score a bands).1 (inl refl)) range sorted
  where
    nonempty :
        (l : List GradeBand)
        → Has a l
        → range_problems l ≡ []
        → All IsUpright l
        → (b : GradeBand) × (bs : List GradeBand) × (l ≡ b ∷ bs) × IsScale b bs
    nonempty [] k r u = elim k [ ]
    nonempty (b ∷ bs) k r u = (b, bs, refl, range_problems-IsScale b bs r u)

-- The band that grades a total: it is one of the scale's, it covers the whole marks of the total,
-- and no other band of the scale does.
pub record IsGradeOf (bands : List GradeBand) (total : ℕ) (band : GradeBand) : Type 0 where
  pub found : grade_for total bands ≡ some band
  pub listed : Has band bands
  pub covered : covers (total / 100) band ≡ true
  pub unique :
      (other : GradeBand) → Has other bands → covers (total / 100) other ≡ true → other ≡ band

-- On a scale that validation accepts, every total of at most 100 whole marks has a grade, and
-- exactly one band of the scale covers it.
pub grade_for-IsGradeOf :
    (bands : List GradeBand) (total : ℕ)
    → validate_grade_bands bands ≡ []
    → total / 100 ≤ 100
    → (band : GradeBand) × IsGradeOf bands total band
unfolding grade_for
grade_for-IsGradeOf bands total valid high =
    let (b, bs, e, scale) = accepted-IsScale bands valid in
    let low : b.min_score ≤ total / 100 = rw scale.bottom (omega arith) in
    let (c, h, cov) = Chain-covers b bs (total / 100) scale.chain low high in
    let listed : Has c bands = (Has-sort by_min_score c bands).0 (rw e h) in
    let (d, found, there, good) = find-Has (covers (total / 100)) bands c listed cov in
    let sorted : ((x : GradeBand) → Has x bands → Has x (b ∷ bs)) =
      λ x k. rw e at ((Has-sort by_min_score x bands).1 k) in
    (
      d,
      record {
        found = found;
        listed = there;
        covered = good;
        unique = λ x k t.
            Chain-unique b bs x d (total / 100) scale.chain scale.upright (sorted x k)
              (sorted d there) t good;
      },
    )
