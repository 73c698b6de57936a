-- ===== src/Academics/Inserting.antt =====
-- The terms of the calendar after `create` of src/academics/terms.service.ts has written a new one.
use mathlib.Core.Path.{subst}
use edu_gear_back_end.Common.{
  if◌then◌else◌, Bool-cases, any, count, Has, All, suc, ◌≡◌, refl, ap, inl, inr, Bool, true, false,
  List, [], ◌∷◌, map,
}
use edu_gear_back_end.Common.Members.{count-map_same}
use edu_gear_back_end.Academics.Periods.{Term, is_current_term, when}
use edu_gear_back_end.Academics.Terms.{clear_terms}
use edu_gear_back_end.Academics.Marking.{cleared_terms}

pub count-any :
    {A : Type 0} (p q : A → Bool) (xs : List A)
    → ((x : A) → p x ≡ false → q x ≡ false)
    → any p xs ≡ false
    → count q xs ≡ 0
count-any p q [] misses e = refl
count-any p q (x ∷ xs) misses e = elim (Bool-cases (p x)) [
  | inl hit ↦ absurd (cc (rw hit at e))
  | inr miss ↦ rw (misses x miss) (count-any p q xs misses (rw miss at e))
]

-- Taking the markers away changes no other count.
pub when-cleared :
    (current : Bool) (p : Term → Bool) (ts : List Term)
    → ((t : Term) → p (record t { is_current = false }) ≡ p t)
    → count p (when current clear_terms ts) ≡ count p ts
when-cleared true p ts blind =
    count-map_same p (λ (t : Term). record t { is_current = false }) blind ts
when-cleared false p ts blind = refl

pub markers-insert_term :
    (current : Bool) (ts : List Term) (t : Term)
    → t.is_current ≡ current
    → count is_current_term (t ∷ when current clear_terms ts)
      ≡ (if current then 1 else count is_current_term ts)
markers-insert_term true ts t e = rw e (ap suc (cleared_terms ts))
markers-insert_term false ts t e = rw e refl

All-weaker :
    {A : Type 0} (P Q : A → Type 0) (xs : List A) → ((x : A) → P x → Q x) → All P xs → All Q xs
All-weaker P Q [] weaker hs = tt
All-weaker P Q (x ∷ xs) weaker (h, hs) = (weaker x h, All-weaker P Q xs weaker hs)

-- The other terms stay, without the marker if the new one takes it.
pub kept-insert_term :
    (current : Bool) (new : Term) (ts : List Term)
    → All
        (λ (t : Term).
          Has
            (record t { is_current = if current then false else t.is_current })
            (new ∷ when current clear_terms ts))
        ts
kept-insert_term current new ts = inserted current ts
  where
    each : (f : Term → Term) (xs : List Term) → All (λ (t : Term). Has (f t) (map f xs)) xs
    each f [] = tt
    each f (x ∷ xs) = (
      inl refl,
      All-weaker (λ (t : Term). Has (f t) (map f xs)) (λ (t : Term). Has (f t) (map f (x ∷ xs))) xs
          (λ t h. inr h) (each f xs),
    )

    same_rows : (xs : List Term) → map (λ (t : Term). t) xs ≡ xs
    same_rows [] = refl
    same_rows (x ∷ xs) = ap (λ ys. x ∷ ys) (same_rows xs)

    inserted :
        (b : Bool) (xs : List Term)
        → All
            (λ (t : Term).
              Has
                (record t { is_current = if b then false else t.is_current })
                (new ∷ when b clear_terms xs))
            xs
    inserted true xs =
        All-weaker (λ (t : Term). Has (record t { is_current = false }) (clear_terms xs))
          (λ (t : Term). Has (record t { is_current = false }) (new ∷ clear_terms xs)) xs
          (λ t h. inr h) (each (λ (t : Term). record t { is_current = false }) xs)
    inserted false xs =
        All-weaker (λ (t : Term). Has t xs) (λ (t : Term). Has t (new ∷ xs)) xs (λ t h. inr h)
          (subst (λ ys. All (λ (t : Term). Has t ys) xs) (same_rows xs) (each (λ (t : Term). t) xs))
