-- ===== src/Students/Csv/Scanning.antt =====
-- The loop of `parseCsv` in src/students/import/csv.ts over one field and one line of what
-- `toCsvField` has written.
use mathlib.Core.Path.{subst}
use edu_gear_back_end.Common.{
  ◌==◌, if◌then◌else◌, ==_iff, Bool-cases, any, ℕ, ◌+◌, ◌≡◌, refl, sym, ap, ◌∙◌, inl, inr, Bool,
  true, false, Option, List, [], ◌∷◌, ◌++◌, arith,
}
use edu_gear_back_end.Common.Text.{Text}
use edu_gear_back_end.Students.Csv.{
  CsvRecord, Reader, read, is_char, read_char, next_char, scan, is_special, double_quotes,
}

pub append-nil : {A : Type 0} (xs : List A) → xs ++ [] ≡ xs
append-nil [] = refl
append-nil (x ∷ xs) = ap (λ ys. x ∷ ys) (append-nil xs)

pub append_assoc : {A : Type 0} (xs ys zs : List A) → (xs ++ ys) ++ zs ≡ xs ++ (ys ++ zs)
append_assoc [] ys zs = refl
append_assoc (x ∷ xs) ys zs = ap (λ t. x ∷ t) (append_assoc xs ys zs)

undoubled : (c : ℕ) (t : Text) → (c == b'"') ≡ false → double_quotes (c ∷ t) ≡ c ∷ double_quotes t
undoubled c t other = rw other refl

-- A reader between two characters.
abbrev pub reader : List CsvRecord → Text → List Text → Bool → ℕ → ℕ → Bool → Reader
reader rs f fs q n m b = record {
  records = rs;
  field = f;
  fields = fs;
  in_quotes = q;
  line = n;
  record_line = m;
  field_started = b;
  skipping = false;
}

module _ (rs : List CsvRecord) (fs : List Text) (m : ℕ) where
  plain_char :
      (c : ℕ) (after : Option ℕ) (f : Text) (n : ℕ) (b : Bool)
      → is_special c ≡ false
      → read_char c after (reader rs f fs false n m b)
        ≡ read (reader rs (f ++ (c ∷ [])) fs false n m true)
  plain_char c after f n b plain =
      let quote : (c == b'"') ≡ false = ground (arith, plain) in
      let comma : (c == b',') ≡ false = ground (arith, plain) in
      let cr : (c == 13) ≡ false = ground (arith, plain) in
      let lf : (c == 10) ≡ false = ground (arith, plain) in rw (quote, comma, cr, lf) refl

  -- A quote that is doubled, and the end of the quotes.
  doubled :
      (s f : Text) (n : ℕ) (b : Bool)
      → scan (read (reader rs f fs true n m b)) (b'"' ∷ b'"' ∷ s)
        ≡ scan (read (reader rs (f ++ (b'"' ∷ [])) fs true n m b)) s
  unfolding scan
  doubled s f n b = refl

  closed :
      (rest f : Text) (n : ℕ) (b : Bool)
      → is_char b'"' (next_char rest) ≡ false
      → read_char b'"' (next_char rest) (reader rs f fs true n m b)
        ≡ read (reader rs f fs false n m b)
  closed rest f n b e = rw e refl

  quoted_char :
      (c : ℕ) (after : Option ℕ) (f : Text) (n : ℕ) (b : Bool)
      → (c == b'"') ≡ false
      → read_char c after (reader rs f fs true n m b)
        ≡ read (reader rs (f ++ (c ∷ [])) fs true (if c == 10 then n + 1 else n) m b)
  quoted_char c after f n b other = rw other refl

  pub scan_plain :
      (t rest f : Text) (n : ℕ) (b : Bool)
      → any is_special t ≡ false
      → (b' : Bool) × (scan (read (reader rs f fs false n m b)) (t ++ rest)
          ≡ scan (read (reader rs (f ++ t) fs false n m b')) rest)
  unfolding scan
  scan_plain [] rest f n b e =
      (b, ap (λ g. scan (read (reader rs g fs false n m b)) rest) (sym (append-nil f)))
  scan_plain (c ∷ t) rest f n b e = elim (Bool-cases (is_special c)) [
    | inl odd ↦ absurd (cc (rw odd at e))
    | inr plain ↦
        let (b', k) = scan_plain t rest (f ++ (c ∷ [])) n true (rw plain at e) in
        (
          b',
          ap (λ x. scan x (t ++ rest)) (plain_char c (next_char (t ++ rest)) f n b plain)
              ∙ k
              ∙ ap (λ g. scan (read (reader rs g fs false n m b')) rest)
                  (append_assoc f (c ∷ []) t),
        )
  ]

  pub scan_quoted :
      (t rest f : Text) (n : ℕ) (b : Bool)
      → is_char b'"' (next_char rest) ≡ false
      → (n' : ℕ) × (scan (read (reader rs f fs true n m b)) (double_quotes t ++ (b'"' ∷ rest))
          ≡ scan (read (reader rs (f ++ t) fs false n' m b)) rest)
  unfolding scan
  scan_quoted [] rest f n b e = (
    n,
    ap (λ x. scan x rest) (closed rest f n b e)
        ∙ ap (λ g. scan (read (reader rs g fs false n m b)) rest) (sym (append-nil f)),
  )
  scan_quoted (c ∷ t) rest f n b e = elim (Bool-cases (c == b'"')) [
    | inl quote ↦
        let (n', k) = scan_quoted t rest (f ++ (b'"' ∷ [])) n b e in
        let it : b'"' ≡ c = sym ((==_iff c b'"').0 quote) in
        subst
          (λ (d : ℕ).
            (n' : ℕ) × (scan (read (reader rs f fs true n m b))
                (double_quotes (d ∷ t) ++ (b'"' ∷ rest))
              ≡ scan (read (reader rs (f ++ (d ∷ t)) fs false n' m b)) rest))
          it
          (
            n',
            doubled (double_quotes t ++ (b'"' ∷ rest)) f n b
                ∙ k
                ∙ ap (λ g. scan (read (reader rs g fs false n' m b)) rest)
                    (append_assoc f (b'"' ∷ []) t),
          )
    | inr other ↦
        let line = if c == 10 then n + 1 else n in
        let (n', k) = scan_quoted t rest (f ++ (c ∷ [])) line b e in
        let tail = double_quotes t ++ (b'"' ∷ rest) in
        (
          n',
          ap (λ (u : Text). scan (read (reader rs f fs true n m b)) (u ++ (b'"' ∷ rest)))
                (undoubled c t other)
              ∙ ap (λ x. scan x tail) (quoted_char c (next_char tail) f n b other)
              ∙ k
              ∙ ap (λ g. scan (read (reader rs g fs false n' m b)) rest)
                  (append_assoc f (c ∷ []) t),
        )
  ]
