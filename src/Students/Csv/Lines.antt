-- ===== src/Students/Csv/Lines.antt =====
-- The loop of `parseCsv` in src/students/import/csv.ts over one line that `toCsvField` and `join` have
-- written.
use mathlib.Core.Path.{subst}
use edu_gear_back_end.Common.{
  Bool-cases, any, ℕ, ◌≡◌, refl, ap, ◌∙◌, inl, inr, Bool, true, false, List, [], ◌∷◌, ◌++◌, map,
}
use edu_gear_back_end.Common.Text.{Text}
use edu_gear_back_end.Students.Csv.{
  CsvRecord, Reader, read, is_char, next_char, scan, is_special, double_quotes, to_csv_field,
  join_fields,
}
use edu_gear_back_end.Students.Csv.Scanning.{append_assoc, reader, scan_plain, scan_quoted}

-- A reader that has read all fields of a line, the last one still open.
pub record IsRead (rs : List CsvRecord) (m : ℕ) (values : List Text) (r : Reader) : Type 0 where
  pub records : r.records ≡ rs
  pub all_fields : r.fields ++ (r.field ∷ []) ≡ values
  pub closed : r.in_quotes ≡ false
  pub steady : r.skipping ≡ false

module _ (rs : List CsvRecord) (m : ℕ) where
  scan_field :
      (fs : List Text) (value rest : Text) (n : ℕ)
      → is_char b'"' (next_char rest) ≡ false
      → (n' : ℕ) × (b' : Bool) × (scan
            (read (reader rs [] fs false n m false))
            (to_csv_field value ++ rest)
          ≡ scan (read (reader rs value fs false n' m b')) rest)
  unfolding to_csv_field scan
  scan_field fs value rest n e = elim (Bool-cases (any is_special value)) [
    | inr plain ↦
        let (b', k) = scan_plain rs fs m value rest [] n false plain in
        (
          n,
          b',
          ap (λ (u : Text). scan (read (reader rs [] fs false n m false)) (u ++ rest))
                (unquoted value plain)
              ∙ k,
        )
    | inl special ↦
        let (n', k) = scan_quoted rs fs m value rest [] n true e in
        (
          n',
          true,
          ap (λ (u : Text). scan (read (reader rs [] fs false n m false)) (u ++ rest))
                (quoted value special)
              ∙ opened value rest n fs
              ∙ k,
        )
  ]
    where
      unquoted : (v : Text) → any is_special v ≡ false → to_csv_field v ≡ v
      unquoted v plain = rw plain refl

      quoted :
          (v : Text)
          → any is_special v ≡ true
          → to_csv_field v ≡ b'"' ∷ (double_quotes v ++ (b'"' ∷ []))
      quoted v special = rw special refl

      opened :
          (v rest : Text) (n : ℕ) (fs : List Text)
          → scan
              (read (reader rs [] fs false n m false))
              ((b'"' ∷ (double_quotes v ++ (b'"' ∷ []))) ++ rest)
            ≡ scan (read (reader rs [] fs true n m true)) (double_quotes v ++ (b'"' ∷ rest))
      opened v rest n fs =
          ap (scan (read (reader rs [] fs true n m true)))
            (append_assoc (double_quotes v) (b'"' ∷ []) rest)

  comma :
      (fs : List Text) (value rest : Text) (n : ℕ) (b : Bool)
      → scan (read (reader rs value fs false n m b)) (b',' ∷ rest)
        ≡ scan (read (reader rs [] (fs ++ (value ∷ [])) false n m false)) rest
  unfolding scan
  comma fs value rest n b = refl

  pub scan_line :
      (values fs : List Text) (value rest : Text) (n : ℕ)
      → is_char b'"' (next_char rest) ≡ false
      → (r : Reader) × (scan
            (read (reader rs [] fs false n m false))
            (join_fields (map to_csv_field (value ∷ values)) ++ rest)
          ≡ scan (read r) rest)
        × IsRead rs m (fs ++ (value ∷ values)) r
        × (r.record_line ≡ m)
  scan_line [] fs value rest n e =
      let (n', b', k) = scan_field fs value rest n e in
      (
        reader rs value fs false n' m b',
        k,
        record { records = refl; all_fields = refl; closed = refl; steady = refl },
        refl,
      )
  scan_line (next ∷ values) fs value rest n e =
      let others = join_fields (map to_csv_field (next ∷ values)) in
      let (n', b', k) = scan_field fs value (b',' ∷ (others ++ rest)) n refl in
      let (r, k', done, own) = scan_line values (fs ++ (value ∷ [])) next rest n' e in
      (
        r,
        ap (scan (read (reader rs [] fs false n m false)))
              (append_assoc (to_csv_field value) (b',' ∷ others) rest)
            ∙ k
            ∙ comma fs value (others ++ rest) n' b'
            ∙ k',
        subst (λ (vs : List Text). IsRead rs m vs r) (append_assoc fs (value ∷ []) (next ∷ values))
            done,
        own,
      )
