-- ===== src/Students/Csv/RoundTrip.antt =====
-- What `parseCsv` of src/students/import/csv.ts reads of lines that `toCsvField` and `join` have
-- written, as in the template of src/students/import/import-columns.ts.
use mathlib.Core.Path.{subst}
use edu_gear_back_end.Students.Csv.Lines.{IsRead, scan_line}
use edu_gear_back_end.Common.{
  if◌then◌else◌, filter, any, All, ℕ, ◌+◌, ◌≡◌, refl, sym, ap, ◌∙◌, true, false, not, ◌||◌, List,
  [], ◌∷◌, ◌++◌, map,
}
use edu_gear_back_end.Common.Text.{Text, trim_start, trim}
use edu_gear_back_end.Students.Csv.{
  CsvRecord, ParsedCsv, Reader, read, initial, is_blank, end_field, end_record, is_char, next_char,
  scan, is_nil, is_meaningful, with_header, finish, without_mark, parse_csv, to_csv_field,
  join_fields, join_rows,
}
use edu_gear_back_end.Students.Csv.Scanning.{append-nil, append_assoc, reader}

abbrev pub values_of : List CsvRecord → List (List Text)
values_of = map (λ (r : CsvRecord). r.values)

-- A line with a value that is not blank.
abbrev pub IsMeaningful : List Text → Type 0
IsMeaningful values = any (λ value. not (is_blank value)) values ≡ true

abbrev all_records : Reader → List CsvRecord
all_records r =
    if not (is_nil r.field) || not (is_nil r.fields) then (end_record r).records else r.records

-- The end of a line, before the next one.
line_ended :
    (r : Reader) (s : Text)
    → r.in_quotes ≡ false
    → r.skipping ≡ false
    → scan (read r) (13 ∷ 10 ∷ s)
      ≡ scan (read (reader (end_record r).records [] [] false (r.line + 1) (r.line + 1) false)) s
unfolding scan
line_ended r s closed steady = rw (steady, closed) refl

values_of-append :
    (rs : List CsvRecord) (r : CsvRecord)
    → values_of (rs ++ (r ∷ [])) ≡ values_of rs ++ (r.values ∷ [])
values_of-append [] r = refl
values_of-append (x ∷ rs) r = ap (λ t. x.values ∷ t) (values_of-append rs r)

blank : ¬ IsMeaningful ([] ∷ [])
unfolding trim trim_start
blank e = cc e

-- A meaningful line leaves something to record.
recorded :
    (r : Reader) (values : List Text)
    → r.fields ++ (r.field ∷ []) ≡ values
    → IsMeaningful values
    → all_records r ≡ (end_record r).records
recorded r values e h = by_fields r.field r.fields refl refl
  where
    by_fields :
        (f : Text) (fs : List Text)
        → r.field ≡ f
        → r.fields ≡ fs
        → all_records r ≡ (end_record r).records
    by_fields (c ∷ f) fs same_field same_fields = rw same_field refl
    by_fields [] (g ∷ fs) same_field same_fields = rw (same_field, same_fields) refl
    by_fields [] [] same_field same_fields =
        let nothing_read : values ≡ [] ∷ [] =
          sym e ∙ ap (λ fs. fs ++ (r.field ∷ [])) same_fields ∙ ap (λ f. f ∷ []) same_field in
        absurd (blank (subst IsMeaningful nothing_read h))

read_values :
    (rs : List CsvRecord) (m : ℕ) (row : List Text) (r : Reader)
    → IsRead rs m row r
    → values_of (end_record r).records ≡ values_of rs ++ (row ∷ [])
read_values rs m row r done =
    values_of-append r.records (record { line = r.record_line; values = (end_field r).fields })
    ∙ ap (λ (x : List CsvRecord). values_of x ++ ((end_field r).fields ∷ [])) done.records
    ∙ ap (λ (v : List Text). values_of rs ++ (v ∷ [])) done.all_fields

ended : (r : Reader) → scan (read r) [] ≡ read r
unfolding scan
ended r = refl

-- The reader after all lines.
record IsAllRead (text : Text) (rs : List CsvRecord) (n : ℕ) (rows : List (List Text))
    : Type 0 where
  reader_at : Reader
  scanned : scan (read (reader rs [] [] false n n false)) text ≡ read reader_at
  closed : reader_at.in_quotes ≡ false
  all_rows : values_of (all_records reader_at) ≡ values_of rs ++ rows

scan_rows :
    (rows : List (List Text)) (row : List Text) (rs : List CsvRecord) (n : ℕ)
    → IsMeaningful row
    → All IsMeaningful rows
    → IsAllRead (join_rows (row ∷ rows)) rs n (row ∷ rows)
scan_rows rows [] rs n h hs = absurd (cc h)
scan_rows [] (value ∷ values) rs n h hs =
    let (r, k, done, own) = scan_line rs n values [] value [] n refl in
    record {
      reader_at = r;
      scanned =
          ap (scan (read (reader rs [] [] false n n false)))
            (sym (append-nil (join_fields (map to_csv_field (value ∷ values)))))
          ∙ k
          ∙ ended r;
      closed = done.closed;
      all_rows =
          ap values_of (recorded r (value ∷ values) done.all_fields h)
          ∙ read_values rs n (value ∷ values) r done;
    }
scan_rows (next ∷ rows) (value ∷ values) rs n h (h', hs) =
    let others = join_rows (next ∷ rows) in
    let (r, k, done, own) = scan_line rs n values [] value (13 ∷ 10 ∷ others) n refl in
    let rest = scan_rows rows next (end_record r).records (r.line + 1) h' hs in
    record {
      reader_at = rest.reader_at;
      scanned = k ∙ line_ended r others done.closed done.steady ∙ rest.scanned;
      closed = rest.closed;
      all_rows =
          rest.all_rows
          ∙ ap (λ (x : List (List Text)). x ++ (next ∷ rows))
              (read_values rs n (value ∷ values) r done)
          ∙ append_assoc (values_of rs) ((value ∷ values) ∷ []) (next ∷ rows);
    }

keeps_All : (rs : List CsvRecord) → All IsMeaningful (values_of rs) → filter is_meaningful rs ≡ rs
keeps_All [] hs = refl
keeps_All (r ∷ rs) (h, hs) = rw h (ap (λ t. r ∷ t) (keeps_All rs hs))

unmarked_text : (t : Text) → is_char 0xfeff (next_char t) ≡ false → without_mark t ≡ t
unmarked_text [] e = refl
unmarked_text (c ∷ t) e = rw e refl

finished :
    (r : Reader)
    → r.in_quotes ≡ false
    → finish (read r) ≡ with_header (filter is_meaningful (all_records r))
finished r closed = rw closed refl

-- A file of the lines that a header and rows give, each with a value that is not blank, is read back:
-- the headers are the header's values, trimmed, and the rows have the same values, whatever commas,
-- quotes and line breaks stand in them, unless the file starts with a byte-order mark.
pub parse_csv-join_rows :
    (header : List Text) (rows : List (List Text))
    → IsMeaningful header
    → All IsMeaningful rows
    → is_char 0xfeff (next_char (join_rows (header ∷ rows))) ≡ false
    → (p : ParsedCsv) × (parse_csv (join_rows (header ∷ rows)) ≡ read p)
      × (p.headers ≡ map trim header)
      × (values_of p.rows ≡ rows)
unfolding parse_csv
parse_csv-join_rows header rows h hs unmarked =
    let k = scan_rows rows header [] 1 h hs in
    let records = all_records k.reader_at in
    let kept = keeps_All records (subst (All IsMeaningful) (sym k.all_rows) (h, hs)) in
    by_records records k.all_rows (
      ap (λ t. finish (scan (read initial) t)) (unmarked_text (join_rows (header ∷ rows)) unmarked)
      ∙ ap finish k.scanned
      ∙ finished k.reader_at k.closed
      ∙ ap with_header kept)
  where
    by_records :
        (x : List CsvRecord)
        → values_of x ≡ header ∷ rows
        → parse_csv (join_rows (header ∷ rows)) ≡ with_header x
        → (p : ParsedCsv) × (parse_csv (join_rows (header ∷ rows)) ≡ read p)
          × (p.headers ≡ map trim header)
          × (values_of p.rows ≡ rows)
    by_records [] e parsed = absurd (cc e)
    by_records (x ∷ xs) e parsed =
        let same : x.values ≡ header = cc e in
        (record { headers = map trim x.values; rows = xs }, parsed, ap (map trim) same, cc e)
