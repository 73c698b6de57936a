-- ===== src/Students/Csv.antt =====
-- src/students/import/csv.ts: reading and writing comma-separated values. The loop is a step on one
-- character and the one after it; `i++` in its body, which passes over the next character, sets
-- `skipping`. A parse error keeps its line; its text is left out.
pub mod Scanning
pub mod Lines
pub mod RoundTrip
use edu_gear_back_end.Common.{
  ◌==◌, if◌then◌else◌, filter, any, ℕ, ◌+◌, Bool, true, false, not, ◌&&◌, ◌||◌, Option, none, some,
  List, [], ◌∷◌, ◌++◌, map,
}
use edu_gear_back_end.Common.Text.{Text, text_eq, trim}

pub record CsvRecord : Type 0 where
  pub line : ℕ
  pub values : List Text

pub record ParsedCsv : Type 0 where
  pub headers : List Text
  pub rows : List CsvRecord

-- The variables of the loop.
pub record Reader : Type 0 where
  pub records : List CsvRecord
  pub field : Text
  pub fields : List Text
  pub in_quotes : Bool
  pub line : ℕ
  pub record_line : ℕ
  pub field_started : Bool
  pub skipping : Bool

-- A `CsvParseError` with its line, or a value.
pub data Read (A : Type 0) : Type 0 where
  csv_error : ℕ → Read A
  read : A → Read A

abbrev pub initial : Reader
initial = record {
  records = [];
  field = [];
  fields = [];
  in_quotes = false;
  line = 1;
  record_line = 1;
  field_started = false;
  skipping = false;
}

abbrev pub is_blank : Text → Bool
is_blank value = text_eq (trim value) []

-- `endField`
abbrev pub end_field : Reader → Reader
end_field r = record r { fields = r.fields ++ (r.field ∷ []); field = []; field_started = false }

-- `endRecord`
abbrev pub end_record : Reader → Reader
end_record r =
    let ended = end_field r in
    record ended {
      records = r.records ++ (record { line = r.record_line; values = ended.fields } ∷ []);
      fields = [];
    }

abbrev pub is_char : ℕ → Option ℕ → Bool
is_char c none = false
is_char c (some d) = d == c

-- The loop's body inside quotes.
abbrev pub quoted_step : ℕ → Option ℕ → Reader → Reader
quoted_step c after r =
    if c == b'"'
    then if is_char b'"' after
      then record r { field = r.field ++ (b'"' ∷ []); skipping = true }
      else record r { in_quotes = false }
    else record r { line = if c == 10 then r.line + 1 else r.line; field = r.field ++ (c ∷ []) }

abbrev pub next_line : Reader → Reader
next_line r = record r { line = r.line + 1; record_line = r.line + 1 }

-- The loop's body outside quotes.
abbrev pub plain_step : ℕ → Option ℕ → Reader → Read Reader
plain_step c after r =
    if c == b'"'
    then if r.field_started && not (is_blank r.field)
      then csv_error r.line
      else read (record r { field = []; in_quotes = true; field_started = true })
    else if c == b','
    then read (end_field r)
    else if c == 13 || c == 10
    then read (next_line (end_record (record r { skipping = c == 13 && is_char 10 after })))
    else read (record r { field = r.field ++ (c ∷ []); field_started = true })

abbrev pub read_char : ℕ → Option ℕ → Reader → Read Reader
read_char c after r =
    if r.skipping
    then read (record r { skipping = false })
    else if r.in_quotes
    then read (quoted_step c after r)
    else plain_step c after r

abbrev pub next_char : Text → Option ℕ
next_char [] = none
next_char (c ∷ s) = some c

-- The loop.
unfoldable pub scan : Read Reader → Text → Read Reader
scan (csv_error n) s = csv_error n
scan (read r) [] = read r
scan (read r) (c ∷ s) = scan (read_char c (next_char s) r) s

abbrev pub is_nil {ℓ} : {A : Type ℓ} → List A → Bool
is_nil [] = true
is_nil (x ∷ xs) = false

abbrev pub is_meaningful : CsvRecord → Bool
is_meaningful r = any (λ value. not (is_blank value)) r.values

abbrev pub with_header : List CsvRecord → Read ParsedCsv
with_header [] = csv_error 1
with_header (header ∷ rows) = read (record { headers = map trim header.values; rows = rows })

-- What follows the loop.
abbrev pub finish : Read Reader → Read ParsedCsv
finish (csv_error n) = csv_error n
finish (read r) =
    if r.in_quotes
    then csv_error r.record_line
    else with_header (
        filter is_meaningful (
          if not (is_nil r.field) || not (is_nil r.fields)
          then (end_record r).records
          else r.records))

abbrev pub without_mark : Text → Text
without_mark [] = []
without_mark (c ∷ s) = if c == 0xfeff then s else c ∷ s

-- `parseCsv`
unfoldable pub parse_csv : Text → Read ParsedCsv
unfolding scan
parse_csv input = finish (scan (read initial) (without_mark input))

-- `/[",\r\n]/`
abbrev pub is_special : ℕ → Bool
is_special c = c == b'"' || c == b',' || c == 13 || c == 10

-- `replace(/"/g, '""')`
abbrev pub double_quotes : Text → Text
double_quotes [] = []
double_quotes (c ∷ s) = if c == b'"' then c ∷ c ∷ double_quotes s else c ∷ double_quotes s

-- `toCsvField`
unfoldable pub to_csv_field : Text → Text
to_csv_field value =
    if any is_special value then b'"' ∷ (double_quotes value ++ (b'"' ∷ [])) else value

-- `join(',')`
abbrev pub join_fields : List Text → Text
join_fields [] = []
join_fields (field ∷ []) = field
join_fields (field ∷ next ∷ rest) = field ++ (b',' ∷ join_fields (next ∷ rest))

-- `buildTemplate`, the lines.
abbrev pub join_rows : List (List Text) → Text
join_rows [] = []
join_rows (row ∷ []) = join_fields (map to_csv_field row)
join_rows (row ∷ next ∷ rows) =
    join_fields (map to_csv_field row) ++ (13 ∷ 10 ∷ join_rows (next ∷ rows))
