-- ===== src/Students/Tests.antt =====
-- A small file of an import, with a comma, a quote and a line break in its fields.
use edu_gear_back_end.Common.{◌≡◌, refl, false, List, [], ◌∷◌, map}
use edu_gear_back_end.Common.Text.{Text, codes, trim}
use edu_gear_back_end.Students.Csv.{
  ParsedCsv, read, is_char, next_char, parse_csv, to_csv_field, join_rows,
}
use edu_gear_back_end.Students.Csv.RoundTrip.{values_of, IsMeaningful, parse_csv-join_rows}

abbrev header : List Text
header = codes "First name" ∷ codes "Notes" ∷ []

abbrev pupil : List Text
pupil = codes "Obi, Ada" ∷ (b'"' ∷ 13 ∷ 10 ∷ b'x' ∷ []) ∷ []

abbrev file : Text
file = join_rows (header ∷ pupil ∷ [])

header-IsMeaningful : IsMeaningful header
unfolding trim
header-IsMeaningful = refl

pupil-IsMeaningful : IsMeaningful pupil
unfolding trim
pupil-IsMeaningful = refl

file_unmarked : is_char 0xfeff (next_char file) ≡ false
unfolding to_csv_field
file_unmarked = refl

parse_csv-join_rows_example :
    (p : ParsedCsv) × (parse_csv file ≡ read p)
    × (p.headers ≡ map trim header)
    × (values_of p.rows ≡ pupil ∷ [])
parse_csv-join_rows_example =
    parse_csv-join_rows header (pupil ∷ []) header-IsMeaningful (pupil-IsMeaningful, tt)
      file_unmarked
