-- ===== src/Finance/Receipts.antt =====
-- src/finance/receipt-number.ts: receipt numbers, `<prefix>/<year>/<6-digit sequence>`. The regular
-- expression is read from the end of the text, where its two groups of digits stand.
pub mod Fresh
use mathlib.Core.List.{reverse}
use mathlib.Core.Option
use edu_gear_back_end.Common.{
  leb, ◌==◌, if◌then◌else◌, length, all, any, ℕ, zero, suc, ◌+◌, ◌-◌, ◌*◌, ◌/◌, ◌%◌, max, Bool,
  true, not, ◌&&◌, ◌||◌, Option, none, some, List, [], ◌∷◌, ◌++◌, map,
}
use edu_gear_back_end.Common.Text.{Text}

abbrev pub is_digit : ℕ → Bool
is_digit c = leb b'0' c && leb c b'9'

-- The characters that `.` does not match.
abbrev pub is_line_end : ℕ → Bool
is_line_end c = c == 10 || c == 13 || c == 0x2028 || c == 0x2029

-- The decimal digits of a number, the last one first; `fuel` above the number is enough.
pub digits_rev : ℕ → ℕ → Text
digits_rev zero n = []
digits_rev (suc fuel) n =
    let rest = digits_rev fuel (n / 10) in (b'0' + n % 10) ∷ (if n / 10 == 0 then [] else rest)

-- A number as `${n}` prints it.
unfoldable pub number_text : ℕ → Text
unfolding digits_rev
number_text n = reverse (digits_rev (suc n) n)

-- `padStart(width, '0')`, on the reversed text.
pub pad_rev : ℕ → Text → Text
pad_rev zero s = s
pad_rev (suc width) [] = b'0' ∷ pad_rev width []
pad_rev (suc width) (c ∷ s) = c ∷ pad_rev width s

unfoldable pub format_receipt_number : ℕ → ℕ → Text → Text
unfolding digits_rev pad_rev
format_receipt_number year sequence prefix =
    let tail = pad_rev 6 (digits_rev (suc sequence) sequence) in
    prefix ++ (b'/' ∷ reverse (digits_rev (suc year) year) ++ (b'/' ∷ reverse tail))

-- The number that reversed digits stand for.
pub value_rev : Text → ℕ
value_rev [] = 0
value_rev (c ∷ s) = (c - b'0') + 10 * value_rev s

-- The leading digits, and what follows them.
pub span_digits : Text → Text × Text
span_digits [] = ([], [])
span_digits (c ∷ s) = let (d, r) = span_digits s in if is_digit c then (c ∷ d, r) else ([], c ∷ s)

-- `(?:.*\/)?`, reversed: nothing, or a slash and then no line end.
pub match_prefix : Text → Bool
match_prefix [] = true
match_prefix (c ∷ s) = c == b'/' && not (any is_line_end s)

-- `(\d{4})`, reversed, and what stands before it.
pub match_year : Text → Option ℕ
match_year (d ∷ c ∷ b ∷ a ∷ rest) =
    if all is_digit (d ∷ c ∷ b ∷ a ∷ []) && match_prefix rest
    then some (value_rev (d ∷ c ∷ b ∷ a ∷ []))
    else none
match_year _ = none

-- `\/`, reversed, between the year and the digits of the sequence.
pub match_tail : Text → Text → Option (ℕ × ℕ)
match_tail sequence [] = none
match_tail sequence (c ∷ rest) =
    if c == b'/' && leb 6 (length sequence)
    then Option.map (λ year. (year, value_rev sequence)) (match_year rest)
    else none

-- `RECEIPT_NUMBER_PATTERN.exec(value)`: the year and the sequence.
unfoldable pub match_receipt : Text → Option (ℕ × ℕ)
unfolding match_tail match_year match_prefix span_digits value_rev
match_receipt s = let (d, r) = span_digits (reverse s) in match_tail d r

abbrev pub raise_highest : Option (ℕ × ℕ) → ℕ → ℕ → ℕ
raise_highest none year highest = highest
raise_highest (some (y, sequence)) year highest =
    if y == year then max highest sequence else highest

pub highest_from : ℕ → List Text → ℕ → ℕ
highest_from highest [] year = highest
highest_from highest (value ∷ existing) year =
    highest_from (raise_highest (match_receipt value) year highest) existing year

unfoldable pub next_receipt_sequence : List Text → ℕ → ℕ
unfolding highest_from match_receipt
next_receipt_sequence existing year = highest_from 0 existing year + 1
