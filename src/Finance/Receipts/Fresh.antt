-- ===== src/Finance/Receipts/Fresh.antt =====
-- `nextReceiptSequence` of src/finance/receipt-number.ts against the numbers on file.
use mathlib.Core.List.{reverse, reverse-append, reverse-reverse, append_assoc, reverse-cons}
use edu_gear_back_end.Common.{
  le→leb, length, all, any, Has, ℕ, zero, suc, ◌+◌, ◌-◌, ◌/◌, ◌%◌, ◌≤◌, ◌<◌, ◌≡◌, refl, ap, ◌∙◌,
  inl, inr, Bool, true, false, ◌||◌, some, List, [], ◌∷◌, ◌++◌, arith,
}
use edu_gear_back_end.Common.Text.{Text}
use edu_gear_back_end.Finance.Receipts.{
  is_digit, is_line_end, digits_rev, pad_rev, format_receipt_number, value_rev, span_digits,
  match_prefix, match_year, match_tail, match_receipt, raise_highest, highest_from,
  next_receipt_sequence,
}

value_rev-digits_rev : (fuel n : ℕ) → n < fuel → value_rev (digits_rev fuel n) ≡ n
unfolding digits_rev value_rev
value_rev-digits_rev zero n h = elim h [ ]
value_rev-digits_rev (suc fuel) n h = ground (arith, value_rev-digits_rev fuel (n / 10))

digits_rev_digits : (fuel n : ℕ) → all is_digit (digits_rev fuel n) ≡ true
unfolding digits_rev
digits_rev_digits zero n = refl
digits_rev_digits (suc fuel) n = ground (arith, digits_rev_digits fuel (n / 10))

pad_rev_digits : (w : ℕ) (s : Text) → all is_digit s ≡ true → all is_digit (pad_rev w s) ≡ true
unfolding pad_rev
pad_rev_digits zero s h = h
pad_rev_digits (suc w) [] h = pad_rev_digits w [] refl
pad_rev_digits (suc w) (c ∷ s) h = ground (arith, pad_rev_digits w s)

value_rev-pad_rev : (w : ℕ) (s : Text) → value_rev (pad_rev w s) ≡ value_rev s
unfolding pad_rev value_rev
value_rev-pad_rev zero s = refl
value_rev-pad_rev (suc w) [] = omega (arith, value_rev-pad_rev w [])
value_rev-pad_rev (suc w) (c ∷ s) = omega (arith, value_rev-pad_rev w s)

length-pad_rev : (w : ℕ) (s : Text) → w ≤ length (pad_rev w s)
unfolding pad_rev
length-pad_rev zero s = omega arith
length-pad_rev (suc w) [] = omega (arith, length-pad_rev w [])
length-pad_rev (suc w) (c ∷ s) = omega (arith, length-pad_rev w s)

span_digits-append :
    (d r : Text) → all is_digit d ≡ true → span_digits (d ++ (b'/' ∷ r)) ≡ (d, b'/' ∷ r)
unfolding span_digits
span_digits-append [] r h = refl
span_digits-append (c ∷ d) r h = ground (arith, span_digits-append d r)

-- A year of four digits.
digits_rev_year :
    (k year : ℕ)
    → 1000 ≤ year
    → year < 10000
    → digits_rev (suc (suc (suc (suc k)))) year
      ≡ (b'0' + year % 10)
        ∷ (b'0' + year / 10 % 10)
        ∷ (b'0' + year / 100 % 10)
        ∷ (b'0' + year / 1000)
        ∷ []
unfolding digits_rev
digits_rev_year k year low high = ground arith

any-append : (p : ℕ → Bool) (s t : Text) → any p (s ++ t) ≡ (any p s || any p t)
any-append p [] t = refl
any-append p (c ∷ s) t = ground (arith, any-append p s t)

any-reverse : (p : ℕ → Bool) (s : Text) → any p (reverse s) ≡ any p s
any-reverse p [] = refl
any-reverse p (c ∷ s) =
    rw (reverse-cons c s) (ground (arith, any-append p (reverse s) (c ∷ []), any-reverse p s))

reverse_format :
    (year tail prefix : Text)
    → reverse (prefix ++ (b'/' ∷ reverse year ++ (b'/' ∷ reverse tail)))
      ≡ tail ++ (b'/' ∷ (year ++ (b'/' ∷ reverse prefix)))
reverse_format year tail prefix = simp (reverse-append, reverse-cons, reverse-reverse, append_assoc)

match_year_lem :
    (year : ℕ) (prefix : Text)
    → 1000 ≤ year
    → year < 10000
    → any is_line_end prefix ≡ false
    → match_year (digits_rev (suc year) year ++ (b'/' ∷ reverse prefix)) ≡ some year
unfolding match_year match_prefix value_rev
match_year_lem year prefix low high plain =
    let k = year - 3 in
    let e : suc year ≡ suc (suc (suc (suc k))) = omega arith in
    rw (e, digits_rev_year k year low high) (ground (arith, any-reverse is_line_end prefix))

match_receipt_lem :
    (s d r : Text) → span_digits (reverse s) ≡ (d, r) → match_receipt s ≡ match_tail d r
unfolding match_receipt
match_receipt_lem s d r h = ap (λ (p : Text × Text). match_tail p.0 p.1) h

match_tail_lem :
    (sequence rest : Text) (year : ℕ)
    → 6 ≤ length sequence
    → match_year rest ≡ some year
    → match_tail sequence (b'/' ∷ rest) ≡ some (year, value_rev sequence)
unfolding match_tail
match_tail_lem sequence rest year long h = rw (le→leb 6 (length sequence) long) (rw h)

-- The digits of a sequence number, as they are printed, the last one first.
abbrev printed : ℕ → Text
printed sequence = pad_rev 6 (digits_rev (suc sequence) sequence)

abbrev before_sequence : ℕ → Text → Text
before_sequence year prefix = digits_rev (suc year) year ++ (b'/' ∷ reverse prefix)

format_reverse :
    (year sequence : ℕ) (prefix : Text)
    → reverse (format_receipt_number year sequence prefix)
      ≡ printed sequence ++ (b'/' ∷ before_sequence year prefix)
unfolding format_receipt_number
format_reverse year sequence prefix =
    reverse_format (digits_rev (suc year) year) (printed sequence) prefix

value_rev-printed : (sequence : ℕ) → value_rev (printed sequence) ≡ sequence
value_rev-printed sequence =
    value_rev-pad_rev 6 (digits_rev (suc sequence) sequence)
    ∙ value_rev-digits_rev (suc sequence) sequence (omega arith)

-- What is formatted is read back, for a year of four digits and a prefix on one line.
pub match_receipt-format :
    (year sequence : ℕ) (prefix : Text)
    → 1000 ≤ year
    → year < 10000
    → any is_line_end prefix ≡ false
    → match_receipt (format_receipt_number year sequence prefix) ≡ some (year, sequence)
match_receipt-format year sequence prefix low high plain =
    let tail = printed sequence in
    let rest = before_sequence year prefix in
    let digits = pad_rev_digits 6 _ (digits_rev_digits (suc sequence) sequence) in
    let spanned =
      ap span_digits (format_reverse year sequence prefix) ∙ span_digits-append tail rest digits in
    match_receipt_lem (format_receipt_number year sequence prefix) tail (b'/' ∷ rest) spanned
    ∙ match_tail_lem tail rest year (length-pad_rev 6 _) (match_year_lem year prefix low high plain)
    ∙ ap (λ n. some (year, n)) (value_rev-printed sequence)

-- The loop keeps the highest sequence of the year.
highest_from-le :
    (highest : ℕ) (existing : List Text) (year : ℕ) → highest ≤ highest_from highest existing year
unfolding highest_from
highest_from-le highest [] year = omega arith
highest_from-le highest (v ∷ vs) year =
    ground (arith, highest_from-le (raise_highest (match_receipt v) year highest) vs year)

highest_from-bounds :
    (highest : ℕ) (existing : List Text) (year sequence : ℕ) (value : Text)
    → Has value existing
    → match_receipt value ≡ some (year, sequence)
    → sequence ≤ highest_from highest existing year
unfolding highest_from
highest_from-bounds highest [] year sequence value h m = elim h [ ]
highest_from-bounds highest (v ∷ vs) year sequence value (inl e) m =
    let m' : match_receipt v ≡ some (year, sequence) = rw (← e) m in
    let raised = raise_highest (match_receipt v) year highest in
    ground (arith, m', highest_from-le raised vs year)
highest_from-bounds highest (v ∷ vs) year sequence value (inr h) m =
    highest_from-bounds (raise_highest (match_receipt v) year highest) vs year sequence value h m

-- The receipt number that is allocated next stands on none of the payments on file, for a year of
-- four digits and a prefix on one line, whatever prefixes were in use before.
pub next_receipt_fresh :
    (existing : List Text) (year : ℕ) (prefix : Text)
    → 1000 ≤ year
    → year < 10000
    → any is_line_end prefix ≡ false
    → ¬ Has (format_receipt_number year (next_receipt_sequence existing year) prefix) existing
unfolding next_receipt_sequence
next_receipt_fresh existing year prefix low high plain listed =
    let sequence = highest_from 0 existing year + 1 in
    let number = format_receipt_number year sequence prefix in
    let read = match_receipt-format year sequence prefix low high plain in
    let bound = highest_from-bounds 0 existing year sequence number listed read in
    absurd (omega (arith, bound))
