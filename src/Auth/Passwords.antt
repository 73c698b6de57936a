-- ===== src/Auth/Passwords.antt =====
-- src/auth/password.service.ts: what a new password must look like. `toLowerCase` is the parameter
-- `to_lower_case`; argon2 is a parameter of the handlers that hash and verify.
use edu_gear_back_end.Common.{
  ltb, leb, ◌==◌, if◌then◌else◌, length, all, any, bad_request, Outcome, throw_if, ℕ, Bool, false,
  not, ◌&&◌, ◌||◌, List, [], ◌∷◌,
}
use edu_gear_back_end.Common.Text.{Text, codes, occurs_in}

abbrev pub is_letter : ℕ → Bool
is_letter c = (leb b'a' c && leb c b'z') || (leb b'A' c && leb c b'Z')

abbrev pub is_decimal : ℕ → Bool
is_decimal c = leb b'0' c && leb c b'9'

-- A character that `.` matches.
abbrev pub is_plain : ℕ → Bool
is_plain c = not (c == 10 || c == 13 || c == 0x2028 || c == 0x2029)

abbrev pub drop_run : ℕ → Text → Text
drop_run c [] = []
drop_run c (d ∷ s) = if c == d then drop_run c s else d ∷ s

-- `/^(.)\1+\d*$/`
unfoldable pub is_run : Text → Bool
is_run [] = false
is_run (c ∷ []) = false
is_run (c ∷ d ∷ s) = is_plain c && c == d && all is_decimal (drop_run c s)

abbrev pub common_fragments : List Text
common_fragments =
    codes "password"
    ∷ codes "passw0rd"
    ∷ codes "12345678"
    ∷ codes "87654321"
    ∷ codes "qwerty"
    ∷ codes "iloveyou"
    ∷ codes "admin123"
    ∷ codes "welcome1"
    ∷ codes "letmein"
    ∷ codes "abc12345"
    ∷ codes "edugear"
    ∷ codes "school123"
    ∷ codes "teacher1"
    ∷ []

module _ (to_lower_case : Text → Text) (password_min_length : ℕ) where
  unfoldable pub is_too_common : Text → Bool
  is_too_common password =
      let normalised = to_lower_case password in
      any (λ fragment. occurs_in fragment normalised) common_fragments || is_run normalised

  -- `assertMeetsPolicy`
  unfoldable pub assert_meets_policy : Text → Outcome (Unit {0})
  assert_meets_policy password =
      throw_if
        (ltb (length password) password_min_length
          || not (any is_letter password)
          || not (any is_decimal password)
          || is_too_common password)
        bad_request
