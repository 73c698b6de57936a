-- ===== src/Common/Text.antt =====
-- JavaScript strings, as the list of their UTF-16 code units, with the string methods used.
use Prim.Native.Char.{code}
use Prim.Native.String.{String}
use edu_gear_back_end.Common.{
  leb, ◌==◌, if◌then◌else◌, ℕ, ◌+◌, ◌-◌, ◌≡◌, refl, ◌↔◌, Bool, true, false, ◌&&◌, ◌||◌, List, [],
  ◌∷◌, ◌++◌, map, arith,
}
use mathlib.Core.List.{reverse}

abbrev pub Text : Type 0
Text = List ℕ

-- A literal of the source; its characters all lie in the basic plane.
abbrev pub codes : String → Text
codes String.[] = []
codes (String.◌∷◌ c s) = code c ∷ codes s

-- `===` on strings
abbrev pub text_eq : Text → Text → Bool
text_eq [] [] = true
text_eq (a ∷ s) (b ∷ t) = a == b && text_eq s t
text_eq _ _ = false

pub text_eq_iff : (s t : Text) → (text_eq s t ≡ true) ↔ (s ≡ t)
text_eq_iff [] [] = ground arith
text_eq_iff (a ∷ s) (b ∷ t) = ground (arith, text_eq_iff s t)
text_eq_iff [] (b ∷ t) = ground arith
text_eq_iff (a ∷ s) [] = ground arith

unfoldable pub includes_text : Text → List Text → Bool
includes_text s [] = false
includes_text s (t ∷ ts) = text_eq s t || includes_text s ts

-- White space and line terminators, as `trim` drops them.
unfoldable pub is_space : ℕ → Bool
is_space c =
    (leb 9 c && leb c 13)
    || c == 32
    || c == 160
    || c == 0x1680
    || (leb 0x2000 c && leb c 0x200a)
    || c == 0x2028
    || c == 0x2029
    || c == 0x202f
    || c == 0x205f
    || c == 0x3000
    || c == 0xfeff

unfoldable pub trim_start : Text → Text
unfolding is_space
trim_start [] = []
trim_start (c ∷ s) = if is_space c then trim_start s else c ∷ s

unfoldable pub trim : Text → Text
unfolding trim_start
trim s = reverse (trim_start (reverse (trim_start s)))

-- Letters outside ASCII stay as they are.
unfoldable pub to_upper_case : Text → Text
to_upper_case = map (λ c. if leb b'a' c && leb c b'z' then c - 32 else c)

unfoldable pub to_lower_case : Text → Text
to_lower_case = map (λ c. if leb b'A' c && leb c b'Z' then c + 32 else c)

unfoldable pub starts_with : Text → Text → Bool
starts_with [] s = true
starts_with (c ∷ t) [] = false
starts_with (c ∷ t) (d ∷ s) = c == d && starts_with t s

-- The first text occurs in the second: `LIKE '%…%'`.
unfoldable pub occurs_in : Text → Text → Bool
unfolding starts_with
occurs_in t [] = starts_with t []
occurs_in t (c ∷ s) = starts_with t (c ∷ s) || occurs_in t s

pub starts_with-append : (t s : Text) → starts_with t (t ++ s) ≡ true
unfolding starts_with
starts_with-append [] s = refl
starts_with-append (c ∷ t) s = ground (arith, starts_with-append t s)

-- What stands in the middle of a text occurs in it.
pub occurs_in-append : (p t s : Text) → occurs_in t (p ++ (t ++ s)) ≡ true
unfolding occurs_in
occurs_in-append [] t s = starts_somewhere t (t ++ s) (starts_with-append t s)
  where
    starts_somewhere : (u v : Text) → starts_with u v ≡ true → occurs_in u v ≡ true
    starts_somewhere u [] h = h
    starts_somewhere u (c ∷ v) h = ground arith
occurs_in-append (c ∷ p) t s = ground (arith, occurs_in-append p t s)
