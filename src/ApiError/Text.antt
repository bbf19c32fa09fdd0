-- ===== src/ApiError/Text.antt =====
-- common/errors.go: what its two regular expressions and strings.Contains find in the text of an
-- error, and strconv.ParseUint for 16 bits.
use fq_connector_go.Common.{
  ℕ, ◌+◌, ◌-◌, ◌*◌, ◌^◌, Bool, true, false, ◌&&◌, ◌||◌, Bytes, codes, [], ◌∷◌, Option, none, some,
  ltb, leb, ◌==◌, if◌then◌else◌, ◌≡◌, refl,
}

starts_with : Bytes → Bytes → Bool
starts_with [] s = true
starts_with (c ∷ p) [] = false
starts_with (c ∷ p) (d ∷ s) = c == d && starts_with p s

-- strings.Contains, with the searched text last.
unfoldable pub contains : Bytes → Bytes → Bool
unfolding starts_with
contains p [] = starts_with p []
contains p (c ∷ s) = starts_with p (c ∷ s) || contains p s

abbrev pub is_digit : ℕ → Bool
is_digit c = leb 48 c && leb c 57

-- The digits at the start of a text, and what follows them.
pub digits_at : Bytes → Bytes × Bytes
digits_at [] = ([], [])
digits_at (c ∷ s) =
    let rest = digits_at s in if is_digit c then (c ∷ rest.0, rest.1) else ([], c ∷ s)

-- mysqlRegex.FindString; the empty match is `none`.
unfoldable pub first_number : Bytes → Option Bytes
unfolding digits_at
first_number [] = none
first_number (c ∷ s) =
    let later = first_number s in if is_digit c then some ((digits_at (c ∷ s)).0) else later

-- `(\d+):` at the start of a text.
number_colon : Bytes × Bytes → Option Bytes
number_colon ([], rest) = none
number_colon (d ∷ ds, []) = none
number_colon (d ∷ ds, c ∷ rest) = if c == 58 then some (d ∷ ds) else none

-- What follows a prefix.
after_prefix : Bytes → Bytes → Option Bytes
after_prefix [] s = some s
after_prefix (c ∷ p) [] = none
after_prefix (c ∷ p) (d ∷ s) = let rest = after_prefix p s in if c == d then rest else none

number_after : Option Bytes → Option Bytes
unfolding digits_at number_colon
number_after none = none
number_after (some s) = number_colon (digits_at s)

-- The match of oracleRegex at the start of a text.
ora_at : Bytes → Option Bytes
unfolding number_after after_prefix
ora_at s = number_after (after_prefix (codes "ORA-") s)

or_later : Option Bytes → Option Bytes → Option Bytes
or_later none later = later
or_later (some n) later = some n

-- The group of oracleRegex.FindStringSubmatch.
unfoldable pub ora_number : Bytes → Option Bytes
unfolding ora_at or_later
ora_number [] = none
ora_number (c ∷ s) = or_later (ora_at (c ∷ s)) (ora_number s)

value_of : ℕ → Bytes → ℕ
value_of n [] = n
value_of n (c ∷ s) = value_of (n * 10 + (c - 48)) s

-- strconv.ParseUint(s, 10, 16) on digits; an error is `none`.
unfoldable pub parse_uint16 : Bytes → Option ℕ
unfolding value_of
parse_uint16 s = if ltb (value_of 0 s) (2 ^ 16) then some (value_of 0 s) else none

test_ora : ora_number (codes "x ORA-01017: invalid") ≡ some (codes "01017")
unfolding ora_number
test_ora = refl

test_number : first_number (codes "#1045 no") ≡ some (codes "1045")
unfolding first_number
test_number = refl

test_contains : contains (codes "Login failed") (codes "a Login failed b") ≡ true
unfolding contains
test_contains = refl
