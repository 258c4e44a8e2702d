-- ===== src/Requests/Text.antt =====
-- What sprintf prints and what sscanf and std::from_chars read, as far as the requests use them. A text
-- is a list of characters.
use capio.Base.{
  ℕ, zero, suc, ◌+◌, ◌-◌, ◌*◌, ◌/◌, ◌%◌, ◌^◌, Option, none, some, List, [], ◌∷◌, ◌++◌, ltb, leb,
  nat_beq, if◌then◌else◌, Bool, ◌&&◌, ◌||◌,
}
use Prim.Native.String.{String}
use Prim.Native.Char.{Char, code, len_utf8}
use text.Mathlib.TextBridge.{of_list}

pub data Field : Type 0 where
  num : ℕ → Field
  word : String → Field

-- %d, %ld and %s
pub data Conversion : Type 0 where
  int long string : Conversion

abbrev pub space : Char
space = " "

abbrev pub chars : String → List Char
chars String.[] = []
chars (String.◌∷◌ c s) = c ∷ chars s

abbrev pub is_digit : Char → Bool
is_digit c = leb 48 (code c) && leb (code c) 57

-- isspace: the space, and the characters from the tabulator to the carriage return.
abbrev pub is_space : Char → Bool
is_space c = nat_beq (code c) 32 || (leb 9 (code c) && leb (code c) 13)

unfoldable pub digit : ℕ → Char
digit zero = "0"
digit (suc zero) = "1"
digit (suc (suc zero)) = "2"
digit (suc (suc (suc zero))) = "3"
digit (suc (suc (suc (suc zero)))) = "4"
digit (suc (suc (suc (suc (suc zero))))) = "5"
digit (suc (suc (suc (suc (suc (suc zero)))))) = "6"
digit (suc (suc (suc (suc (suc (suc (suc zero))))))) = "7"
digit (suc (suc (suc (suc (suc (suc (suc (suc zero)))))))) = "8"
digit _ = "9"

-- The decimal digits of a number that is not 0, before `out`; a fuel above the number is enough.
unfoldable pub emit : ℕ → ℕ → List Char → List Char
emit zero n out = out
emit (suc f) n out =
    let rest = emit f (n / 10) (digit (n % 10) ∷ out) in if nat_beq n 0 then out else rest

unfoldable pub decimal : ℕ → List Char → List Char
decimal n out = if nat_beq n 0 then digit 0 ∷ out else emit (suc n) n out

unfoldable pub printed_field : Field → List Char → List Char
printed_field (num n) out = decimal n out
printed_field (word s) out = chars s ++ out

-- The fields, each behind a space.
unfoldable pub printed_fields : List Field → List Char
printed_fields [] = []
printed_fields (f ∷ fs) = space ∷ printed_field f (printed_fields fs)

-- %04d, of a number below 10000.
unfoldable pub padded : ℕ → List Char → List Char
padded n out =
    digit (n / 1000 % 10) ∷ digit (n / 100 % 10) ∷ digit (n / 10 % 10) ∷ digit (n % 10) ∷ out

-- The size in bytes.
unfoldable pub text_size : List Char → ℕ
text_size [] = 0
text_size (c ∷ t) = len_utf8 c + text_size t

-- The number that the digits at the start of a text spell behind `n`, and the rest.
unfoldable pub scan_digits : List Char → ℕ → ℕ × List Char
scan_digits [] n = (n, [])
scan_digits (c ∷ t) n =
    let rest = scan_digits t (n * 10 + (code c - 48)) in if is_digit c then rest else (n, c ∷ t)

unfoldable pub scan_word : List Char → List Char × List Char
scan_word [] = ([], [])
scan_word (c ∷ t) = let (w, rest) = scan_word t in if is_space c then ([], c ∷ t) else (c ∷ w, rest)

-- A number that does not fit is undefined: no result.
unfoldable pub scan_number : ℕ → List Char → Option (Field × List Char)
scan_number bound [] = none
scan_number bound (c ∷ t) =
    let (n, rest) = scan_digits (c ∷ t) 0 in
    if is_digit c && ltb n bound then some (num n, rest) else none

unfoldable pub skip_spaces : List Char → List Char
skip_spaces [] = []
skip_spaces (c ∷ t) = let rest = skip_spaces t in if is_space c then rest else c ∷ t

-- A word has at least one character.
unfoldable pub scan_string : List Char → Option (Field × List Char)
scan_string [] = none
scan_string (c ∷ t) = let (w, rest) = scan_word (c ∷ t) in some (word (of_list w), rest)

unfoldable pub convert : Conversion → List Char → Option (Field × List Char)
convert int t = scan_number (2 ^ 31) (skip_spaces t)
convert long t = scan_number (2 ^ 63) (skip_spaces t)
convert string t = scan_string (skip_spaces t)

unfoldable pub scan : List Conversion → List Char → Option (List Field)
scan [] t = some []
scan (c ∷ cs) t = elim (convert c t) [
  | none ↦ none
  | some (f, rest) ↦ elim (scan cs rest) [ none ↦ none | some fs ↦ some (f ∷ fs) ]
]

-- The digits among the first `width` characters, and the text behind the character that follows them.
unfoldable pub scan_code : ℕ → List Char → ℕ → ℕ × List Char
scan_code zero t n = (n, t)
scan_code (suc width) [] n = (n, [])
scan_code (suc width) (c ∷ t) n =
    let rest = scan_code width t (n * 10 + (code c - 48)) in if is_digit c then rest else (n, c ∷ t)

abbrev pub behind : List Char → List Char
behind [] = []
behind (c ∷ t) = t

-- std::from_chars of the code, and the text from `ptr + 1` on.
unfoldable pub from_chars : ℕ → List Char → Option (ℕ × List Char)
from_chars width [] = none
from_chars width (c ∷ t) =
    let (n, rest) = scan_code width (c ∷ t) 0 in if is_digit c then some (n, behind rest) else none
