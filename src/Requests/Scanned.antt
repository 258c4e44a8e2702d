-- ===== src/Requests/Scanned.antt =====
-- Reading back a field that has been printed.
use capio.Base.{
  ℕ, zero, suc, ◌+◌, ◌/◌, ◌%◌, ◌^◌, ◌<◌, ◌≡◌, refl, ap, ◌∙◌, none, some, List, [], ◌∷◌, ◌++◌, ltb,
  nat_beq, if◌then◌else◌, Bool, true, false, not, ◌&&◌, arith, Bool-cases, inl, inr, lt→ltb,
}
use Prim.Native.String.{String}
use Prim.Native.Char.{Char, code}
use text.Mathlib.TextBridge.{of_list}
use capio.Requests.Text.{
  Field, num, word, Conversion, int, long, string, space, chars, is_digit, is_space, digit, emit,
  decimal, printed_field, printed_fields, scan_digits, scan_word, scan_number, skip_spaces,
  scan_string, convert, scan,
}

abbrev pub starts_with_digit : List Char → Bool
starts_with_digit [] = false
starts_with_digit (c ∷ t) = is_digit c

abbrev pub starts_with_space : List Char → Bool
starts_with_space [] = true
starts_with_space (c ∷ t) = is_space c

pub code-digit : (d : ℕ) → d < 10 → code (digit d) ≡ 48 + d
unfolding digit
code-digit zero h = refl
code-digit (suc zero) h = refl
code-digit (suc (suc zero)) h = refl
code-digit (suc (suc (suc zero))) h = refl
code-digit (suc (suc (suc (suc zero)))) h = refl
code-digit (suc (suc (suc (suc (suc zero))))) h = refl
code-digit (suc (suc (suc (suc (suc (suc zero)))))) h = refl
code-digit (suc (suc (suc (suc (suc (suc (suc zero))))))) h = refl
code-digit (suc (suc (suc (suc (suc (suc (suc (suc zero)))))))) h = refl
code-digit (suc (suc (suc (suc (suc (suc (suc (suc (suc d))))))))) h = omega arith

pub digit-is_digit : (d : ℕ) → d < 10 → is_digit (digit d) ≡ true
digit-is_digit d h = rw (code-digit d h) (ground arith)

-- Reading the last digit of a number behind the digits before it gives the number.
pub scan_digits_last :
    (n : ℕ) (out : List Char) → scan_digits (digit (n % 10) ∷ out) (n / 10) ≡ scan_digits out n
unfolding scan_digits
scan_digits_last n out =
    rw (digit-is_digit (n % 10) (omega arith))
      (ap (scan_digits out) (rw (code-digit (n % 10) (omega arith)) (omega arith)))

scan_digits-emit :
    (f n : ℕ) (out : List Char) → n < f → scan_digits (emit f n out) 0 ≡ scan_digits out n
unfolding emit
scan_digits-emit zero n out h = absurd (omega arith)
scan_digits-emit (suc f) n out h = elim (Bool-cases (nat_beq n 0)) [
  | inl z ↦ rw z (ap (scan_digits out) (ground arith))
  | inr p ↦
      rw p
        (scan_digits-emit f (n / 10) (digit (n % 10) ∷ out) (ground arith) ∙ scan_digits_last n out)
]

emit-starts :
    (f n : ℕ) (out : List Char)
    → starts_with_digit out ≡ true
    → starts_with_digit (emit f n out) ≡ true
unfolding emit
emit-starts zero n out h = h
emit-starts (suc f) n out h = elim (Bool-cases (nat_beq n 0)) [
  | inl z ↦ rw z h
  | inr p ↦
      rw p (emit-starts f (n / 10) (digit (n % 10) ∷ out) (digit-is_digit (n % 10) (omega arith)))
]

pub decimal-starts : (n : ℕ) (out : List Char) → starts_with_digit (decimal n out) ≡ true
unfolding decimal emit digit
decimal-starts n out = elim (Bool-cases (nat_beq n 0)) [
  | inl z ↦ rw z refl
  | inr p ↦
      rw p (emit-starts n (n / 10) (digit (n % 10) ∷ out) (digit-is_digit (n % 10) (omega arith)))
]

pub scan_digits-decimal :
    (n : ℕ) (out : List Char) → scan_digits (decimal n out) 0 ≡ scan_digits out n
unfolding decimal digit scan_digits
scan_digits-decimal n out = elim (Bool-cases (nat_beq n 0)) [
  | inl z ↦ rw z (ap (scan_digits out) (ground arith))
  | inr p ↦ rw p (scan_digits-emit (suc n) n out (omega arith))
]

-- Behind the digits stands a space, or nothing.
pub scan_digits_stop :
    (n : ℕ) (out : List Char) → starts_with_digit out ≡ false → scan_digits out n ≡ (n, out)
unfolding scan_digits
scan_digits_stop n [] h = refl
scan_digits_stop n (c ∷ t) h = rw h

no_digit : (out : List Char) → starts_with_space out ≡ true → starts_with_digit out ≡ false
no_digit [] h = refl
no_digit (c ∷ t) h = ground arith

no_space : (out : List Char) → starts_with_digit out ≡ true → starts_with_space out ≡ false
no_space [] h = cc
no_space (c ∷ t) h = ground arith

skip_none : (out : List Char) → starts_with_space out ≡ false → skip_spaces out ≡ out
unfolding skip_spaces
skip_none [] h = refl
skip_none (c ∷ t) h = rw h

scan_number_lem :
    (bound : ℕ) (t : List Char)
    → starts_with_digit t ≡ true
    → scan_number bound t ≡ (
        if ltb (scan_digits t 0).0 bound
        then some (num (scan_digits t 0).0, (scan_digits t 0).1)
        else none)
unfolding scan_number
scan_number_lem bound [] h = cc
scan_number_lem bound (c ∷ t) h = rw h

scan_number-decimal :
    (bound n : ℕ) (out : List Char)
    → n < bound
    → starts_with_space out ≡ true
    → scan_number bound (skip_spaces (decimal n out)) ≡ some (num n, out)
scan_number-decimal bound n out h stop =
    rw (skip_none (decimal n out) (no_space (decimal n out) (decimal-starts n out))) (
      rw (scan_number_lem bound (decimal n out) (decimal-starts n out)) (
        rw (
          scan_digits-decimal n out,
          scan_digits_stop n out (no_digit out stop),
          lt→ltb n bound h,
        )))

-- A word: it has characters, and none of them is a space.
abbrev pub no_spaces : List Char → Bool
no_spaces [] = true
no_spaces (c ∷ t) = not (is_space c) && no_spaces t

abbrev pub IsWord : String → Type 0
IsWord s = (no_spaces (chars s) ≡ true) × (starts_with_space (chars s) ≡ false)

of_list-chars : (s : String) → of_list (chars s) ≡ s
of_list-chars String.[] = refl
of_list-chars (String.◌∷◌ c s) = ap (λ t. String.◌∷◌ c t) (of_list-chars s)

scan_word-append :
    (w out : List Char)
    → no_spaces w ≡ true
    → starts_with_space out ≡ true
    → scan_word (w ++ out) ≡ (w, out)
unfolding scan_word
scan_word-append [] [] h stop = refl
scan_word-append [] (c ∷ t) h stop = rw stop
scan_word-append (c ∷ w) out h stop = elim (Bool-cases (is_space c)) [
  | inl p ↦ cc (rw p at h)
  | inr p ↦ rw p (rw (scan_word-append w out (rw p at h) stop))
]

scan_string_lem :
    (t : List Char)
    → starts_with_space t ≡ false
    → scan_string t ≡ some (word (of_list (scan_word t).0), (scan_word t).1)
unfolding scan_string
scan_string_lem [] h = cc
scan_string_lem (c ∷ t) h = refl

starts-append :
    (w out : List Char) → starts_with_space w ≡ false → starts_with_space (w ++ out) ≡ false
starts-append [] out h = cc
starts-append (c ∷ w) out h = h

scan_string-chars :
    (s : String) (out : List Char)
    → IsWord s
    → starts_with_space out ≡ true
    → scan_string (skip_spaces (chars s ++ out)) ≡ some (word s, out)
scan_string-chars s out h stop =
    let first : starts_with_space (chars s ++ out) ≡ false = starts-append (chars s) out h.1 in
    rw (skip_none (chars s ++ out) first) (
      rw (scan_string_lem (chars s ++ out) first)
        (rw (scan_word-append (chars s) out h.0 stop) (rw (of_list-chars s))))

-- That a conversion reads the field, whatever it is printed before.
abbrev pub Reads : Conversion → Field → Type 0
Reads int (num n) = n < 2 ^ 31
Reads long (num n) = n < 2 ^ 63
Reads string (word s) = IsWord s
Reads _ _ = ⊥

convert-printed_field :
    (c : Conversion) (f : Field) (out : List Char)
    → Reads c f
    → starts_with_space out ≡ true
    → convert c (printed_field f out) ≡ some (f, out)
unfolding convert printed_field
convert-printed_field int (num n) out h stop = scan_number-decimal (2 ^ 31) n out h stop
convert-printed_field long (num n) out h stop = scan_number-decimal (2 ^ 63) n out h stop
convert-printed_field string (word s) out h stop = scan_string-chars s out h stop
convert-printed_field int (word s) out h stop = elim h [ ]
convert-printed_field long (word s) out h stop = elim h [ ]
convert-printed_field string (num n) out h stop = elim h [ ]

abbrev pub AllRead : List Conversion → List Field → Type 0
AllRead [] [] = Unit {0}
AllRead (c ∷ cs) (f ∷ fs) = Reads c f × AllRead cs fs
AllRead _ _ = ⊥

printed_fields-stop : (fs : List Field) → starts_with_space (printed_fields fs) ≡ true
unfolding printed_fields
printed_fields-stop [] = refl
printed_fields-stop (f ∷ fs) = refl

convert-space : (c : Conversion) (t : List Char) → convert c (space ∷ t) ≡ convert c t
unfolding convert skip_spaces
convert-space int t = refl
convert-space long t = refl
convert-space string t = refl

-- What is printed with a space before each field is read back, with or without the first space.
pub scan-printed_fields :
    (cs : List Conversion) (fs : List Field) → AllRead cs fs → scan cs (printed_fields fs) ≡ some fs
unfolding scan printed_fields
scan-printed_fields [] [] h = refl
scan-printed_fields (c ∷ cs) (f ∷ fs) h = rw (
  scan,
  convert-space c (printed_field f (printed_fields fs)),
  convert-printed_field c f (printed_fields fs) h.0 (printed_fields-stop fs),
  scan-printed_fields cs fs h.1,
)
scan-printed_fields [] (f ∷ fs) h = elim h [ ]
scan-printed_fields (c ∷ cs) [] h = elim h [ ]

pub scan-space : (cs : List Conversion) (t : List Char) → scan cs (space ∷ t) ≡ scan cs t
unfolding scan
scan-space [] t = refl
scan-space (c ∷ cs) t = rw (scan, convert-space c t)
