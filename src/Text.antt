-- ===== src/Text.antt =====
-- The methods of `str` that the program calls, on ASCII text: other letters have no case here, and
-- other blanks are no blanks.
use Prim.Native.Char.{Char, code}
use Prim.Native.String.{char_at, compare}
use Prim.Native.Nat.{Ordering}
use hyper_looms.Prelude.{
  ℕ, zero, suc, ◌+◌, ◌-◌, ◌*◌, ◌/◌, ◌%◌, List, [], ◌∷◌, String, Bool, true, false, ◌&&◌, ◌||◌,
  Option, none, some, nat_beq, leb, if◌then◌else◌,
}

lower_char : Char → Char
lower_char c =
    if leb 65 (code c) && leb (code c) 90
    then char_at "abcdefghijklmnopqrstuvwxyz" (code c - 65)
    else c

-- s.lower()
unfoldable pub lower : String → String
unfolding lower_char
lower String.[] = ""
lower (String.◌∷◌ c s) = String.◌∷◌ (lower_char c) (lower s)

is_blank : Char → Bool
is_blank c = nat_beq (code c) 32 || (leb 9 (code c) && leb (code c) 13)

-- s.lstrip()
strip_left : String → String
unfolding is_blank
strip_left String.[] = ""
strip_left (String.◌∷◌ c s) = let rest = strip_left s in if is_blank c then rest else String.◌∷◌ c s

-- s.rstrip()
strip_right : String → String
unfolding is_blank
strip_right String.[] = ""
strip_right (String.◌∷◌ c s) = elim (strip_right s) [
  | String.[] ↦ if is_blank c then "" else String.◌∷◌ c ""
  | String.◌∷◌ d r ↦ String.◌∷◌ c (String.◌∷◌ d r)
]

-- s.strip()
unfoldable pub strip : String → String
unfolding strip_left strip_right
strip s = strip_right (strip_left s)

-- s.split(sep)[0], for a one-character separator with code `sep`
unfoldable pub before : ℕ → String → String
before sep String.[] = ""
before sep (String.◌∷◌ c s) =
    let rest = before sep s in if nat_beq (code c) sep then "" else String.◌∷◌ c rest

is_digit : Char → Bool
is_digit c = leb 48 (code c) && leb (code c) 57

-- `\d*b` at the start of the text
digits_b : String → Bool
unfolding is_digit
digits_b String.[] = false
digits_b (String.◌∷◌ c s) =
    let rest = digits_b s in if is_digit c then rest else nat_beq (code c) 98 || nat_beq (code c) 66

-- `(?:\.\d+)?b` at the start of the text
suffix_b : String → Bool
unfolding is_digit digits_b
suffix_b String.[] = false
suffix_b (String.◌∷◌ c s) =
    if nat_beq (code c) 46
    then elim s [ String.[] ↦ false | String.◌∷◌ d r ↦ is_digit d && digits_b r ]
    else nat_beq (code c) 98 || nat_beq (code c) 66

-- The digits from here on, after those read as `n`, and what follows them: the number, if
-- `MODEL_SIZE_REGEX` matches.
size_from : ℕ → String → Option ℕ
unfolding is_digit suffix_b
size_from n String.[] = none
size_from n (String.◌∷◌ c s) =
    let more = size_from (n * 10 + (code c - 48)) s in
    if is_digit c then more else if suffix_b (String.◌∷◌ c s) then some n else none

-- `MODEL_SIZE_REGEX.search(s)`, its group "size": the leftmost match of `(\d+)(?:\.\d+)?b`
unfoldable pub model_size : String → Option ℕ
unfolding is_digit size_from
model_size String.[] = none
model_size (String.◌∷◌ c s) =
    let here = size_from 0 (String.◌∷◌ c s) in
    let later = model_size s in
    if is_digit c then elim here [ some n ↦ some n | none ↦ later ] else later

-- the order of `str`
abbrev pub str_less : String → String → Bool
str_less s t = elim (compare s t) [ Ordering.lt ↦ true | _ ↦ false ]

-- s.replace(" ", "-")
unfoldable pub replace_blanks : String → String
replace_blanks String.[] = ""
replace_blanks (String.◌∷◌ c s) =
    String.◌∷◌ (if nat_beq (code c) 32 then char_at "-" 0 else c) (replace_blanks s)

-- The decimal digits of n before those of `tail`; a number has no more digits than `fuel`.
digits_before : ℕ → ℕ → String → String
digits_before zero n tail = tail
digits_before (suc fuel) n tail =
    let here = String.◌∷◌ (char_at "0123456789" (n % 10)) tail in
    elim (nat_beq (n / 10) 0) [ true ↦ here | false ↦ digits_before fuel (n / 10) here ]

-- str(n)
unfoldable pub show_nat : ℕ → String
unfolding digits_before
show_nat n = digits_before (suc n) n ""

-- int(s) of a text of ASCII digits. Python also takes signs, underscores and blanks.
digits_value : ℕ → String → Option ℕ
unfolding is_digit
digits_value n String.[] = some n
digits_value n (String.◌∷◌ c s) =
    let rest = digits_value (n * 10 + (code c - 48)) s in if is_digit c then rest else none

unfoldable pub parse_nat : String → Option ℕ
unfolding digits_value
parse_nat String.[] = none
parse_nat (String.◌∷◌ c s) = digits_value 0 (String.◌∷◌ c s)

-- s.split(sep), for a one-character separator with code `sep`
unfoldable pub split : ℕ → String → List String
split sep String.[] = "" ∷ []
split sep (String.◌∷◌ c s) =
    let rest = split sep s in
    if nat_beq (code c) sep
    then "" ∷ rest
    else elim rest [ [] ↦ String.◌∷◌ c "" ∷ [] | w ∷ ws ↦ String.◌∷◌ c w ∷ ws ]

-- s.startswith(prefix)
unfoldable pub starts_with : String → String → Bool
starts_with String.[] s = true
starts_with (String.◌∷◌ c p) String.[] = false
starts_with (String.◌∷◌ c p) (String.◌∷◌ d s) = nat_beq (code c) (code d) && starts_with p s

-- s[:n]
unfoldable pub prefix : ℕ → String → String
prefix zero s = ""
prefix (suc n) String.[] = ""
prefix (suc n) (String.◌∷◌ c s) = String.◌∷◌ c (prefix n s)
