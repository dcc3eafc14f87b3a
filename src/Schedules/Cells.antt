-- ===== src/Schedules/Cells.antt =====
-- Texts of table cells, character by character: Python's lower, strip and split, and `normalize` and `_clean`. The classes \s and \d are
-- Unicode's; `lower` is exact wherever it gives a character of [a-z0-9].
use Prim.Native.Char.{Char, code}
use Prim.Native.String.{char_at, ◌++◌ as ◌+++◌}
use construction_harness.Prelude.{
  ltb, leb, nat_beq, if◌then◌else◌, nonempty, contains, nat_eq, string_eq, pair_eq, ℕ, ◌+◌, ◌-◌,
  String, Bool, true, false, not, ◌&&◌, ◌||◌, Option, none, some, List, [], ◌∷◌, starts_with,
}

abbrev space_codes : List ℕ
space_codes =
    9 ∷ 10 ∷ 11 ∷ 12 ∷ 13 ∷ 28 ∷ 29 ∷ 30 ∷ 31 ∷ 32 ∷ 133 ∷ 160 ∷ 5760 ∷ 8192 ∷ 8193 ∷ 8194 ∷ 8195
    ∷ 8196 ∷ 8197 ∷ 8198 ∷ 8199 ∷ 8200 ∷ 8201 ∷ 8202 ∷ 8232 ∷ 8233 ∷ 8239 ∷ 8287 ∷ 12288 ∷ []

-- The digits 0 of the scripts that have decimal digits.
abbrev digit_codes : List ℕ
digit_codes =
    48 ∷ 1632 ∷ 1776 ∷ 1984 ∷ 2406 ∷ 2534 ∷ 2662 ∷ 2790 ∷ 2918 ∷ 3046 ∷ 3174 ∷ 3302 ∷ 3430 ∷ 3558
    ∷ 3664 ∷ 3792 ∷ 3872 ∷ 4160 ∷ 4240 ∷ 6112 ∷ 6160 ∷ 6470 ∷ 6608 ∷ 6784 ∷ 6800 ∷ 6992 ∷ 7088
    ∷ 7232 ∷ 7248 ∷ 42528 ∷ 43216 ∷ 43264 ∷ 43472 ∷ 43504 ∷ 43600 ∷ 44016 ∷ 65296 ∷ 66720 ∷ 68912
    ∷ 69734 ∷ 69872 ∷ 69942 ∷ 70096 ∷ 70384 ∷ 70736 ∷ 70864 ∷ 71248 ∷ 71360 ∷ 71472 ∷ 71904 ∷ 72016
    ∷ 72784 ∷ 73040 ∷ 73120 ∷ 92768 ∷ 92864 ∷ 93008 ∷ 120782 ∷ 120792 ∷ 120802 ∷ 120812 ∷ 120822
    ∷ 123200 ∷ 123632 ∷ 125264 ∷ 130032 ∷ []

-- \s, and str.isspace of a character
unfoldable pub is_space : Char → Bool
is_space c = contains space_codes (code c)

-- The value of a digit, by the script's digit 0.
unfoldable pub digit_value : List ℕ → ℕ → Option ℕ
digit_value [] n = none
digit_value (z ∷ zs) n = if leb z n && ltb n (z + 10) then some (n - z) else digit_value zs n

unfoldable pub char_digit : Char → Option ℕ
unfolding digit_value
char_digit c = digit_value digit_codes (code c)

abbrev is_some {ℓ} : {A : Type ℓ} → Option A → Bool
is_some none = false
is_some (some a) = true

-- \d
unfoldable pub is_digit : Char → Bool
unfolding char_digit digit_value
is_digit c = is_some (char_digit c)

-- [A-Z]
unfoldable pub is_upper : Char → Bool
is_upper c = leb b'A' (code c) && leb (code c) b'Z'

-- [a-z0-9]
unfoldable pub is_word : Char → Bool
is_word c = (leb b'a' (code c) && leb (code c) b'z') || (leb b'0' (code c) && leb (code c) b'9')

-- [A-Za-z0-9]
unfoldable pub is_alnum : Char → Bool
unfolding is_word is_upper
is_alnum c = is_word c || is_upper c

abbrev pub one_char : Char → String
one_char c = String.◌∷◌ c ""

-- Beside the capitals A to Z, the Kelvin sign and the dotted I have lower case in ASCII.
unfoldable pub lower_char : Char → String
unfolding is_upper
lower_char c =
    if is_upper c
    then one_char (char_at "abcdefghijklmnopqrstuvwxyz" (code c - 65))
    else if nat_beq (code c) 8490
    then "k"
    else if nat_beq (code c) 304
    then "i̇"
    else one_char c

-- s.lower()
unfoldable pub lower : String → String
unfolding lower_char
lower String.[] = ""
lower (String.◌∷◌ c s) = lower_char c +++ lower s

-- re.sub of the runs of a class of characters by one space; the flag says that a run is open.
unfoldable pub sub_runs : (Char → Bool) → Bool → String → String
sub_runs p open_run String.[] = ""
sub_runs p open_run (String.◌∷◌ c s) =
    let rest = sub_runs p (p c) s in
    if p c then (if open_run then rest else " " +++ rest) else String.◌∷◌ c rest

unfoldable pub drop_while : (Char → Bool) → String → String
drop_while p String.[] = ""
drop_while p (String.◌∷◌ c s) = let rest = drop_while p s in if p c then rest else String.◌∷◌ c s

unfoldable pub drop_end : (Char → Bool) → String → String
drop_end p String.[] = ""
drop_end p (String.◌∷◌ c s) =
    let rest = drop_end p s in if p c && not (nonempty rest) then "" else String.◌∷◌ c rest

-- s.strip()
unfoldable pub strip : String → String
unfolding drop_while drop_end is_space
strip s = drop_end is_space (drop_while is_space s)

-- A table's cell is a text or None.
abbrev pub Cell : Type 0
Cell = Option String

-- s or ""
abbrev pub text_of : Cell → String
text_of none = ""
text_of (some s) = s

unfoldable pub normalize : Cell → String
unfolding strip sub_runs lower is_word is_space
normalize s =
    strip (sub_runs is_space false (sub_runs (λ c. not (is_word c)) false (lower (text_of s))))

unfoldable pub has_newline : String → Bool
has_newline String.[] = false
has_newline (String.◌∷◌ c s) = nat_beq (code c) 10 || has_newline s

abbrev flush_spaces : String → String
unfolding has_newline
flush_spaces run = if has_newline run then " " else run

-- re.sub(r"\s*\n\s*", " ", s): a match is a whole run of white space that has a newline. The
-- first argument is the run that is open.
unfoldable pub join_lines : String → String → String
unfolding has_newline is_space
join_lines run String.[] = flush_spaces run
join_lines run (String.◌∷◌ c s) =
    let rest = join_lines (if is_space c then run +++ one_char c else "") s in
    if is_space c then rest else flush_spaces run +++ String.◌∷◌ c rest

unfoldable pub clean : Cell → String
unfolding join_lines strip
clean cell = join_lines "" (strip (text_of cell))

-- s.split(), with the word that is open
unfoldable pub split_words : String → String → List String
unfolding is_space
split_words word String.[] = if nonempty word then word ∷ [] else []
split_words word (String.◌∷◌ c s) =
    let rest = split_words (if is_space c then "" else word +++ one_char c) s in
    if is_space c && nonempty word then word ∷ rest else rest

unfoldable pub split : String → List String
unfolding split_words
split s = split_words "" s

-- part in s
unfoldable pub has_part : String → String → Bool
has_part part String.[] = not (nonempty part)
has_part part (String.◌∷◌ c s) = starts_with (String.◌∷◌ c s) part || has_part part s
