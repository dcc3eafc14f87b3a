-- ===== src/Schedules/Marks.antt =====
-- The patterns that tell a schedule's data rows: the mark, room and tag grammars of
-- src/pipeline/phase2_schedule_parser.py and src/takeoff/quantity_schedules.py, and the numbers in a
-- cell. A pattern is a function that consumes the front of a text, as far as it may.
use Prim.Native.Char.{Char, code}
use Prim.Native.String.{◌++◌ as ◌+++◌}
use mathlib.Core.Option.{bind, map as map_option}
use construction_harness.Prelude.{
  leb, nat_beq, if◌then◌else◌, nonempty, ◌==◌, nat_eq, string_eq, pair_eq, ℕ, zero, suc, ◌+◌, ◌*◌,
  String, Bool, true, false, not, ◌&&◌, ◌||◌, Option, none, some, char_count,
}
use construction_harness.Schedules.Cells.{
  char_digit, digit_value, is_digit, is_upper, is_word, is_alnum, drop_while, strip, Cell, text_of,
}

-- One character of a class, at most n of them, all of them.
unfoldable pub one_of : (Char → Bool) → String → Option String
one_of p String.[] = none
one_of p (String.◌∷◌ c s) = if p c then some s else none

unfoldable pub up_to : ℕ → (Char → Bool) → String → String
up_to zero p s = s
up_to (suc n) p String.[] = ""
up_to (suc n) p (String.◌∷◌ c s) = let rest = up_to n p s in if p c then rest else String.◌∷◌ c s

-- $ of a pattern stands at the end, or before a last newline.
abbrev at_end : String → Bool
at_end s = not (nonempty s) || s == "\n"

abbrev ends : (String → Bool) → Option String → Bool
ends p none = false
ends p (some s) = p s

-- [NS][A-Z]?\d{2}[A-Z]{0,2}, and what is left of the text
unfoldable pub mark_token : String → Option String
unfolding bind one_of up_to drop_while is_upper is_digit
mark_token s =
    map_option (λ rest. up_to 2 is_upper (drop_while is_digit rest))
      (bind
        (bind (one_of (λ c. nat_beq (code c) b'N' || nat_beq (code c) b'S') s)
          (λ rest. one_of is_digit (up_to 1 is_upper rest)))
        (one_of is_digit))

-- DOOR_MARK_RE.match
unfoldable pub is_door_mark : String → Bool
unfolding mark_token
is_door_mark s = ends at_end (mark_token s)

-- _MARK_TOKEN_RE.fullmatch
unfoldable pub is_mark_token : String → Bool
unfolding mark_token
is_mark_token s = ends (λ rest. not (nonempty rest)) (mark_token s)

-- ROOM_RE.match: [NS]\d{3}[A-Z]?
unfoldable pub is_room : String → Bool
unfolding bind one_of up_to is_upper is_digit
is_room s =
    ends (λ rest. at_end (up_to 1 is_upper rest))
      (bind
        (bind
          (bind (one_of (λ c. nat_beq (code c) b'N' || nat_beq (code c) b'S') s) (one_of is_digit))
          (one_of is_digit))
        (one_of is_digit))

-- _CATALOG_TAG_RE.match of the stripped cell: [A-Z], or [A-Z]{1,4}-?\d+[A-Z]?
unfoldable pub looks_like_tag : String → Bool
unfolding bind one_of up_to drop_while is_upper is_digit strip
looks_like_tag cell =
    let letter = one_of is_upper (strip cell) in
    ends at_end letter
    || ends (λ rest. at_end (up_to 1 is_upper (drop_while is_digit rest)))
        (bind letter
          (λ rest. one_of is_digit (up_to 1 (λ c. nat_beq (code c) b'-') (up_to 3 is_upper rest))))

unfoldable pub all_chars : (Char → Bool) → String → Bool
all_chars p String.[] = true
all_chars p (String.◌∷◌ c s) = p c && all_chars p s

-- _looks_like_mark: two to eight letters and digits, of which one is a digit
unfoldable pub looks_like_mark : String → Bool
unfolding all_chars is_alnum is_word is_upper is_digit
looks_like_mark cell =
    leb 2 (char_count cell)
    && leb (char_count cell) 8
    && all_chars is_alnum cell
    && not (all_chars (λ c. not (is_digit c)) cell)

-- The digits at the front, and the number that they write.
unfoldable pub digits_value : ℕ → String → ℕ
unfolding char_digit digit_value
digits_value n String.[] = n
digits_value n (String.◌∷◌ c s) =
    let rest = λ (d : ℕ). digits_value (10 * n + d) s in
    elim (char_digit c) [ none ↦ n | some d ↦ rest d ]

-- _fire_rating: the first run of digits as a number
unfoldable pub fire_rating : Cell → Option ℕ
unfolding drop_while is_digit digits_value
fire_rating cell =
    let found = drop_while (λ c. not (is_digit c)) (text_of cell) in
    if nonempty found then some (digits_value 0 found) else none

-- The text at the front of the first that stands before the second: what a match has consumed.
unfoldable pub take_while : (Char → Bool) → String → String
take_while p String.[] = ""
take_while p (String.◌∷◌ c s) = let rest = take_while p s in if p c then String.◌∷◌ c rest else ""

abbrev digits_after : Option String → String
unfolding take_while is_digit
digits_after none = ""
digits_after (some s) = take_while is_digit s

-- (?:\.\d+)? after the digits
unfoldable pub fraction_of : String → String
unfolding one_of take_while is_digit
fraction_of rest =
    let digits = digits_after (one_of (λ c. nat_beq (code c) b'.') rest) in
    if nonempty digits then "." +++ digits else ""

-- \d+(?:\.\d+)? at the front of a text
unfoldable pub number_at : String → String
unfolding take_while drop_while fraction_of is_digit
number_at s =
    let whole = take_while is_digit s in
    if nonempty whole then whole +++ fraction_of (drop_while is_digit s) else ""

abbrev signed : Char → String → String
signed c number = if nat_beq (code c) b'-' && nonempty number then "-" +++ number else ""

-- _NUM_RE.search: the first match of -?\d+(?:\.\d+)?, or "" for none
unfoldable pub find_number : String → String
unfolding number_at
find_number String.[] = ""
find_number (String.◌∷◌ c s) =
    let rest = find_number s in
    let here = number_at (String.◌∷◌ c s) in
    let negative = signed c (number_at s) in
    if nonempty negative then negative else if nonempty here then here else rest
