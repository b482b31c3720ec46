-- ===== src/Observability/Reading.antt =====
-- A reader of the Prometheus text format, as a scraper has it: one sample on each line that is no
-- comment, a name and a number with a space between them.
use Prim.Native.Char.{Char, code}
use Prim.Native.String.{[], ◌∷◌}
use timeoff_request.Base.{
  ℕ, ◌+◌, ◌*◌, ◌-◌, String, Option, none, some, Bool, true, false, not, ◌&&◌, List, leb, nat_eqb,
}
use mathlib.Core.Option
use mathlib.Core.List.{◌∷◌ as another, [] as no_lines}
use timeoff_request.Base.Int.{ℤ, pos, sub_ℕ}

-- the text up to the first line end, and the text after it
abbrev push : Char → String × String → String × String
push c (line, rest) = (c ∷ line, rest)

unfoldable pub break_at : ℕ → String → Option (String × String)
break_at stop [] = none
break_at stop (c ∷ s) = elim (nat_eqb (code c) stop) [
  | true ↦ some ([], s)
  | false ↦ Option.map (push c) (break_at stop s)
]

-- the value of a text of digits, after those of `n`
unfoldable pub read_digits : String → ℕ → Option ℕ
read_digits [] n = some n
read_digits (c ∷ s) n = elim (leb b'0' (code c) && leb (code c) b'9') [
  | true ↦ read_digits s (n * 10 + (code c - b'0'))
  | false ↦ none
]

abbrev pub read_int : String → Option ℤ
read_int [] = none
read_int (c ∷ s) = elim (nat_eqb (code c) b'-') [
  | true ↦ Option.map (sub_ℕ 0) (read_digits s 0)
  | false ↦ Option.map pos (read_digits (c ∷ s) 0)
]

abbrev named : String → Option ℤ → Option (String × ℤ)
named name none = none
named name (some z) = some (name, z)

abbrev read_sample : Option (String × String) → Option (String × ℤ)
read_sample none = none
read_sample (some (name, number)) = named name (read_int number)

abbrev pub is_comment : String → Bool
is_comment [] = false
is_comment (c ∷ s) = nat_eqb (code c) b'#'

unfoldable pub read_line : String → Option (String × ℤ)
unfolding break_at read_digits
read_line line = elim (is_comment line) [ true ↦ none | false ↦ read_sample (break_at b' ' line) ]

abbrev pub empty : String
empty = []

abbrev add_char : Char → String × List String → String × List String
add_char c (line, lines) = elim (nat_eqb (code c) b'\n') [
  | true ↦ (empty, another line lines)
  | false ↦ (c ∷ line, lines)
]

-- the first line, and the others
unfoldable pub lines_of : String → String × List String
lines_of [] = (empty, no_lines)
lines_of (c ∷ s) = add_char c (lines_of s)

abbrev pub all_lines : String → List String
all_lines text = let (line, lines) = lines_of text in another line lines

-- no character of this number
unfoldable pub lacks : ℕ → String → Bool
lacks k [] = true
lacks k (c ∷ s) = not (nat_eqb (code c) k) && lacks k s
