-- ===== src/Python/Regex.antt =====
-- Python's `re`: a backtracking matcher with captures, for the constructs that the program's
-- patterns use. Alternatives are tried from the left, and a greedy repetition as often as it can.
use self_healing_system_tfg.Base.{
  ℕ, zero, suc, ◌-◌, Bool, true, false, not, ◌&&◌, ◌||◌, List, [], ◌∷◌, ◌++◌, Option, none, some,
  ltb, leb, ◌==◌, if◌then◌else◌, length, take,
}
use self_healing_system_tfg.Python.Text.{Text, is_space}

-- What the Unicode database says: `str.isalnum`, `str.isdecimal`, `str.isprintable`, `str.lower`.
pub record Unicode : Type 0 where
  pub alnum : ℕ → Bool
  pub decimal : ℕ → Bool
  pub printable : ℕ → Bool
  pub lower : Text → Text

pub data Regex : Type 0 where
  empty : Regex
  one_of : (ℕ → Bool) → Regex
  seq alt : Regex → Regex → Regex
  star lazy_star : Regex → Regex
  group : ℕ → Regex → Regex
  line_start line_end text_start text_end : Regex
  word_edge : (ℕ → Bool) → Regex
  ahead : Regex → Regex

-- A place in the text: the character before it, the text from there on, and the groups so far.
pub record Spot : Type 0 where
  pub prev : Option ℕ
  pub rest : Text
  pub groups : List (ℕ × Text)

abbrev pub Matcher : Type 0
Matcher = Spot → (Spot → Option Spot) → Option Spot

-- One character of a class, then the rest of the pattern.
unfoldable pub step_over : (ℕ → Bool) → Spot → (Spot → Option Spot) → Text → Option Spot
step_over p at_ k [] = none
step_over p at_ k (c ∷ s) = elim (p c) [
  | true ↦ k (record at_ { prev = some c; rest = s })
  | false ↦ none
]

-- The rounds of a repetition; one that consumes nothing ends it, so the text's length is fuel enough.
star_loop : Matcher → ℕ → Matcher
star_loop m zero at_ k = k at_
star_loop m (suc fuel) at_ k =
    elim (m at_ (λ next. elim (ltb (length next.rest) (length at_.rest)) [
      | true ↦ star_loop m fuel next k
      | false ↦ none
    ])) [ some end ↦ some end | none ↦ k at_ ]

lazy_loop : Matcher → ℕ → Matcher
lazy_loop m zero at_ k = k at_
lazy_loop m (suc fuel) at_ k = elim (k at_) [
  | some end ↦ some end
  | none ↦ m at_ (λ next. elim (ltb (length next.rest) (length at_.rest)) [
    | true ↦ lazy_loop m fuel next k
    | false ↦ none
  ])
]

abbrev pub consumed : Spot → Spot → Text
consumed start end = take (length start.rest - length end.rest) start.rest

abbrev at_line_start : Option ℕ → Bool
at_line_start none = true
at_line_start (some c) = c == 10

abbrev at_line_end : Text → Bool
at_line_end [] = true
at_line_end (c ∷ _) = c == 10

-- `$` without `re.M`: the end, or the place before a last line end.
abbrev at_text_end : Text → Bool
at_text_end [] = true
at_text_end (c ∷ []) = c == 10
at_text_end (c ∷ d ∷ _) = false

abbrev at_text_start : Option ℕ → Bool
at_text_start none = true
at_text_start (some _) = false

abbrev is_word_at : (ℕ → Bool) → Option ℕ → Bool
is_word_at w none = false
is_word_at w (some c) = w c

abbrev first_char : Text → Option ℕ
first_char [] = none
first_char (c ∷ _) = some c

abbrev pub same : Bool → Bool → Bool
same true b = b
same false b = not b

unfoldable pub run_regex : Regex → Matcher
unfolding step_over star_loop lazy_loop
run_regex empty at_ k = k at_
run_regex (one_of p) at_ k = step_over p at_ k at_.rest
run_regex (seq r s) at_ k = run_regex r at_ (λ mid. run_regex s mid k)
run_regex (alt r s) at_ k = elim (run_regex r at_ k) [
  | some end ↦ some end
  | none ↦ run_regex s at_ k
]
run_regex (star r) at_ k = star_loop (run_regex r) (suc (length at_.rest)) at_ k
run_regex (lazy_star r) at_ k = lazy_loop (run_regex r) (suc (length at_.rest)) at_ k
run_regex (group n r) at_ k =
    run_regex r at_ (λ end. k (record end { groups = (n, consumed at_ end) ∷ end.groups }))
run_regex line_start at_ k = elim (at_line_start at_.prev) [ true ↦ k at_ | false ↦ none ]
run_regex line_end at_ k = elim (at_line_end at_.rest) [ true ↦ k at_ | false ↦ none ]
run_regex text_start at_ k = elim (at_text_start at_.prev) [ true ↦ k at_ | false ↦ none ]
run_regex text_end at_ k = elim (at_text_end at_.rest) [ true ↦ k at_ | false ↦ none ]
run_regex (word_edge w) at_ k =
    elim (same (is_word_at w at_.prev) (is_word_at w (first_char at_.rest))) [
      | true ↦ none
      | false ↦ k at_
    ]
run_regex (ahead r) at_ k = elim (run_regex r at_ some) [ some _ ↦ k at_ | none ↦ none ]

-- `pattern.match(text)` at the text's start.
unfoldable pub match_start : Regex → Text → Option Spot
unfolding run_regex
match_start r s = run_regex r (record { prev = none; rest = s; groups = [] }) some

-- `pattern.search` from a place on: where the match begins and where it ends.
unfoldable pub search_from : Regex → Option ℕ → Text → Option (Text × Spot)
unfolding run_regex
search_from r prev [] = elim (run_regex r (record { prev = prev; rest = []; groups = [] }) some) [
  | some end ↦ some ([], end)
  | none ↦ none
]
search_from r prev (c ∷ s) =
    elim (run_regex r (record { prev = prev; rest = c ∷ s; groups = [] }) some) [
      | some end ↦ some (c ∷ s, end)
      | none ↦ search_from r (some c) s
    ]

unfoldable pub find_first : Regex → Text → Option Spot
unfolding search_from
find_first r s = elim (search_from r none s) [ some (_, end) ↦ some end | none ↦ none ]

-- `pattern.finditer(text)`, for a pattern that matches no empty text.
unfoldable pub find_from : ℕ → Regex → Option ℕ → Text → List Spot
unfolding search_from
find_from zero r prev s = []
find_from (suc fuel) r prev s = elim (search_from r prev s) [
  | some (_, end) ↦ end ∷ find_from fuel r end.prev end.rest
  | none ↦ []
]

unfoldable pub find_all : Regex → Text → List Spot
unfolding find_from
find_all r s = find_from (suc (length s)) r none s

-- `pattern.sub(repl, text)`, for a pattern that matches no empty text.
unfoldable pub sub_from : ℕ → Regex → Text → Option ℕ → Text → Text
unfolding search_from
sub_from zero r repl prev s = s
sub_from (suc fuel) r repl prev s = elim (search_from r prev s) [
  | some (start, end) ↦
      take (length s - length start) s ++ repl ++ sub_from fuel r repl end.prev end.rest
  | none ↦ s
]

unfoldable pub sub_all : Regex → Text → Text → Text
unfolding sub_from
sub_all r repl s = sub_from (suc (length s)) r repl none s

-- `m.group(n)`: what the group matched last, if it took part.
unfoldable pub group_of : ℕ → List (ℕ × Text) → Option Text
group_of n [] = none
group_of n ((m, t) ∷ gs) = if m == n then some t else group_of n gs

-- `m.group(n) or ""`
unfoldable pub group_or_empty : ℕ → Spot → Text
unfolding group_of
group_or_empty n end = elim (group_of n end.groups) [ some t ↦ t | none ↦ [] ]

-- Notation for patterns.
abbrev pub plus : Regex → Regex
plus r = seq r (star r)

abbrev pub optional : Regex → Regex
optional r = alt r empty

unfoldable pub literal : Text → Regex
literal [] = empty
literal (c ∷ s) = seq (one_of (λ d. d == c)) (literal s)

-- A letter with `re.I`: `i` also stands for the two Turkish letters, as in Python.
unfoldable pub any_case : Text → Regex
any_case [] = empty
any_case (c ∷ s) =
    seq (one_of (λ d. d == c || d == c - 32 || (c == b'i' && (d == 0x130 || d == 0x131))))
      (any_case s)

unfoldable pub any_char : ℕ → Bool
any_char c = not (c == 10)

unfoldable pub non_space : ℕ → Bool
unfolding is_space
non_space c = not (is_space c)

unfoldable pub word_char : Unicode → ℕ → Bool
word_char u c = u.alnum c || c == b'_'

unfoldable pub ascii_alpha : ℕ → Bool
ascii_alpha c = (leb b'a' c && leb c b'z') || (leb b'A' c && leb c b'Z')
