-- ===== src/Python/Text.antt =====
-- Python's `str` as a list of code points, with the methods that the program calls.
-- `text "abc"` is a literal; it stays shut, so a proof never walks a long message.
pub mod Lemmas
use Prim.Native.Char.{code}
use Prim.Native.String.{String}
use self_healing_system_tfg.Base.{
  ℕ, zero, suc, ◌+◌, ◌/◌, ◌%◌, Bool, true, false, not, ◌&&◌, ◌||◌, List, [], ◌∷◌, ◌++◌, Option,
  none, some, ltb, leb, ◌==◌, if◌then◌else◌,
}

abbrev pub Text : Type 0
Text = List ℕ

unfoldable pub text : String → Text
text String.[] = []
text (String.◌∷◌ c s) = code c ∷ text s

unfoldable pub text_eq : Text → Text → Bool
text_eq [] [] = true
text_eq [] (d ∷ t) = false
text_eq (c ∷ s) [] = false
text_eq (c ∷ s) (d ∷ t) = c == d && text_eq s t

-- `bool(s)`
abbrev pub truthy {ℓ} : {A : Type ℓ} → List A → Bool
truthy [] = false
truthy (_ ∷ _) = true

-- The characters for which `str.isspace` holds, and which `\s` matches.
unfoldable pub is_space : ℕ → Bool
is_space c =
    (leb 9 c && leb c 13)
    || (leb 28 c && leb c 32)
    || (c == 0x85)
    || (c == 0xa0)
    || (c == 0x1680)
    || (leb 0x2000 c && leb c 0x200a)
    || (leb 0x2028 c && leb c 0x2029)
    || (c == 0x202f)
    || (c == 0x205f)
    || (c == 0x3000)

-- The line ends of `str.splitlines`; `\r\n` is one of them together.
unfoldable pub is_line_end : ℕ → Bool
is_line_end c =
    (leb 10 c && leb c 13)
    || (leb 28 c && leb c 30)
    || (c == 0x85)
    || (leb 0x2028 c && leb c 0x2029)

unfoldable pub lstrip_by : (ℕ → Bool) → Text → Text
lstrip_by p [] = []
lstrip_by p (c ∷ s) = if p c then lstrip_by p s else c ∷ s

unfoldable pub rstrip_by : (ℕ → Bool) → Text → Text
rstrip_by p [] = []
rstrip_by p (c ∷ s) = let rest = rstrip_by p s in if p c && not (truthy rest) then [] else c ∷ rest

unfoldable pub strip : Text → Text
unfolding lstrip_by rstrip_by is_space
strip s = lstrip_by is_space (rstrip_by is_space s)

unfoldable pub rstrip : Text → Text
unfolding rstrip_by is_space
rstrip s = rstrip_by is_space s

unfoldable pub starts_with : Text → Text → Bool
starts_with s [] = true
starts_with [] (p ∷ ps) = false
starts_with (c ∷ s) (p ∷ ps) = c == p && starts_with s ps

unfoldable pub ends_with : Text → Text → Bool
unfolding text_eq
ends_with [] p = text_eq [] p
ends_with (c ∷ s) p = text_eq (c ∷ s) p || ends_with s p

-- `c in s`
unfoldable pub has_char : ℕ → Text → Bool
has_char c [] = false
has_char c (d ∷ s) = d == c || has_char c s

-- `s.replace(c, d)` for single characters.
unfoldable pub replace_char : ℕ → ℕ → Text → Text
replace_char c d [] = []
replace_char c d (e ∷ s) = (if e == c then d else e) ∷ replace_char c d s

-- `sep.join(parts)`
unfoldable pub join : Text → List Text → Text
join sep [] = []
join sep (p ∷ []) = p
join sep (p ∷ q ∷ ps) = p ++ sep ++ join sep (q ∷ ps)

-- `s.split(c)` for a separator of one character.
unfoldable pub split_from : ℕ → Text → Text → List Text
split_from c acc [] = acc ∷ []
split_from c acc (d ∷ s) =
    let next = split_from c [] s in
    let more = split_from c (acc ++ d ∷ []) s in if d == c then acc ∷ next else more

unfoldable pub split_on : ℕ → Text → List Text
unfolding split_from
split_on c s = split_from c [] s

-- `\r\n` is one line end: its first half is dropped.
unfoldable pub join_crlf : Text → Text
unfolding starts_with
join_crlf [] = []
join_crlf (c ∷ s) =
    let rest = join_crlf s in if c == 13 && starts_with s (10 ∷ []) then rest else c ∷ rest

unfoldable pub lines_from : Text → Text → List Text
unfolding is_line_end
lines_from [] [] = []
lines_from (a ∷ acc) [] = (a ∷ acc) ∷ []
lines_from acc (c ∷ s) =
    let next = lines_from [] s in
    let more = lines_from (acc ++ c ∷ []) s in if is_line_end c then acc ∷ next else more

-- `s.splitlines()`: there is no line after a final line end.
unfoldable pub splitlines : Text → List Text
unfolding lines_from join_crlf
splitlines s = lines_from [] (join_crlf s)

-- `str(n)`: the digits, by division; `n + 1` rounds are enough.
unfoldable pub digits_from : ℕ → ℕ → Text → Text
digits_from zero n acc = acc
digits_from (suc fuel) n acc =
    let digit = (48 + n % 10) ∷ acc in
    let rest = digits_from fuel (n / 10) digit in if ltb n 10 then digit else rest

unfoldable pub str_nat : ℕ → Text
unfolding digits_from
str_nat n = digits_from (suc n) n []

abbrev hex_char : ℕ → ℕ
hex_char d = if ltb d 10 then 48 + d else 87 + d

-- `n` in hexadecimal, in `width` digits.
unfoldable pub hex_fixed : ℕ → ℕ → Text → Text
hex_fixed zero n acc = acc
hex_fixed (suc width) n acc = hex_fixed width (n / 16) (hex_char (n % 16) ∷ acc)

-- One character of `repr(s)`, in a literal between `quote`s.
unfoldable pub repr_char : (ℕ → Bool) → ℕ → ℕ → Text
unfolding hex_fixed
repr_char printable quote c =
    if c == quote || c == b'\\'
    then b'\\' ∷ c ∷ []
    else if c == 9
    then b'\\' ∷ b't' ∷ []
    else if c == 10
    then b'\\' ∷ b'n' ∷ []
    else if c == 13
    then b'\\' ∷ b'r' ∷ []
    else if printable c
    then c ∷ []
    else if ltb c 0x100
    then b'\\' ∷ b'x' ∷ hex_fixed 2 c []
    else if ltb c 0x10000
    then b'\\' ∷ b'u' ∷ hex_fixed 4 c []
    else b'\\' ∷ b'U' ∷ hex_fixed 8 c []

unfoldable pub repr_chars : (ℕ → Bool) → ℕ → Text → Text
unfolding repr_char
repr_chars printable quote [] = []
repr_chars printable quote (c ∷ s) = repr_char printable quote c ++ repr_chars printable quote s

-- `repr(s)`: in single quotes, or in double ones if it holds a single and no double quote.
unfoldable pub text_repr : (ℕ → Bool) → Text → Text
unfolding repr_chars has_char
text_repr printable s =
    let quote = if has_char 39 s && not (has_char 34 s) then 34 else 39 in
    quote ∷ repr_chars printable quote s ++ quote ∷ []

-- `s.split("::", 1)[0]`
abbrev pub before_colons : Text → Text
before_colons [] = []
before_colons (c ∷ []) = c ∷ []
before_colons (c ∷ d ∷ s) =
    let rest = before_colons (d ∷ s) in if c == b':' && d == b':' then [] else c ∷ rest
