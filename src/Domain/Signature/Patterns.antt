-- ===== src/Domain/Signature/Patterns.antt =====
-- The regular expressions of src/core/domain/signature.py, one definition for each.
use self_healing_system_tfg.Base.{ℕ, Bool, not, ◌&&◌, ◌||◌, leb, ◌==◌}
use self_healing_system_tfg.Python.Text.{text, is_space}
use self_healing_system_tfg.Python.Regex.{
  Unicode, Regex, one_of, seq, alt, star, group, line_start, line_end, text_start, text_end,
  word_edge, plus, optional, literal, any_case, any_char, non_space, word_char, ascii_alpha,
}

infixr 60 ◌then_◌
abbrev pub ◌then_◌ : Regex → Regex → Regex
r then_ s = seq r s

abbrev pub lit : ℕ → Regex
lit c = one_of (λ d. d == c)

abbrev pub spaces : Regex
spaces = plus (one_of is_space)

abbrev pub solid : Regex
solid = plus (one_of non_space)

unfoldable pub hex_digit : ℕ → Bool
hex_digit c = (leb b'0' c && leb c b'9') || (leb b'A' c && leb c b'F') || (leb b'a' c && leb c b'f')

module _ (u : Unicode) where
  abbrev pub digits : Regex
  digits = plus (one_of u.decimal)

  -- `(?P<exc>[A-Za-z_][\w.]*)`
  unfoldable pub exc_name : ℕ → Regex
  unfolding ascii_alpha word_char
  exc_name n = group n (
      seq (one_of (λ c. ascii_alpha c || c == b'_'))
        (star (one_of (λ c. word_char u c || c == b'.'))))

  -- `(?::\s*(?P<msg>.*))?`
  unfoldable pub exc_message : ℕ → Regex
  unfolding is_space any_char
  exc_message n =
      optional (lit b':' then_ star (one_of is_space) then_ group n (star (one_of any_char)))

  -- `File "([^"]+)", line (\d+)(?:, in (\S+))?`
  unfoldable pub trace_frame : Regex
  unfolding literal text non_space
  trace_frame =
      literal (text "File \"")
      then_ group 1 (plus (one_of (λ c. not (c == b'"'))))
      then_ literal (text "\", line ")
      then_ group 2 digits
      then_ optional (literal (text ", in ") then_ group 3 solid)

  -- `^(?P<path>\S+\.py):(?P<line>\d+): in (?P<func>\S+)`
  unfoldable pub pytest_frame : Regex
  unfolding literal text non_space
  pytest_frame =
      line_start
      then_ group 1 (solid then_ literal (text ".py"))
      then_ lit b':'
      then_ group 2 digits
      then_ literal (text ": in ")
      then_ group 3 solid

  -- `^(?:FAILED|ERROR)\s+(?P<nodeid>\S+::\S+)(?:\s+-\s+(?P<exc>…)(?::\s*(?P<msg>.*))?)?`
  unfoldable pub pytest_summary : Regex
  unfolding literal text non_space is_space exc_name exc_message
  pytest_summary =
      line_start
      then_ alt (literal (text "FAILED")) (literal (text "ERROR"))
      then_ spaces
      then_ group 1 (solid then_ literal (text "::") then_ solid)
      then_ optional (spaces then_ lit b'-' then_ spaces then_ exc_name 2 then_ exc_message 3)

  -- `^E\s+(?P<exc>…)(?::\s*(?P<msg>.*))?$`
  unfoldable pub pytest_error_line : Regex
  unfolding is_space exc_name exc_message
  pytest_error_line =
      line_start then_ lit b'E' then_ spaces then_ exc_name 1 then_ exc_message 2 then_ line_end

  -- `^(?P<exc>…)(?::\s*(?P<msg>.*))?$`, without `re.M`.
  unfoldable pub exc_line : Regex
  unfolding exc_name exc_message
  exc_line = text_start then_ exc_name 1 then_ exc_message 2 then_ text_end

  -- `\bpassed\b`
  unfoldable pub passed_word : Regex
  unfolding literal text word_char
  passed_word = word_edge (word_char u) then_ literal (text "passed") then_ word_edge (word_char u)

  -- `\b(failed|error)\b` with `re.I`
  unfoldable pub failed_word : Regex
  unfolding any_case text word_char
  failed_word =
      word_edge (word_char u)
      then_ group 1 (alt (any_case (text "failed")) (any_case (text "error")))
      then_ word_edge (word_char u)

  -- `line \d+` with `re.I`
  unfoldable pub line_number : Regex
  unfolding any_case text
  line_number = any_case (text "line") then_ lit b' ' then_ digits

-- `(?P<nodeid>\S+\.py::\S+)`
unfoldable pub node_id_pattern : Regex
unfolding literal text non_space
node_id_pattern = group 1 (solid then_ literal (text ".py::") then_ solid)

-- `0x[0-9A-Fa-f]+`
unfoldable pub hex_address : Regex
unfolding literal text hex_digit
hex_address = literal (text "0x") then_ plus (one_of hex_digit)

-- `\s+`
unfoldable pub white_space : Regex
unfolding is_space
white_space = spaces
