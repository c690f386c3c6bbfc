-- ===== src/Domain/Signature/Parse.antt =====
-- src/core/domain/signature.py: the parsers that turn captured output into a signature.
-- Paths are read as on POSIX.
use self_healing_system_tfg.Base.{
  Bool, true, false, not, ◌&&◌, ◌||◌, List, [], ◌∷◌, ◌++◌, Option, none, some, if◌then◌else◌, any,
}
use self_healing_system_tfg.Python.Text.{
  Text, text, truthy, strip, starts_with, ends_with, splitlines, has_char, replace_char,
}
use self_healing_system_tfg.Python.Regex.{
  Unicode, Spot, match_start, find_first, find_all, sub_all, group_or_empty, literal,
}
use self_healing_system_tfg.Python.Paths.{
  PurePath, parse_path, as_posix, last_part, relative_to, is_relative_to,
}
use self_healing_system_tfg.Domain.Signature.{ErrorKind, crash, test, ErrorSignature}
use self_healing_system_tfg.Domain.Signature.Patterns.{
  trace_frame, pytest_frame, pytest_summary, pytest_error_line, exc_line, passed_word, failed_word,
  line_number, node_id_pattern, hex_address, white_space,
}

abbrev last? {ℓ} : {A : Type ℓ} → List A → Option A
last? [] = none
last? (x ∷ []) = some x
last? (x ∷ y ∷ xs) = last? (y ∷ xs)

-- `_resolved`
unfoldable pub resolved : Text → PurePath
unfolding replace_char parse_path
resolved path = parse_path (replace_char b'\\' b'/' path)

-- `_is_inside`
unfoldable pub is_inside : Text → PurePath → Bool
unfolding resolved is_relative_to
is_inside path root = is_relative_to (resolved path) root

-- `_to_rel`
unfoldable pub to_rel : Text → Text → Text
unfolding resolved relative_to as_posix last_part
to_rel path workspace_root =
    let p = resolved path in
    if truthy workspace_root
    then elim (relative_to p (resolved workspace_root)) [
      | some below ↦ as_posix below
      | none ↦ last_part p.parts
    ]
    else last_part p.parts

-- `_frame_label`
unfoldable pub frame_label : Text → Text → Text
frame_label rel func = if truthy func then rel ++ (b':' ∷ []) ++ func else rel

-- `_EXC_SUFFIXES`
unfoldable pub exc_suffixes : List Text
unfolding text
exc_suffixes =
    text "Error"
    ∷ text "Exception"
    ∷ text "Exit"
    ∷ text "Interrupt"
    ∷ text "Warning"
    ∷ text "Iteration"
    ∷ []

-- The prefixes of the lines that `_parse_exception_line` skips.
unfoldable pub skipped_prefixes : List Text
unfolding text
skipped_prefixes = text "File \"" ∷ text "Traceback" ∷ text "    " ∷ (9 ∷ []) ∷ []

module _ (u : Unicode) where
  -- The body of the loop of `_parse_exception_line`: an exception type and its message, or `continue`.
  unfoldable pub exception_of_line : Text → Option (Text × Text)
  unfolding strip starts_with ends_with has_char match_start group_or_empty exc_line exc_suffixes
      skipped_prefixes
  exception_of_line line =
      let candidate = strip line in
      if not (truthy candidate) || any (starts_with candidate) skipped_prefixes
      then none
      else elim (match_start (exc_line u) candidate) [
        | none ↦ none
        | some m ↦
            let exc = group_or_empty 1 m in
            if has_char b'.' exc || any (ends_with exc) exc_suffixes
            then some (exc, strip (group_or_empty 2 m))
            else none
      ]

  -- The loop from the last line up: the lowest line that has an exception.
  unfoldable pub lowest_exception : List Text → Option (Text × Text)
  unfolding exception_of_line
  lowest_exception [] = none
  lowest_exception (line ∷ lines) = elim (lowest_exception lines) [
    | some found ↦ some found
    | none ↦ exception_of_line line
  ]

  -- `_parse_exception_line`
  unfoldable pub parse_exception_line : Text → Text × Text
  unfolding lowest_exception strip splitlines
  parse_exception_line s = elim (lowest_exception (splitlines (strip s))) [
    | some found ↦ found
    | none ↦ ([], elim (last? (splitlines (strip s))) [ some line ↦ strip line | none ↦ [] ])
  ]

  -- The labels of the frames inside the workspace; there are none when no workspace is given.
  unfoldable pub workspace_frames : Text → List Spot → List Text
  unfolding is_inside to_rel frame_label group_or_empty resolved
  workspace_frames workspace_root [] = []
  workspace_frames workspace_root (m ∷ ms) =
      let path = group_or_empty 1 m in
      let rest = workspace_frames workspace_root ms in
      if truthy workspace_root && is_inside path (resolved workspace_root)
      then frame_label (to_rel path workspace_root) (group_or_empty 3 m) ∷ rest
      else rest

  -- `_innermost_workspace_frame`
  unfoldable pub innermost_workspace_frame : Text → Text → Text
  unfolding workspace_frames find_all trace_frame parse_path last_part frame_label group_or_empty
  innermost_workspace_frame s workspace_root =
      let frames = find_all (trace_frame u) s in
      elim (last? (workspace_frames workspace_root frames)) [
        | some inner ↦ inner
        | none ↦ elim (last? frames) [
          | none ↦ []
          | some m ↦
              frame_label (last_part (parse_path (group_or_empty 1 m)).parts) (group_or_empty 3 m)
        ]
      ]

  -- `_normalize_message`
  unfoldable pub normalize_message : Text → Text → Text
  unfolding sub_all literal text strip replace_char line_number hex_address white_space
  normalize_message message workspace_root =
      let local =
        if truthy workspace_root
        then sub_all (literal (replace_char b'\\' b'/' workspace_root)) []
            (sub_all (literal workspace_root) [] message)
        else message in
      let no_hex = sub_all hex_address (text "0xADDR") local in
      let no_line = sub_all (line_number u) (text "line N") no_hex in
      if truthy message then u.lower (strip (sub_all white_space (b' ' ∷ []) no_line)) else []

  unfoldable pub from_crash_text : Text → Text → Option ErrorSignature
  unfolding strip parse_exception_line innermost_workspace_frame normalize_message
  from_crash_text s workspace_root =
      let (exc, message) = parse_exception_line s in
      let location = innermost_workspace_frame s workspace_root in
      if not (truthy (strip s)) || not (truthy exc) && not (truthy location)
      then none
      else some (record {
        kind = crash;
        exc_type = exc;
        location = location;
        normalized_msg = normalize_message message workspace_root;
      })

  -- `re.search(r"\bpassed\b", text) and not re.search(r"\b(failed|error)\b", text, re.I)`
  unfoldable pub looks_green : Text → Bool
  unfolding find_first passed_word failed_word
  looks_green s = elim (find_first (passed_word u) s) [
    | none ↦ false
    | some _ ↦ elim (find_first (failed_word u) s) [ none ↦ true | some _ ↦ false ]
  ]

  -- The type and message of a pytest run: of its last `E` line, else of its summary line.
  unfoldable pub pytest_exception : Text → Text × Text
  unfolding find_first find_all pytest_summary pytest_error_line group_or_empty
  pytest_exception s =
      let (exc, message) : Text × Text = elim (find_first (pytest_summary u) s) [
        | none ↦ ([], [])
        | some m ↦ (group_or_empty 2 m, group_or_empty 3 m)
      ] in
      elim (last? (find_all (pytest_error_line u) s)) [
        | none ↦ (exc, message)
        | some e ↦ (
          if truthy (group_or_empty 1 e) then group_or_empty 1 e else exc,
          if truthy (group_or_empty 2 e) then group_or_empty 2 e else message,
        )
      ]

  -- The location: the summary's node id, else any node id, else the first pytest frame.
  unfoldable pub pytest_location : Text → Text → Text
  unfolding find_first pytest_summary node_id_pattern pytest_frame group_or_empty to_rel
  pytest_location s workspace_root =
      let fallback : Text = elim (find_first node_id_pattern s) [
        | some m ↦ group_or_empty 1 m
        | none ↦ elim (find_first (pytest_frame u) s) [
          | none ↦ []
          | some m ↦ to_rel (group_or_empty 1 m) workspace_root ++ (b':' ∷ []) ++ group_or_empty 3 m
        ]
      ] in
      elim (find_first (pytest_summary u) s) [
        | none ↦ fallback
        | some m ↦ if truthy (group_or_empty 1 m) then group_or_empty 1 m else fallback
      ]

  unfoldable pub from_pytest_output : Text → Text → Option ErrorSignature
  unfolding strip looks_green pytest_exception pytest_location normalize_message
  from_pytest_output s workspace_root =
      let (exc, message) = pytest_exception s in
      let location = pytest_location s workspace_root in
      if not (truthy (strip s)) || looks_green s || not (truthy exc || truthy location)
      then none
      else some (record {
        kind = test;
        exc_type = exc;
        location = location;
        normalized_msg = normalize_message message workspace_root;
      })

  unfoldable pub parse_error : Text → ErrorKind → Text → Option ErrorSignature
  unfolding from_crash_text from_pytest_output
  parse_error s crash workspace_root = from_crash_text s workspace_root
  parse_error s test workspace_root = from_pytest_output s workspace_root
