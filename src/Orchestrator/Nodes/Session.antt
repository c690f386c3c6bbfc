-- ===== src/Orchestrator/Nodes/Session.antt =====
-- The session's regression file: the helpers of src/orchestrator/nodes.py that read and write it.
pub mod Raises
use self_healing_system_tfg.Base.{
  not, ◌&&◌, ◌||◌, List, [], ◌∷◌, ◌++◌, Option, none, some, if◌then◌else◌,
}
use self_healing_system_tfg.Python.Text.{Text, text, truthy, rstrip, starts_with, ends_with}
use self_healing_system_tfg.Python.Effects.{
  Exn, os_error, file_not_found, Py, pure, throw, rescue, ◌>>=◌, ◌>>◌,
}
use self_healing_system_tfg.Python.Files.{
  exists, mkdir_parent, read_text, write_text, append_text, unlink,
}
use self_healing_system_tfg.Python.Paths.{parse_path, path_join, as_posix}
use self_healing_system_tfg.Python.Platform.{Platform}

-- `str(Path(workspace) / rel_path)`
unfoldable pub session_path : Text → Text → Text
unfolding parse_path path_join as_posix
session_path workspace rel_path = as_posix (path_join (parse_path workspace) (parse_path rel_path))

-- `except OSError: …`
abbrev pub except_os_error : {E A : Type 0} → Py E A → Exn → Py E A
except_os_error handler (os_error m) = handler
except_os_error handler (file_not_found m) = handler
except_os_error handler e = throw e

unfoldable pub session_header : Text → Text
unfolding text
session_header session_id =
    text "\"\"\"Self-healing regression suite for session "
    ++ session_id
    ++ text ".\n\nAuto-generated; one test is appended per healed error.\n\"\"\"\n"

abbrev first_test : List Text → Text
first_test [] = text "test_regression"
first_test (name ∷ names) = if starts_with name (text "test_") then name else first_test names

-- `_first_test_func`
unfoldable pub first_test_func : Platform → Text → Text
unfolding text starts_with
first_test_func p source = elim (p.ast_functions source) [
  | none ↦ text "test_regression"
  | some names ↦ first_test names
]

unfoldable pub test_node_id : Platform → Text → Text → Text
unfolding first_test_func text
test_node_id p rel_path source = rel_path ++ text "::" ++ first_test_func p source

-- What `_append_regression_test` writes after `existing`.
unfoldable pub appended_text : Text → Text → Text
unfolding ends_with text rstrip
appended_text existing source =
    (if ends_with existing (text "\n\n") || not (truthy existing) then [] else text "\n\n")
    ++ rstrip source
    ++ text "\n"

module _ {E : Type 0} where
  -- `_ensure_session_test_file`
  unfoldable pub ensure_session_test_file : Text → Text → Text → Py E (Unit {0})
  unfolding session_path exists mkdir_parent write_text session_header
  ensure_session_test_file workspace rel_path session_id =
      let path = session_path workspace rel_path in
      let create : Py E (Unit {0}) = (do
        mkdir_parent path
        write_text path (session_header session_id)) in
      let body : Py E (Unit {0}) = (do found ← exists path; if found then pure tt else create) in
      if truthy workspace then rescue body (except_os_error (pure tt)) else pure tt

  -- `_read_session_text`
  unfoldable pub read_session_text : Text → Text → Py E (Option Text)
  unfolding session_path exists read_text
  read_session_text workspace rel_path =
      let path = session_path workspace rel_path in
      let read : Py E (Option Text) = (do content ← read_text path; pure (some content)) in
      let body : Py E (Option Text) = (do found ← exists path; if found then read else pure none) in
      if truthy workspace && truthy rel_path
      then rescue body (except_os_error (pure none))
      else pure none

  abbrev pub restore : Text → Option Text → Py E (Unit {0})
  restore path none = unlink path
  restore path (some content) = write_text path content

  -- `_restore_session_text`
  unfoldable pub restore_session_text : Text → Text → Option Text → Py E (Unit {0})
  unfolding session_path unlink write_text
  restore_session_text workspace rel_path content =
      if truthy workspace && truthy rel_path
      then rescue (restore (session_path workspace rel_path) content) (except_os_error (pure tt))
      else pure tt

  -- `path.read_text() if path.exists() else ""`
  unfoldable pub existing_text : Text → Py E Text
  unfolding exists read_text
  existing_text path = do found ← exists path; if found then read_text path else pure []

  -- `_append_regression_test`
  unfoldable pub append_regression_test : Platform → Text → Text → Text → Py E Text
  unfolding session_path mkdir_parent existing_text append_text appended_text test_node_id
  append_regression_test p workspace rel_path source =
      let node_id = test_node_id p rel_path source in
      let path = session_path workspace rel_path in
      let body : Py E (Unit {0}) = (do
        mkdir_parent path
        existing ← existing_text path
        append_text path (appended_text existing source)) in
      let attempt : Py E Text = (do rescue body (except_os_error (pure tt)); pure node_id) in
      if truthy workspace then attempt else pure node_id
