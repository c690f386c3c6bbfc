-- ===== src/Scripts/Detect.antt =====
-- scripts/heal_and_pr.py: the detection of a failure, and the shielding of the files that it changed.
use self_healing_system_tfg.Base.{
  Bool, true, false, ◌&&◌, ◌||◌, List, [], ◌∷◌, ◌++◌, Option, none, some, ◌==◌, if◌then◌else◌, take,
  drop, last_n,
}
use self_healing_system_tfg.Python.Text.{
  Text, text, truthy, strip, splitlines, starts_with, is_space, lstrip_by, before_colons,
}
use self_healing_system_tfg.Python.Effects.{
  runtime_error, file_not_found, Py, pure, throw, rescue, ◌>>=◌, ◌>>◌,
}
use self_healing_system_tfg.Python.Files.{exists, read_text}
use self_healing_system_tfg.Python.Process.{ReturnCode, exited, killed_by, is_zero, str_code}
use self_healing_system_tfg.Domain.Enums.{test_failure}
use self_healing_system_tfg.Domain.Models.{TriggerEvent, new_failing_test, new_trigger}
use self_healing_system_tfg.Orchestrator.Nodes.Session.{session_path}
use self_healing_system_tfg.Scripts.Machine.{Machine, command, below, git, except_runtime}
use self_healing_system_tfg.Scripts.Session.{Rig}
use self_healing_system_tfg.Scripts.Benchmark.{
  output_of, trigger_or_raise, detect_crash, build_crash_report, build_trigger,
}

-- `\S+` at the start of a text.
unfoldable pub first_word : Text → Text
unfolding is_space
first_word [] = []
first_word (c ∷ s) = let rest = first_word s in if is_space c then [] else c ∷ rest

-- `\s+(?P<node>\S+)` at the start of a text.
unfoldable pub node_after : Text → Option Text
unfolding first_word is_space lstrip_by
node_after [] = none
node_after (c ∷ s) =
    let node = first_word (lstrip_by is_space s) in
    if is_space c && truthy node then some node else none

-- `(?:FAILED|ERROR)\s+(?P<node>\S+)` at the start of a text.
unfoldable pub node_at : Text → Option Text
unfolding node_after starts_with text
node_at s =
    if starts_with s (text "FAILED")
    then node_after (drop 6 s)
    else if starts_with s (text "ERROR")
    then node_after (drop 5 s)
    else none

-- `_FAILED_NODE_RE.search(s)`; the flag tells whether the text is at the start of a line.
unfoldable pub find_node : Bool → Text → Option Text
unfolding node_at
find_node at_line [] = none
find_node at_line (c ∷ s) =
    let later = find_node (c == b'\n') s in
    let here = if at_line then node_at (c ∷ s) else none in
    elim here [ none ↦ later | some node ↦ some node ]

-- `returncode in (0, 5)`: the suite is green, or has no test.
unfoldable pub is_green : ReturnCode → Bool
is_green (exited n) = n == 0 || n == 5
is_green (killed_by n) = false

-- What is to heal: its trigger, and the command that reproduces it, or no command.
abbrev pub Detected : Type 0
Detected = TriggerEvent × List Text

abbrev pub test_command : Text → List Text
test_command node =
    text "python" ∷ text "-m" ∷ text "pytest" ∷ node ∷ text "-x" ∷ text "--tb=short" ∷ []

module _ {E : Type 0} (m : Machine E) where
  -- `detect_failing_test`
  unfoldable pub detect_failing_test : Text → Text → Py E (Text × Text)
  unfolding exists session_path read_text output_of str_code text
  detect_failing_test repo_dir node_id = do
    let test_file = below repo_dir (before_colons node_id)
    found ← exists test_file
    if found
        then pure tt
        else throw (
            file_not_found
              (text "Test file not found for node '" ++ node_id ++ text "': " ++ test_file))
    result ← m.run (
        command
          (m.python
            ∷ text "-m"
            ∷ text "pytest"
            ∷ node_id
            ∷ text "-x"
            ∷ text "--tb=short"
            ∷ text "-q"
            ∷ [])
          (some repo_dir))
    if is_zero result.returncode
        then throw (
            runtime_error (
              text "'"
              ++ node_id
              ++ text "' passed (rc=0).  Expected a failing test.\nstdout: "
              ++ take 500 result.stdout))
        else pure tt
    source ← read_text test_file
    pure (
      source,
      output_of result.stdout result.stderr (
          text "pytest exited with code "
          ++ str_code result.returncode
          ++ text " but produced no output."),
    )

  -- `shield_runtime_artifacts`
  unfoldable pub shield_paths : Text → List Text → Py E (List Text)
  unfolding git text
  shield_paths repo_dir [] = pure []
  shield_paths repo_dir (path ∷ paths) = do
    git m (text "checkout" ∷ text "--" ∷ path ∷ []) (some repo_dir)
    git m (text "update-index" ∷ text "--skip-worktree" ∷ path ∷ []) (some repo_dir)
    shielded ← shield_paths repo_dir paths
    pure (path ∷ shielded)

  unfoldable pub stripped_lines : List Text → List Text
  unfolding strip
  stripped_lines [] = []
  stripped_lines (line ∷ lines) =
      let rest = stripped_lines lines in if truthy (strip line) then strip line ∷ rest else rest

  unfoldable pub shield_runtime_artifacts : Text → Py E (List Text)
  unfolding git shield_paths stripped_lines splitlines text
  shield_runtime_artifacts repo_dir = do
    raw ← git m (text "diff" ∷ text "--name-only" ∷ []) (some repo_dir)
    shield_paths repo_dir (stripped_lines (splitlines raw))

module _ {E : Type 0} (rig : Rig E) where
  -- `build_test_trigger`
  unfoldable pub build_test_trigger : Text → Text → Text → Py E TriggerEvent
  unfolding new_failing_test new_trigger
  build_test_trigger node_id source output = trigger_or_raise (
      new_trigger test_failure none
        (some (new_failing_test rig.platform.pydantic_strip node_id source (last_n 4096 output))))

  -- A test that fails on its own too: none if it passes.
  abbrev failing_alone : Text → Text → Py E (Option (Text × Text))
  failing_alone repo_dir node =
      rescue (do found ← detect_failing_test rig.machine repo_dir node; pure (some found))
        (except_runtime (pure none))

  abbrev crash_detected : Text → Text → Option Text → Py E (Option Detected)
  crash_detected repo_dir base none = pure none
  crash_detected repo_dir base (some output) = do
    report ← build_crash_report rig.machine rig.platform base output repo_dir
    trigger ← build_trigger rig.machine rig.platform report
    pure (some (trigger, []))

  -- The second probe of `detect_any_failure`.
  unfoldable pub probe_crash : Text → Text → Py E (Option Detected)
  unfolding exists session_path detect_crash build_crash_report build_trigger text
  probe_crash repo_dir base = do
    found ← exists (below repo_dir (text "main.py"))
    let probe : Py E (Option Text) = (do
      output ← detect_crash rig.machine repo_dir
      pure (some output))
    output ← if found then rescue probe (except_runtime (pure none)) else pure none
    crash_detected repo_dir base output

  abbrev probe_alone : Text → Text → Text → Option (Text × Text) → Py E (Option Detected)
  probe_alone repo_dir base node none = probe_crash repo_dir base
  probe_alone repo_dir base node (some (source, output)) = do
    trigger ← build_test_trigger node source output
    pure (some (trigger, test_command node))

  abbrev probe_node : Text → Text → Option Text → Py E (Option Detected)
  probe_node repo_dir base none = probe_crash repo_dir base
  probe_node repo_dir base (some node) = do
    alone ← failing_alone repo_dir node
    probe_alone repo_dir base node alone

  -- `detect_any_failure`
  unfoldable pub detect_any_failure : Text → Text → Py E (Option Detected)
  unfolding find_node is_green detect_failing_test build_test_trigger probe_crash text
  detect_any_failure repo_dir base = do
    result ← rig.machine.run (
        command
          (rig.machine.python ∷ text "-m" ∷ text "pytest" ∷ text "--tb=short" ∷ text "-q" ∷ [])
          (some repo_dir))
    probe_node repo_dir base (
        if is_green result.returncode
        then none
        else find_node true (if truthy result.stdout then result.stdout else result.stderr))

  -- The failure that the mode asks for: any, that of a test, or a crash.
  unfoldable pub find_failure : Text → Text → Bool → Option Text → Py E (Option Detected)
  unfolding detect_any_failure detect_failing_test build_test_trigger detect_crash
      build_crash_report build_trigger
  find_failure repo_dir base auto test_node =
      let crash : Py E (Option Detected) = (do
        output ← detect_crash rig.machine repo_dir
        crash_detected repo_dir base (some output)) in
      let test : Text → Py E (Option Detected) = (λ node. do
        (source, output) ← detect_failing_test rig.machine repo_dir node
        probe_alone repo_dir base node (some (source, output))) in
      let one : Py E (Option Detected) = elim test_node [
        | none ↦ crash
        | some node ↦ if truthy node then test node else crash
      ] in
      if auto then detect_any_failure repo_dir base else one
