-- ===== src/Orchestrator/Nodes/Immunize/Undo.antt =====
-- A regression test that its gate refuses leaves the session file as it was.
use self_healing_system_tfg.Base.{
  ◌≡◌, refl, sym, ◌∙◌, ap, subst, List, true, false, [], ◌++◌, Option, none, some, Bool-cases,
  Option-cases, inl, inr,
}
use self_healing_system_tfg.Python.Text.{Text, truthy, text_eq}
use self_healing_system_tfg.Python.Text.Lemmas.{text_eq→eq}
use self_healing_system_tfg.Python.Effects.{
  returned, FileOp, stat_op, mkdir_op, read_op, write_op, unlink_op, World, handled, resume,
  resume-eq-returned,
}
use self_healing_system_tfg.Python.Files.{
  Files, find_file, put_file, erase_file, find_file-erase_self, find_file-erase_ne,
  find_file-put_self, find_file-put_ne, exists, read_text, mkdir_parent, append_text, write_text,
  unlink,
}
use self_healing_system_tfg.Python.Platform.{Platform}
use self_healing_system_tfg.Domain.Models.{SandboxResult}
use self_healing_system_tfg.Domain.State.{HealingState}
use self_healing_system_tfg.Ports.{Dependencies}
use self_healing_system_tfg.Orchestrator.Routers.{is_passed}
use self_healing_system_tfg.Orchestrator.Nodes.Immunize.{gate_and_keep, run_gate, keep_if_passed}
use self_healing_system_tfg.Orchestrator.Nodes.Session.{
  session_path, read_session_text, restore_session_text, existing_text, append_regression_test,
  test_node_id, appended_text,
}

-- The system refuses nothing at the path.
abbrev pub IsGranted : {E : Type 0} → World E → Text → Type 0
IsGranted w path = (op : FileOp) → w.denied op path ≡ false

module _ {E : Type 0} (w : World E) (workspace rel : Text) (in_workspace : truthy workspace ≡ true)
    (named : truthy rel ≡ true) (granted : IsGranted w (session_path workspace rel)) where
  abbrev path : Text
  path = session_path workspace rel

  -- The snapshot is the file's content.
  pub read_session_returns :
      read_session_text workspace rel w ≡ (returned (find_file path w.files), w)
  unfolding read_session_text exists read_text resume handled
  read_session_returns = elim (Option-cases (find_file path w.files)) [
    | inl missing ↦ rw (in_workspace, named, granted stat_op, missing) refl
    | inr (content, found) ↦
        rw (in_workspace, named, granted stat_op, found, granted read_op, found) refl
  ]

  -- The test is appended at the path, and nothing else is written.
  pub append_writes :
      (p : Platform) (source : Text)
      → (content : Text) × (append_regression_test p workspace rel source w ≡ (
        returned (test_node_id p rel source),
        record w { files = put_file path content w.files },
      ))
  unfolding append_regression_test existing_text exists read_text mkdir_parent append_text resume
      handled
  append_writes p source = elim (Option-cases (find_file path w.files)) [
    | inl missing ↦ (
      appended_text [] source,
      rw (in_workspace, granted mkdir_op, granted stat_op, missing, granted write_op, missing) refl,
    )
    | inr (content, found) ↦ (
      content ++ appended_text content source,
      rw
          (
            in_workspace,
            granted mkdir_op,
            granted stat_op,
            found,
            granted read_op,
            found,
            granted write_op,
            found,
          )
          refl,
    )
  ]

  -- What a restoration leaves: the snapshot at the path, and the rest.
  pub record IsRestored (content : Option Text) (before after : Files) : Type 0 where
    pub here : find_file path after ≡ content
    pub elsewhere :
        (other : Text) → text_eq path other ≡ false → find_file other after ≡ find_file other before

  pub restore_writes :
      (content : Option Text)
      → (fs : Files) × (restore_session_text workspace rel content w
          ≡ (returned tt, record w { files = fs }))
        × IsRestored content w.files fs
  unfolding restore_session_text unlink write_text handled
  restore_writes none = (
    erase_file path w.files,
    rw (in_workspace, named, granted unlink_op) refl,
    record {
      here = find_file-erase_self path w.files;
      elsewhere = λ other ne. find_file-erase_ne path other w.files ne;
    },
  )
  restore_writes (some content) = (
    put_file path content w.files,
    rw (in_workspace, named, granted write_op) refl,
    record {
      here = find_file-put_self path content w.files;
      elsewhere = λ other ne. find_file-put_ne path content other w.files ne;
    },
  )

-- The sandbox changes no file of the workspace and no permission.
abbrev pub LeavesFiles : {E : Type 0} → Dependencies E → Type 0
LeavesFiles {E} deps =
    (workspace image : Text) (cmd : List Text) (w : World E)
    → ((deps.run_tests workspace image cmd w).1.files ≡ w.files)
      × ((deps.run_tests workspace image cmd w).1.denied ≡ w.denied)

-- The files have the contents that they had.
abbrev pub IsSameFiles : Files → Files → Type 0
IsSameFiles fs gs = (path : Text) → find_file path gs ≡ find_file path fs

module _ {E : Type 0} (p : Platform) (deps : Dependencies E) (s : HealingState) (w : World E)
    (in_workspace : truthy s.workspace_path ≡ true) (named : truthy s.regression_test_path ≡ true)
    (granted : IsGranted w (session_path s.workspace_path s.regression_test_path))
    (leaves : LeavesFiles deps) where
  abbrev file : Text
  file = session_path s.workspace_path s.regression_test_path

  rejected_at :
      (content : Text) (node_id source : Text) (res : SandboxResult) (w2 w' : World E)
      → is_passed res.verdict ≡ false
      → w2.files ≡ put_file file content w.files
      → w2.denied ≡ w.denied
      → keep_if_passed p deps s (find_file file w.files) node_id source (is_passed res.verdict) w2
        ≡ (returned none, w')
      → IsSameFiles w.files w'.files
  unfolding resume
  rejected_at content node_id source res w2 w' red files denied ran =
      let granted2 : IsGranted w2 file = λ op. rw denied (granted op) in
      let (fs, wrote, restored) =
        restore_writes w2 s.workspace_path s.regression_test_path in_workspace named granted2
          (find_file file w.files) in
      let last : record w2 { files = fs } ≡ w' = ap (λ o. o.1) (rw (red, wrote) at ran) in
      λ other. rw⁻¹ last (elim (Bool-cases (text_eq file other)) [
        | inl same ↦
            subst (λ q. find_file q fs ≡ find_file q w.files) (text_eq→eq file other same)
              restored.here
        | inr ne ↦
            restored.elsewhere other ne
            ∙ ap (find_file other) files
            ∙ find_file-put_ne file content other w.files ne
      ])

  gated_undone :
      (content node_id source : Text) (w1 w' : World E)
      → w1.files ≡ put_file file content w.files
      → w1.denied ≡ w.denied
      → run_gate p deps s (find_file file w.files) node_id source w1 ≡ (returned none, w')
      → IsSameFiles w.files w'.files
  gated_undone content node_id source w1 w' files denied ran =
      let (res, w2, tested, kept) = resume-eq-returned _ _ ran in
      elim (Bool-cases (is_passed res.verdict)) [
        | inl green ↦ cc
        | inr red ↦
            let same = leaves s.workspace_path _ _ w1 in
            rejected_at content node_id source res w2 w' red
              (sym (ap (λ o. o.1.files) tested) ∙ same.0 ∙ files)
              (sym (ap (λ o. o.1.denied) tested) ∙ same.1 ∙ denied) kept
      ]

  -- A regression test that its gate refuses leaves every file as it was, if the system refuses
  -- nothing at the session file and the sandbox changes no file.
  pub gate_and_keep_undone :
      (source : Text) (w' : World E)
      → gate_and_keep p deps s source true w ≡ (returned none, w')
      → IsSameFiles w.files w'.files
  unfolding gate_and_keep resume
  gate_and_keep_undone source w' ran =
      let (content, appends) =
        append_writes w s.workspace_path s.regression_test_path in_workspace named granted p
          source in
      let node_id = test_node_id p s.regression_test_path source in
      let w1 = record w { files = put_file file content w.files } in
      gated_undone content node_id source w1 w' refl refl (
        rw
          (
            read_session_returns w s.workspace_path s.regression_test_path in_workspace named
                granted,
            appends,
          )
          at ran)
