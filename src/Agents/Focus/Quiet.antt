-- ===== src/Agents/Focus/Quiet.antt =====
-- The focus block raises nothing in a workspace that resolves.
use self_healing_system_tfg.Base.{ℕ, ◌≡◌, List, [], ◌∷◌, Option, some}
use self_healing_system_tfg.Python.Text.{Text}
use self_healing_system_tfg.Python.Effects.{Exn, os_error, file_not_found, World, pure}
use self_healing_system_tfg.Python.Effects.Raises.{
  RaisesOnly, Never, IsOsError, raises_returned, handled-RaisesOnly, resume-RaisesOnly,
}
use self_healing_system_tfg.Python.Regex.{Unicode}
use self_healing_system_tfg.Python.Paths.{PurePath, parse_path}
use self_healing_system_tfg.Orchestrator.Nodes.Session.{except_os_error}
use self_healing_system_tfg.Orchestrator.Nodes.Session.Raises.{read-RaisesOnly}
use self_healing_system_tfg.Agents.Focus.{
  render_files, collect_focus_paths, render_paths, render_focus_block,
}

module _ {E : Type 0} (u : Unicode) (resolve : PurePath → Option PurePath) where
  left_out :
      (e : Exn) (w : World E)
      → IsOsError e
      → RaisesOnly Never (except_os_error (pure {E = E} {A = Text} []) e w)
  left_out (os_error m) w h = raises_returned _ _ w
  left_out (file_not_found m) w h = raises_returned _ _ w
  left_out e w h = absurd h

  files-RaisesOnly :
      (workspace : Text) (n : ℕ) (rels : List Text) (w : World E)
      → RaisesOnly Never (render_files u resolve workspace n rels w)
  unfolding render_files
  files-RaisesOnly workspace n [] w = raises_returned _ _ w
  files-RaisesOnly workspace n (rel ∷ rels) w =
      resume-RaisesOnly _ _ _
        (handled-RaisesOnly IsOsError _ _ _
          (resume-RaisesOnly _ _ _ (read-RaisesOnly _ w) λ content w1. raises_returned _ _ w1)
          left_out)
        λ block w1.
          resume-RaisesOnly _ _ _ (files-RaisesOnly workspace n rels w1)
            λ rest w2. raises_returned _ _ w2

  paths-RaisesOnly :
      (workspace intro : Text) (rels : List Text) (w : World E)
      → RaisesOnly Never (render_paths u resolve workspace intro rels w)
  paths-RaisesOnly workspace intro [] w = raises_returned _ _ w
  paths-RaisesOnly workspace intro (rel ∷ rels) w =
      resume-RaisesOnly _ _ _ (files-RaisesOnly workspace _ (rel ∷ rels) w)
        λ blocks w1. raises_returned _ _ w1

  module _ (workspace : Text) (root : PurePath)
      (resolves : resolve (parse_path workspace) ≡ some root) where
    collected-RaisesOnly :
        (failure_output : Text) (node_id : Option Text) (n : ℕ) (w : World E)
        → RaisesOnly Never (collect_focus_paths u resolve workspace failure_output node_id n w)
    unfolding collect_focus_paths
    collected-RaisesOnly failure_output node_id n w =
        rw (resolves, collect_focus_paths) (raises_returned _ _ w)

    pub focus_block-RaisesOnly :
        (failure_output : Text) (node_id : Option Text) (intro : Text) (w : World E)
        → RaisesOnly Never (render_focus_block u resolve workspace failure_output node_id intro w)
    unfolding render_focus_block
    focus_block-RaisesOnly failure_output node_id intro w =
        resume-RaisesOnly _ _ _ (collected-RaisesOnly failure_output node_id _ w)
          λ rels w1. paths-RaisesOnly workspace intro rels w1
