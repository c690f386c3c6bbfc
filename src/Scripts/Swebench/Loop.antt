-- ===== src/Scripts/Swebench/Loop.antt =====
-- scripts/run_swebench.py: the instances of a run and the loop over them. `load_dataset` and
-- `str.format` are parameters, and the options are given as they are parsed.
use self_healing_system_tfg.Base.{
  ℕ, Bool, not, ◌&&◌, List, [], ◌∷◌, ◌++◌, Option, none, some, ◌==◌, if◌then◌else◌, take,
}
use self_healing_system_tfg.Python.Text.{Text, text, text_eq, truthy, strip, split_on}
use self_healing_system_tfg.Python.Effects.{message, Py, pure, rescue, ◌>>=◌, ◌>>◌}
use self_healing_system_tfg.Python.Files.{exists, unlink, write_text, mkdir_parent}
use self_healing_system_tfg.Config.{Settings, load_settings}
use self_healing_system_tfg.Orchestrator.Nodes.Session.{session_path}
use self_healing_system_tfg.Agents.Swe.Run.{cleanup_all_containers}
use self_healing_system_tfg.Scripts.Machine.{below}
use self_healing_system_tfg.Scripts.Select.{Instance, Literals}
use self_healing_system_tfg.Scripts.Session.{Rig}
use self_healing_system_tfg.Scripts.Swebench.Run.{
  Report, checked, healed, errored, InstanceRow, sanity_one, heal_one,
}

-- `by_id[i]`, for the dict that keeps the last row of each id.
unfoldable pub find_instance : Text → List Instance → Option Instance
unfolding text_eq
find_instance id [] = none
find_instance id (i ∷ is) = elim (find_instance id is) [
  | some later ↦ some later
  | none ↦ if text_eq i.instance_id id then some i else none
]

-- `load_instances`, of the rows of the dataset.
unfoldable pub load_instances : List Instance → List Text → List Instance
unfolding find_instance
load_instances rows [] = []
load_instances rows (id ∷ ids) =
    let rest = load_instances rows ids in
    elim (find_instance id rows) [ some i ↦ i ∷ rest | none ↦ rest ]

-- `_resolve_ids` of `--instance-ids`.
unfoldable pub stripped_parts : List Text → List Text
unfolding strip
stripped_parts [] = []
stripped_parts (part ∷ parts) =
    let rest = stripped_parts parts in if truthy (strip part) then strip part ∷ rest else rest

unfoldable pub resolve_ids : Text → List Text
unfolding split_on stripped_parts
resolve_ids instance_ids = stripped_parts (split_on b',' instance_ids)

-- `if args.limit: ids = ids[: args.limit]`
abbrev pub limited : ℕ → List Text → List Text
limited limit ids = if limit == 0 then ids else take limit ids

module _ {E : Type 0} (rig : Rig E) (literals : Literals) (prediction_line : Text → Text → Text)
    (image_for : Text → Text) where
  -- An instance of the loop.
  unfoldable pub run_instance : Settings → Bool → Text → Instance → Py E InstanceRow
  unfolding sanity_one heal_one text
  run_instance settings sanity predictions_path i = do
    let image = image_for i.instance_id
    let check : Py E Report = (do
      row ← sanity_one rig literals i settings image
      pure (checked row))
    let heal : Py E Report = (do
      row ← heal_one rig literals prediction_line i settings image predictions_path
      pure (healed row))
    report ←
        rescue (if sanity then check else heal)
          (λ e. pure (errored (rig.telemetry.type_name e ++ text ": " ++ message e)))
    seconds ← rig.machine.elapsed
    pure (record { instance_id = i.instance_id; report = report; duration = seconds })

  -- The loop of `_amain`.
  unfoldable pub run_instances : Settings → Bool → Text → List Instance → Py E (List InstanceRow)
  unfolding run_instance cleanup_all_containers
  run_instances settings sanity predictions_path [] = pure []
  run_instances settings sanity predictions_path (i ∷ is) = do
    row ← run_instance settings sanity predictions_path i
    cleanup_all_containers rig.outside.swe
    rows ← run_instances settings sanity predictions_path is
    pure (row ∷ rows)

  module _ (json_dumps : List InstanceRow → Text) where
    -- `_write_summary`
    unfoldable pub write_summary : List InstanceRow → Bool → Py E (Unit {0})
    unfolding write_text session_path text
    write_summary rows sanity = do
      let out_dir = below rig.machine.project_root (text "reports/swebench")
      rig.machine.make_dirs out_dir
      stamp ← rig.machine.time_stamp
      write_text
          (below out_dir
            (text "swebench_" ++ (if sanity then text "sanity_" else []) ++ stamp ++ text ".json"))
          (json_dumps rows)

    -- `_amain`, from the ids on.
    unfoldable pub swebench_main : List Instance → List Text → ℕ → Bool → Text → Py E ℕ
    unfolding load_settings load_instances mkdir_parent exists unlink run_instances write_summary
    swebench_main dataset ids limit sanity predictions_path = do
      settings ← load_settings rig.reading rig.machine.getenv rig.reports_dir
      let instances = load_instances dataset (limited limit ids)
      mkdir_parent predictions_path
      there ← exists predictions_path
      if not sanity && there then unlink predictions_path else pure tt
      rows ← run_instances settings sanity predictions_path instances
      write_summary rows sanity
      pure 0
