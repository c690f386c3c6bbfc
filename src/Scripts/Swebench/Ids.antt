-- ===== src/Scripts/Swebench/Ids.antt =====
-- The ids of `--instance-ids`.
use self_healing_system_tfg.Base.{◌≡◌, false, List, [], ◌∷◌}
use self_healing_system_tfg.Python.Text.{Text, has_char}

-- Texts without a comma.
abbrev pub AreParts : List Text → Type 0
AreParts [] = Unit
AreParts (x ∷ xs) = (has_char b',' x ≡ false) × AreParts xs
