-- ===== src/Python/Process.antt =====
-- A finished subprocess, as `asyncio.subprocess` and `subprocess.run` give it.
use self_healing_system_tfg.Base.{ℕ, Bool, false, List, ◌∷◌, ◌==◌}
use self_healing_system_tfg.Python.Text.{Text, str_nat}

-- `returncode`: an exit code, or the number of the signal that ended the process, negated.
pub data ReturnCode : Type 0 where
  exited killed_by : ℕ → ReturnCode

pub record Process : Type 0 where
  pub returncode : ReturnCode
  pub stdout : List ℕ
  pub stderr : List ℕ

-- `proc.returncode == 0`
abbrev pub is_zero : ReturnCode → Bool
is_zero (exited n) = n == 0
is_zero (killed_by n) = false

-- `str(proc.returncode)`
unfoldable pub str_code : ReturnCode → Text
unfolding str_nat
str_code (exited n) = str_nat n
str_code (killed_by n) = b'-' ∷ str_nat n
