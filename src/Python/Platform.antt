-- ===== src/Python/Platform.antt =====
-- What the program calls and the repository does not hold: `hashlib`, `ast`, the Unicode database,
-- and the whitespace stripping of pydantic's `str_strip_whitespace`.
use self_healing_system_tfg.Base.{List, Option}
use self_healing_system_tfg.Python.Text.{Text}
use self_healing_system_tfg.Python.Regex.{Unicode}

-- The import statements of a parsed file, as `ast` gives them.
pub data ImportNode : Type 0 where
  import_names : List Text → ImportNode
  import_from : Option Text → List Text → ImportNode

-- `ast_functions` lists the names of the functions of a source in the order of `ast.walk`,
-- `ast_imports` its import statements; `none` is a `SyntaxError`.
pub record Platform : Type 0 where
  pub unicode : Unicode
  pub sha256_hex : Text → Text
  pub pydantic_strip : Text → Text
  pub ast_functions : Text → Option (List Text)
  pub ast_imports : Text → Option (List ImportNode)
