-- ===== src/Python/Paths.antt =====
-- `pathlib.PurePosixPath`: a root and the parts. Empty parts and `.` are dropped when a path is read.
use self_healing_system_tfg.Base.{
  ℕ, suc, Bool, true, false, not, ◌&&◌, List, [], ◌∷◌, ◌++◌, Option, none, some, ltb, ◌==◌,
  if◌then◌else◌, length, take, keep,
}
use self_healing_system_tfg.Python.Text.{Text, text, text_eq, truthy, starts_with, split_on, join}

pub record PurePath : Type 0 where
  pub root : Text
  pub parts : List Text

-- One leading slash or three make the root `/`, exactly two make `//`.
unfoldable pub root_of : Text → Text
unfolding starts_with text
root_of s =
    if not (starts_with s (text "/"))
    then []
    else if starts_with s (text "//") && not (starts_with s (text "///"))
    then text "//"
    else text "/"

unfoldable pub is_part : Text → Bool
unfolding text_eq text
is_part s = truthy s && not (text_eq s (text "."))

unfoldable pub parse_path : Text → PurePath
unfolding root_of is_part split_on
parse_path s = record { root = root_of s; parts = keep is_part (split_on b'/' s) }

-- `a / b`
unfoldable pub path_join : PurePath → PurePath → PurePath
path_join a b = if truthy b.root then b else record a { parts = a.parts ++ b.parts }

unfoldable pub as_posix : PurePath → Text
unfolding text join
as_posix p =
    if not (truthy p.root) && not (truthy p.parts)
    then text "."
    else p.root ++ join (text "/") p.parts

-- `p.name`
unfoldable pub last_part : List Text → Text
last_part [] = []
last_part (p ∷ []) = p
last_part (p ∷ q ∷ ps) = last_part (q ∷ ps)

-- What is left of `parts` below `prefix`.
unfoldable pub parts_below : List Text → List Text → Option (List Text)
unfolding text_eq
parts_below [] parts = some parts
parts_below (p ∷ ps) [] = none
parts_below (p ∷ ps) (q ∷ qs) = let rest = parts_below ps qs in if text_eq p q then rest else none

-- `p.relative_to(root)`, which raises `ValueError` outside the root.
unfoldable pub relative_to : PurePath → PurePath → Option PurePath
unfolding parts_below text_eq
relative_to p base =
    if text_eq p.root base.root
    then elim (parts_below base.parts p.parts) [
      | some below ↦ some (record { root = []; parts = below })
      | none ↦ none
    ]
    else none

-- `p.is_relative_to(root)`
unfoldable pub is_relative_to : PurePath → PurePath → Bool
unfolding relative_to
is_relative_to p base = elim (relative_to p base) [ some _ ↦ true | none ↦ false ]

-- The place of the last dot of a name.
unfoldable pub last_dot_from : ℕ → Text → Option ℕ → Option ℕ
last_dot_from i [] found = found
last_dot_from i (c ∷ s) found = last_dot_from (suc i) s (if c == b'.' then some i else found)

-- `p.stem`: the name up to its last dot, unless that is its first or its last character.
unfoldable pub stem : PurePath → Text
unfolding last_part last_dot_from
stem p =
    let name = last_part p.parts in
    elim (last_dot_from 0 name none) [
      | some i ↦ if ltb 0 i && ltb (suc i) (length name) then take i name else name
      | none ↦ name
    ]
