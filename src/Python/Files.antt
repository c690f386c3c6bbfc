-- ===== src/Python/Files.antt =====
-- The file operations of `pathlib` that the program uses, on files by their path. Directories are
-- not files: making one changes nothing, but the system may refuse it.
use self_healing_system_tfg.Base.{
  ◌≡◌, refl, Bool, true, false, List, [], ◌∷◌, ◌++◌, Option, none, some, arith, if◌then◌else◌,
}
use self_healing_system_tfg.Python.Text.{Text, text, text_eq}
use self_healing_system_tfg.Python.Text.Lemmas.{text_eq_refl, text_eq→eq}
use self_healing_system_tfg.Python.Effects.{
  os_error, returned, raised, stat_op, mkdir_op, read_op, write_op, unlink_op, Py,
}

abbrev pub Files : Type 0
Files = List (Text × Text)

unfoldable pub find_file : Text → Files → Option Text
find_file path [] = none
find_file path ((p, content) ∷ fs) = if text_eq p path then some content else find_file path fs

unfoldable pub erase_file : Text → Files → Files
erase_file path [] = []
erase_file path ((p, content) ∷ fs) =
    let rest = erase_file path fs in if text_eq p path then rest else (p, content) ∷ rest

unfoldable pub put_file : Text → Text → Files → Files
unfolding erase_file
put_file path content fs = (path, content) ∷ erase_file path fs

pub find_file-erase_self : (path : Text) (fs : Files) → find_file path (erase_file path fs) ≡ none
unfolding find_file erase_file
find_file-erase_self path [] = refl
find_file-erase_self path ((p, c) ∷ fs) = ground (arith, find_file-erase_self path fs)

pub find_file-erase_ne :
    (path other : Text) (fs : Files)
    → text_eq path other ≡ false
    → find_file other (erase_file path fs) ≡ find_file other fs
unfolding find_file erase_file
find_file-erase_ne path other [] h = refl
find_file-erase_ne path other ((p, c) ∷ fs) h =
    ground (arith, find_file-erase_ne path other fs h, text_eq→eq p path)

pub find_file-put_self :
    (path content : Text) (fs : Files) → find_file path (put_file path content fs) ≡ some content
unfolding find_file put_file
find_file-put_self path content fs = rw (text_eq_refl path)

pub find_file-put_ne :
    (path content other : Text) (fs : Files)
    → text_eq path other ≡ false
    → find_file other (put_file path content fs) ≡ find_file other fs
unfolding find_file put_file
find_file-put_ne path content other fs h = rw h (find_file-erase_ne path other fs h)

module _ {E : Type 0} where
  -- `path.exists()`
  unfoldable pub exists : Text → Py E Bool
  exists path w =
      if w.denied stat_op path
      then (raised (os_error (text "stat")), w)
      else (returned (elim (find_file path w.files) [ none ↦ false | some _ ↦ true ]), w)

  -- `path.parent.mkdir(parents=True, exist_ok=True)`
  unfoldable pub mkdir_parent : Text → Py E (Unit {0})
  mkdir_parent path w =
      if w.denied mkdir_op path then (raised (os_error (text "mkdir")), w) else (returned tt, w)

  -- `path.read_text(encoding="utf-8")`; a missing file raises.
  unfoldable pub read_text : Text → Py E Text
  read_text path w =
      if w.denied read_op path
      then (raised (os_error (text "read")), w)
      else elim (find_file path w.files) [
        | none ↦ (raised (os_error (text "missing")), w)
        | some content ↦ (returned content, w)
      ]

  -- `path.write_text(content, encoding="utf-8")`
  unfoldable pub write_text : Text → Text → Py E (Unit {0})
  write_text path content w =
      if w.denied write_op path
      then (raised (os_error (text "write")), w)
      else (returned tt, record w { files = put_file path content w.files })

  -- `with path.open("a", encoding="utf-8") as fh: fh.write(more)`
  unfoldable pub append_text : Text → Text → Py E (Unit {0})
  append_text path more w =
      if w.denied write_op path
      then (raised (os_error (text "append")), w)
      else elim (find_file path w.files) [
        | none ↦ (returned tt, record w { files = put_file path more w.files })
        | some old ↦ (returned tt, record w { files = put_file path (old ++ more) w.files })
      ]

  -- `path.unlink(missing_ok=True)`
  unfoldable pub unlink : Text → Py E (Unit {0})
  unlink path w =
      if w.denied unlink_op path
      then (raised (os_error (text "unlink")), w)
      else (returned tt, record w { files = erase_file path w.files })
