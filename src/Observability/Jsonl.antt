-- ===== src/Observability/Jsonl.antt =====
-- `JsonlTelemetry` of src/observability/sinks.py; `json_dumps` is the JSON of a span.
use self_healing_system_tfg.Base.{
  ◌≡◌, refl, sym, ◌∙◌, ap, subst, Bool-cases, inl, inr, true, false, [], ◌++◌, Option, none, some,
}
use self_healing_system_tfg.Python.Text.{Text, text, text_eq}
use self_healing_system_tfg.Python.Effects.{returned, write_op, World, Py, pure, rescue, handled}
use self_healing_system_tfg.Python.Files.{
  find_file, put_file, mkdir_parent, append_text, find_file-put_self, find_file-put_ne,
}
use self_healing_system_tfg.Orchestrator.Nodes.Session.{except_os_error}
use self_healing_system_tfg.Observability.{Span, Sink}

module _ {E : Type 0} (json_dumps : Span → Text) (path : Text) where
  -- `JsonlTelemetry.__init__`
  unfoldable pub open_jsonl : Py E (Unit {0})
  unfolding mkdir_parent
  open_jsonl = rescue (mkdir_parent path) (except_os_error (pure tt))

  -- `JsonlTelemetry.record`
  unfoldable pub record_jsonl : Sink E
  unfolding append_text text
  record_jsonl s = rescue (append_text path (json_dumps s ++ text "\n")) (λ _. pure tt)

-- The content of a file, a missing one being empty.
abbrev pub content_of : Option Text → Text
content_of none = []
content_of (some content) = content

-- What an append leaves: its line at the end of its file, the other files, the permissions and the rest.
pub record IsAppended {E : Type 0} (path line : Text) (w w' : World E) : Type 0 where
  pub content : find_file path w'.files ≡ some (content_of (find_file path w.files) ++ line)
  pub others :
      (other : Text)
      → text_eq path other ≡ false
      → find_file other w'.files ≡ find_file other w.files
  pub permissions : w'.denied ≡ w.denied
  pub rest : w'.env ≡ w.env

put-IsAppended :
    {E : Type 0} (path line : Text) (w : World E) (old : Option Text)
    → find_file path w.files ≡ old
    → IsAppended path line w (record w { files = put_file path (content_of old ++ line) w.files })
put-IsAppended path line w old e = record {
  content =
      find_file-put_self path (content_of old ++ line) w.files
      ∙ ap (λ o. some (content_of o ++ line)) (sym e);
  others = λ other h. find_file-put_ne path (content_of old ++ line) other w.files h;
  permissions = refl;
  rest = refl;
}

module _ {E : Type 0} (json_dumps : Span → Text) (path : Text) where
  refused :
      (s : Span) (w : World E)
      → w.denied write_op path ≡ true
      → record_jsonl json_dumps path s w ≡ (returned tt, w)
  unfolding record_jsonl append_text handled
  refused s w h = rw h refl

  appended :
      (s : Span) (w : World E) (old : Option Text)
      → w.denied write_op path ≡ false
      → find_file path w.files ≡ old
      → record_jsonl json_dumps path s w ≡ (
        returned tt,
        record w { files = put_file path (content_of old ++ (json_dumps s ++ text "\n")) w.files },
      )
  unfolding record_jsonl append_text handled
  appended s w none h e = rw (h, e) refl
  appended s w (some old) h e = rw (h, e) refl

  -- A span that is recorded is a line at the end of the file, and nothing else changes, if the system admits
  -- the append; if it refuses it nothing is changed. In both cases nothing is raised.
  pub record_jsonl_appends :
      (s : Span) (w : World E)
      → ((record_jsonl json_dumps path s w).0 ≡ returned tt)
        × ((w.denied write_op path ≡ false
              → IsAppended path
                  (json_dumps s ++ text "\n")
                  w
                  ((record_jsonl json_dumps path s w).1))
            × (w.denied write_op path ≡ true → (record_jsonl json_dumps path s w).1 ≡ w))
  record_jsonl_appends s w = elim (Bool-cases (w.denied write_op path)) [
    | inl denied ↦ (
      ap (λ o. o.0) (refused s w denied),
      (λ admitted. absurd (cc (denied, admitted)), λ _. ap (λ o. o.1) (refused s w denied)),
    )
    | inr admitted ↦
        let ran = appended s w (find_file path w.files) admitted refl in
        (
          ap (λ o. o.0) ran,
          (
            λ _.
                subst (λ v. IsAppended path (json_dumps s ++ text "\n") w v)
                  (sym (ap (λ o. o.1) ran))
                  (put-IsAppended path (json_dumps s ++ text "\n") w (find_file path w.files) refl),
            λ denied. absurd (cc (denied, admitted)),
          ),
        )
  ]
