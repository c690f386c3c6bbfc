-- ===== src/Orchestrator/Nodes/Session/Raises.antt =====
-- No exception leaves the helpers for the session file: they catch each `OSError`.
use self_healing_system_tfg.Base.{Option, none, some, Bool-cases, inl, inr, Option-cases, ◌&&◌}
use self_healing_system_tfg.Python.Text.{Text, truthy}
use self_healing_system_tfg.Python.Effects.{Exn, os_error, file_not_found, World, Py}
use self_healing_system_tfg.Python.Effects.Raises.{
  RaisesOnly, Never, IsOsError, raises_returned, raises_raised, handled-RaisesOnly, if-RaisesOnly,
  resume-RaisesOnly,
}
use self_healing_system_tfg.Python.Files.{
  find_file, exists, read_text, mkdir_parent, append_text, write_text, unlink,
}
use self_healing_system_tfg.Python.Platform.{Platform}
use self_healing_system_tfg.Orchestrator.Nodes.Session.{
  restore, except_os_error, ensure_session_test_file, read_session_text, restore_session_text,
  existing_text, append_regression_test,
}

module _ {E : Type 0} where
  exists-RaisesOnly : (path : Text) (w : World E) → RaisesOnly IsOsError (exists path w)
  unfolding exists
  exists-RaisesOnly path w =
      if-RaisesOnly _ (w.denied _ path) _ _ (raises_raised _ _ _ w tt) (raises_returned _ _ w)

  mkdir-RaisesOnly : (path : Text) (w : World E) → RaisesOnly IsOsError (mkdir_parent path w)
  unfolding mkdir_parent
  mkdir-RaisesOnly path w =
      if-RaisesOnly _ (w.denied _ path) _ _ (raises_raised _ _ _ w tt) (raises_returned _ _ w)

  pub write-RaisesOnly :
      (path content : Text) (w : World E) → RaisesOnly IsOsError (write_text path content w)
  unfolding write_text
  write-RaisesOnly path content w =
      if-RaisesOnly _ (w.denied _ path) _ _ (raises_raised _ _ _ w tt) (raises_returned _ _ _)

  unlink-RaisesOnly : (path : Text) (w : World E) → RaisesOnly IsOsError (unlink path w)
  unfolding unlink
  unlink-RaisesOnly path w =
      if-RaisesOnly _ (w.denied _ path) _ _ (raises_raised _ _ _ w tt) (raises_returned _ _ _)

  pub read-RaisesOnly : (path : Text) (w : World E) → RaisesOnly IsOsError (read_text path w)
  unfolding read_text
  read-RaisesOnly path w =
      if-RaisesOnly _ (w.denied _ path) _ _ (raises_raised _ _ _ w tt)
        (elim (Option-cases (find_file path w.files)) [
          | inl missing ↦ rw missing (raises_raised _ _ _ w tt)
          | inr (content, found) ↦ rw found (raises_returned _ _ w)
        ])

  append-RaisesOnly :
      (path more : Text) (w : World E) → RaisesOnly IsOsError (append_text path more w)
  unfolding append_text
  append-RaisesOnly path more w =
      if-RaisesOnly _ (w.denied _ path) _ _ (raises_raised _ _ _ w tt)
        (elim (Option-cases (find_file path w.files)) [
          | inl missing ↦ rw missing (raises_returned _ _ _)
          | inr (content, found) ↦ rw found (raises_returned _ _ _)
        ])

  os_handler :
      {A : Type 0} (handler : Py E A)
      → ((w : World E) → RaisesOnly Never (handler w))
      → (e : Exn) (w : World E) → IsOsError e
      → RaisesOnly Never (except_os_error handler e w)
  os_handler handler h (os_error m) w k = h w
  os_handler handler h (file_not_found m) w k = h w
  os_handler handler h e w k = absurd k

  -- The helpers for the session file raise nothing.
  pub ensure-RaisesOnly :
      (workspace rel id : Text) (w : World E)
      → RaisesOnly Never (ensure_session_test_file workspace rel id w)
  unfolding ensure_session_test_file
  ensure-RaisesOnly workspace rel id w = elim (Bool-cases (truthy workspace)) [
    | inl given ↦ rw given (
        handled-RaisesOnly IsOsError Never _ _
          (resume-RaisesOnly _ _ _ (exists-RaisesOnly _ w) λ found w1. elim (Bool-cases found) [
            | inl there ↦ rw there (raises_returned _ _ w1)
            | inr missing ↦
                rw missing
                  (resume-RaisesOnly _ _ _ (mkdir-RaisesOnly _ w1) λ _ w2. write-RaisesOnly _ _ w2)
          ])
          (os_handler _ λ w'. raises_returned _ _ w'))
    | inr missing ↦ rw missing (raises_returned _ _ w)
  ]

  pub read_session-RaisesOnly :
      (workspace rel : Text) (w : World E) → RaisesOnly Never (read_session_text workspace rel w)
  unfolding read_session_text
  read_session-RaisesOnly workspace rel w = elim (Bool-cases (truthy workspace && truthy rel)) [
    | inl given ↦ rw given (
        handled-RaisesOnly IsOsError Never _ _
          (resume-RaisesOnly _ _ _ (exists-RaisesOnly _ w) λ found w1. elim (Bool-cases found) [
            | inl there ↦ rw there (
                resume-RaisesOnly _ _ _ (read-RaisesOnly _ w1) λ content w2. raises_returned _ _ w2)
            | inr missing ↦ rw missing (raises_returned _ _ w1)
          ])
          (os_handler _ λ w'. raises_returned _ _ w'))
    | inr missing ↦ rw missing (raises_returned _ _ w)
  ]

  restoring :
      (path : Text) (content : Option Text) (w : World E)
      → RaisesOnly IsOsError (restore path content w)
  restoring path none w = unlink-RaisesOnly path w
  restoring path (some content) w = write-RaisesOnly path content w

  pub restore-RaisesOnly :
      (workspace rel : Text) (content : Option Text) (w : World E)
      → RaisesOnly Never (restore_session_text workspace rel content w)
  unfolding restore_session_text
  restore-RaisesOnly workspace rel content w = elim (Bool-cases (truthy workspace && truthy rel)) [
    | inl given ↦ rw given (
        handled-RaisesOnly IsOsError Never _ _ (restoring _ content w)
          (os_handler _ λ w'. raises_returned _ _ w'))
    | inr missing ↦ rw missing (raises_returned _ _ w)
  ]

  existing-RaisesOnly : (path : Text) (w : World E) → RaisesOnly IsOsError (existing_text path w)
  unfolding existing_text
  existing-RaisesOnly path w = resume-RaisesOnly _ _ _ (exists-RaisesOnly path w) λ found w1.
      elim (Bool-cases found) [
        | inl there ↦ rw there (read-RaisesOnly path w1)
        | inr missing ↦ rw missing (raises_returned _ _ w1)
      ]

  pub append_test-RaisesOnly :
      (p : Platform) (workspace rel source : Text) (w : World E)
      → RaisesOnly Never (append_regression_test p workspace rel source w)
  unfolding append_regression_test
  append_test-RaisesOnly p workspace rel source w = elim (Bool-cases (truthy workspace)) [
    | inl given ↦ rw given (
        resume-RaisesOnly _ _ _
          (handled-RaisesOnly IsOsError Never _ _
            (resume-RaisesOnly _ _ _ (mkdir-RaisesOnly _ w) λ _ w1.
              resume-RaisesOnly _ _ _ (existing-RaisesOnly _ w1)
                λ existing w2. append-RaisesOnly _ _ w2)
            (os_handler _ λ w'. raises_returned _ _ w'))
          λ _ w3. raises_returned _ _ w3)
    | inr missing ↦ rw missing (raises_returned _ _ w)
  ]
