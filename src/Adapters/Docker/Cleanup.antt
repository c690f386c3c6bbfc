-- ===== src/Adapters/Docker/Cleanup.antt =====
-- The containers that a run of the Docker sandbox leaves.
use self_healing_system_tfg.Base.{
  ◌⊎◌, ℕ, ◌≡◌, refl, ◌∙◌, ap, subst, false, not, List, [], ◌∷◌, arith, ◌==◌, keep, any, Bool-cases,
  inl, inr,
}
use self_healing_system_tfg.Python.Text.{Text}
use self_healing_system_tfg.Python.Effects.{
  Exn, Outcome, returned, raised, World, pure, rescue, finally, resume, handled, import_error,
  timeout_error, docker_sandbox, sandbox_timeout,
}
use self_healing_system_tfg.Python.Effects.Leaves.{
  Leaves, Leaves-at, Leaves-elim, Leaves-intro, Leaves-map, resume-Leaves, handled-Leaves,
  finished-Leaves,
}
use self_healing_system_tfg.Python.Platform.{Platform}
use self_healing_system_tfg.Config.{Settings}
use self_healing_system_tfg.Adapters.Docker.{
  DockerSdk, RunOptions, run_options, ensure_client, except_import_error, as_sandbox_error, inspect,
  clean_up, run_blocking, wait_for, except_run_error, docker_run_tests,
}

abbrev pub without : ℕ → List ℕ → List ℕ
without c cs = keep (λ d. not (d == c)) cs

-- One container more, a new one.
abbrev pub HasNew : {E : Type 0} → (World E → List ℕ) → List ℕ → ℕ → World E → Type 0
HasNew live before c w = (live w ≡ c ∷ before) × (any (λ d. d == c) before ≡ false)

-- `containers.run` creates a container and starts it: if the start fails, the container is left.
abbrev pub Starts : {E : Type 0} → (World E → List ℕ) → List ℕ → Outcome ℕ × World E → Type 0
Starts live before (returned c, w) = HasNew live before c w
Starts live before (raised e, w) = (live w ≡ before) ⊎ ((c : ℕ) × HasNew live before c w)

-- A removal by force takes its container away, unless it fails.
abbrev pub Removes :
    {E : Type 0} → (World E → List ℕ) → List ℕ → ℕ → Outcome (Unit {0}) × World E → Type 0
Removes live before c (returned u, w) = live w ≡ without c before
Removes live before c (raised e, w) = (live w ≡ before) ⊎ (live w ≡ without c before)

-- How the daemon keeps its containers: `run` makes one, a removal takes one away, and no other call
-- changes them.
pub record TracksContainers {E : Type 0} (sdk : DockerSdk E) (live : World E → List ℕ)
    : Type 0 where
  pub imports : (w : World E) → live ((sdk.import_docker w).1) ≡ live w
  pub connects : (w : World E) → live ((sdk.from_env w).1) ≡ live w
  pub starts : (o : RunOptions) (w : World E) → Starts live (live w) (sdk.run_container o w)
  pub waits : (c : ℕ) (w : World E) → live ((sdk.wait c w).1) ≡ live w
  pub reads : (c : ℕ) (w : World E) → live ((sdk.logs c w).1) ≡ live w
  pub removes : (c : ℕ) (w : World E) → Removes live (live w) c (sdk.remove c w)

without_absent : (c : ℕ) (cs : List ℕ) → any (λ d. d == c) cs ≡ false → without c cs ≡ cs
without_absent c [] h = refl
without_absent c (d ∷ cs) h = ground (arith, without_absent c cs)

without_new : (c : ℕ) (cs : List ℕ) → any (λ d. d == c) cs ≡ false → without c (c ∷ cs) ≡ cs
without_new c cs h = ground (arith, without_absent c cs h)

module _ {E : Type 0} (sdk : DockerSdk E) (live : World E → List ℕ)
    (tracks : TracksContainers sdk live) (p : Platform) (s : Settings) (workspace image : Text)
    (command : List Text) where
  abbrev Has : List ℕ → World E → Type 0
  Has cs w = live w ≡ cs

  import_handler :
      (cs : List ℕ) (e : Exn) (w : World E)
      → Has cs w
      → Leaves (Has cs) (except_import_error sdk e w)
  import_handler cs (import_error m) w h = Leaves-at _ _ w h
  import_handler cs e w h = Leaves-at _ _ w h

  client-Leaves : (w : World E) → Leaves (Has (live w)) (ensure_client sdk w)
  unfolding ensure_client
  client-Leaves w = elim (Bool-cases (sdk.has_client w)) [
    | inl there ↦ rw there (Leaves-at _ _ w refl)
    | inr missing ↦ rw missing (
        resume-Leaves _ _ _ _
          (handled-Leaves _ _ _ (Leaves-intro _ _ (tracks.imports w)) (import_handler (live w)))
          (λ w1 h. h)
          λ _ w1 h.
            handled-Leaves _ _ _ (Leaves-intro _ _ (tracks.connects w1 ∙ h))
              λ e w2 k. Leaves-at _ _ w2 k)
  ]

  translated :
      (A : Type 0) (cs : List ℕ) (e : Exn) (w : World E)
      → Has cs w
      → Leaves (Has cs) (as_sandbox_error sdk {A = A} e w)
  translated A cs (sandbox_timeout m) w h = Leaves-at _ _ w h
  translated A cs e w h = Leaves-at _ _ w h

  inspect-Leaves :
      (c : ℕ) (cs : List ℕ) (w : World E) → Has cs w → Leaves (Has cs) (inspect sdk c w)
  unfolding inspect
  inspect-Leaves c cs w h =
      resume-Leaves _ _ _ _ (Leaves-intro _ _ (tracks.waits c w ∙ h)) (λ w1 k. k)
        λ status w1 k.
          resume-Leaves _ _ _ _ (Leaves-intro _ _ (tracks.reads c w1 ∙ k)) (λ w2 l. l)
            λ logs w2 l. Leaves-at _ _ w2 l

  -- The daemon failed to start the container, or to remove it.
  abbrev pub Failed : ℕ → Type 0
  Failed c =
      (e : Exn) × (w1 : World E) × (w2 : World E) × ((sdk.run_container
            (run_options s workspace image command) w1
          ≡ (raised e, w2))
        ⊎ (sdk.remove c w1 ≡ (raised e, w2)))

  -- The containers are `cs`, or these and one that the daemon failed to start or to remove.
  abbrev pub IsCleaned : List ℕ → World E → Type 0
  IsCleaned cs w = (live w ≡ cs) ⊎ ((c : ℕ) × HasNew live cs c w × Failed c)

  removal-Leaves :
      (c : ℕ) (cs : List ℕ) (w : World E) (r : Outcome (Unit {0}) × World E)
      → HasNew live cs c w
      → sdk.remove c w ≡ r
      → Removes live (live w) c r
      → Leaves (IsCleaned cs) (handled (λ _. pure tt) r)
  unfolding handled
  removal-Leaves c cs w (returned u, w1) new ran gone =
      Leaves-at _ _ w1 (inl (gone ∙ ap (without c) new.0 ∙ without_new c cs new.1))
  removal-Leaves c cs w (raised e, w1) new ran (inl kept) =
      Leaves-at _ _ w1 (inr (c, (kept ∙ new.0, new.1), (e, w, w1, inr ran)))
  removal-Leaves c cs w (raised e, w1) new ran (inr gone) =
      Leaves-at _ _ w1 (inl (gone ∙ ap (without c) new.0 ∙ without_new c cs new.1))

  removed-Leaves :
      (c : ℕ) (cs : List ℕ) (w : World E)
      → HasNew live cs c w
      → Leaves (IsCleaned cs) (clean_up sdk c w)
  removed-Leaves c cs w new = removal-Leaves c cs w (sdk.remove c w) new refl (tracks.removes c w)

  left_over :
      (cs : List ℕ) (e : Exn) (w0 w : World E)
      → sdk.run_container (run_options s workspace image command) w0 ≡ (raised e, w)
      → Starts live cs (raised e, w)
      → IsCleaned cs w
  left_over cs e w0 w ran (inl none_left) = inl none_left
  left_over cs e w0 w ran (inr (c, new)) = inr (c, new, (e, w0, w, inl ran))

  started-Leaves :
      (cs : List ℕ) (w0 : World E) (o : Outcome ℕ × World E)
      → sdk.run_container (run_options s workspace image command) w0 ≡ o
      → Starts live cs o
      → Leaves (IsCleaned cs) (
          resume
            (handled (as_sandbox_error sdk) o)
            λ c. finally (rescue (inspect sdk c) (as_sandbox_error sdk)) (clean_up sdk c))
  unfolding resume handled
  started-Leaves cs w0 (returned c, w) ran new =
      finished-Leaves (HasNew live cs c) (IsCleaned cs) _ _
        (handled-Leaves _ _ _
          (Leaves-map _ _ _ (inspect-Leaves c (c ∷ cs) w new.0) λ w1 k. (k, new.1))
          λ e w1 k. Leaves-map _ _ _ (translated _ (c ∷ cs) e w1 k.0) λ w2 l. (l, new.1))
        λ w1 k. removed-Leaves c cs w1 k
  started-Leaves cs w0 (raised (sandbox_timeout m), w) ran h =
      Leaves-at _ _ w (left_over cs _ w0 w ran h)
  started-Leaves cs w0 (raised e, w) ran h = Leaves-at _ _ w (left_over cs e w0 w ran h)

  run-Leaves :
      (w : World E) → Leaves (IsCleaned (live w)) (run_blocking sdk s workspace image command w)
  unfolding run_blocking
  run-Leaves w =
      resume-Leaves _ _ _ _ (client-Leaves w) (λ w1 h. inl h)
        λ _ w1 h. started-Leaves (live w) w1 _ refl (
          subst
            (λ cs. Starts live cs (sdk.run_container (run_options s workspace image command) w1)) h
            (tracks.starts _ w1))

  run_handler :
      (cs : List ℕ) (e : Exn) (w : World E)
      → IsCleaned cs w
      → Leaves (IsCleaned cs) (except_run_error sdk p e w)
  run_handler cs (timeout_error m) w h = Leaves-at _ _ w h
  run_handler cs (docker_sandbox m) w h = Leaves-at _ _ w h
  run_handler cs (sandbox_timeout m) w h = Leaves-at _ _ w h
  run_handler cs e w h = Leaves-at _ _ w h

  late-Leaves :
      (w : World E)
      → Leaves (IsCleaned (live w)) (wait_for sdk (run_blocking sdk s workspace image command) w)
  unfolding wait_for
  late-Leaves w =
      let (o, w') = run_blocking sdk s workspace image command w in
      let left = Leaves-elim _ _ (run-Leaves w) in
      elim (Bool-cases (sdk.is_late w')) [
        | inl late ↦ rw late (Leaves-at _ _ _ left)
        | inr soon ↦ rw soon (Leaves-at _ _ _ left)
      ]

  -- However a run of the Docker sandbox ends, by a verdict, an error or a timeout, the containers that
  -- are there once its worker thread has ended are those that were there before it, or these and one new
  -- one, which the daemon failed to start or to remove; if a start makes at most one new container, a
  -- removal that does not fail takes away its own, and no other call changes them.
  pub docker_run_cleans_up :
      (w : World E) → IsCleaned (live w) ((docker_run_tests sdk p s workspace image command w).1)
  unfolding docker_run_tests
  docker_run_cleans_up w = Leaves-elim _ _ (
      handled-Leaves _ _ _
        (resume-Leaves _ _ _ _ (late-Leaves w) (λ w1 h. h) λ raw w1 h. Leaves-at _ _ w1 h)
        (run_handler (live w)))
