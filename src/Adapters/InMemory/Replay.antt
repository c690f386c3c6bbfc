-- ===== src/Adapters/InMemory/Replay.antt =====
-- What a sequence of calls of the in-memory sandbox answers.
use self_healing_system_tfg.Base.{
  ℕ, zero, suc, ◌≡◌, ◌≤◌, arith, refl, ap, ◌∙◌, List, [], ◌∷◌, ◌++◌, map, take,
}
use self_healing_system_tfg.Python.Text.{Text}
use self_healing_system_tfg.Python.Effects.{Outcome, returned, raised, World}
use self_healing_system_tfg.Python.Effects.Raises.{RaisesOnly, Never, raises_returned}
use self_healing_system_tfg.Python.Platform.{Platform}
use self_healing_system_tfg.Domain.Enums.{SandboxVerdict}
use self_healing_system_tfg.Domain.Models.{SandboxResult}
use self_healing_system_tfg.Adapters.InMemory.{
  Scripted, verdict_result, scripted_run, scripted_run_tests,
}

abbrev pub again {ℓ} : {A : Type ℓ} → ℕ → A → List A
again zero a = []
again (suc n) a = a ∷ again n a

module _ (p : Platform) (workspace image : Text) (command : List Text) where
  abbrev answered :
      Outcome SandboxResult × World Scripted
      → (World Scripted → List SandboxResult)
      → List SandboxResult
  answered (returned r, w) rest = r ∷ rest w
  answered (raised e, w) rest = []

  -- The answers of `n` calls in a row, while they return.
  unfoldable pub answers : ℕ → World Scripted → List SandboxResult
  unfolding scripted_run_tests
  answers zero w = []
  answers (suc n) w = answered (scripted_run_tests p workspace image command w) (λ w'. answers n w')

  queued_run :
      (results : List SandboxResult) (queue : List SandboxVerdict) (w : World Scripted)
      (v : SandboxVerdict) (vs : List SandboxVerdict)
      → results ≡ []
      → queue ≡ v ∷ vs
      → scripted_run p results queue w
        ≡ (returned (verdict_result p v), record w { env = record (w.env) { queue = vs } })
  queued_run (r ∷ rs) q w v vs a b = cc
  queued_run [] q w v vs a b = rw b refl

  default_run :
      (results : List SandboxResult) (queue : List SandboxVerdict) (w : World Scripted)
      → results ≡ []
      → queue ≡ []
      → scripted_run p results queue w ≡ (returned (verdict_result p w.env.default_verdict), w)
  default_run [] [] w a b = refl
  default_run [] (v ∷ vs) w a b = cc
  default_run (r ∷ rs) vs w a b = cc

  answers_in :
      (n k : ℕ) (results : List SandboxResult) (queue : List SandboxVerdict) (w : World Scripted)
      → n ≤ k
      → w.env.results ≡ results
      → w.env.queue ≡ queue
      → answers n w
        ≡ take n (
            results
            ++ map (verdict_result p) queue
            ++ again k (verdict_result p w.env.default_verdict))
  unfolding answers scripted_run_tests
  answers_in zero k rs vs w h a b = refl
  answers_in (suc n) k (r ∷ rs) vs w h a b =
      rw a (ap (λ xs. r ∷ xs) (answers_in n k rs vs _ (omega arith) refl b))
  answers_in (suc n) k [] (v ∷ vs) w h a b =
      ap (λ o. answered o (λ w'. answers n w')) (queued_run _ _ w v vs a b)
      ∙ ap (λ xs. verdict_result p v ∷ xs)
          (answers_in n k [] vs (record w { env = record (w.env) { queue = vs } }) (omega arith) a
            refl)
  answers_in (suc n) zero [] [] w h a b = absurd (omega arith)
  answers_in (suc n) (suc k) [] [] w h a b =
      ap (λ o. answered o (λ w'. answers n w')) (default_run _ _ w a b)
      ∙ (ap (λ xs. verdict_result p w.env.default_verdict ∷ xs)
          (answers_in n k [] [] w (omega arith) a b))

  -- Calls of the in-memory sandbox answer its scripted results, then a result for each queued
  -- verdict, both in order and each once, and then the default verdict for ever.
  pub answers_script :
      (n : ℕ) (w : World Scripted)
      → answers n w
        ≡ take n (
            w.env.results
            ++ map (verdict_result p) w.env.queue
            ++ again n (verdict_result p w.env.default_verdict))
  answers_script n w = answers_in n n _ _ w (omega arith) refl refl

  leaves_in :
      (results : List SandboxResult) (queue : List SandboxVerdict) (w : World Scripted)
      → ((scripted_run p results queue w).1.files ≡ w.files)
        × ((scripted_run p results queue w).1.denied ≡ w.denied)
  leaves_in [] [] w = (refl, refl)
  leaves_in [] (v ∷ vs) w = (refl, refl)
  leaves_in (r ∷ rs) vs w = (refl, refl)

  pub run_leaves_files :
      (w : World Scripted)
      → ((scripted_run_tests p workspace image command w).1.files ≡ w.files)
        × ((scripted_run_tests p workspace image command w).1.denied ≡ w.denied)
  unfolding scripted_run_tests
  run_leaves_files w = leaves_in w.env.results w.env.queue w

  raises_in :
      (results : List SandboxResult) (queue : List SandboxVerdict) (w : World Scripted)
      → RaisesOnly Never (scripted_run p results queue w)
  raises_in [] [] w = raises_returned _ _ _
  raises_in [] (v ∷ vs) w = raises_returned _ _ _
  raises_in (r ∷ rs) vs w = raises_returned _ _ _

  pub run-RaisesOnly :
      (w : World Scripted) → RaisesOnly Never (scripted_run_tests p workspace image command w)
  unfolding scripted_run_tests
  run-RaisesOnly w = raises_in w.env.results w.env.queue w
