-- ===== src/Orchestrator/Graph/Ledger.antt =====
-- The ledgers of a session: the failed attempts of the error in progress and the healed errors.
use self_healing_system_tfg.Base.{
  ℕ, zero, suc, ◌+◌, ◌≤◌, ◌≡◌, refl, Bool, List, [], ◌∷◌, ◌++◌, map, map-append, arith, ◌==◌, keep,
  keep-append, length, length-append,
}
use native.Mathlib.Numerals.{add-one}
use self_healing_system_tfg.Python.Text.{Text}
use self_healing_system_tfg.Python.Platform.{Platform}
use self_healing_system_tfg.Domain.Signature.{ErrorSignature}
use self_healing_system_tfg.Domain.Models.{FailedAttempt, new_failed_attempt}
use self_healing_system_tfg.Domain.State.{HealingState}
use self_healing_system_tfg.Orchestrator.Nodes.Context.{current_cycle_attempts}
use self_healing_system_tfg.Orchestrator.Nodes.Repair.{rolled_back}
use self_healing_system_tfg.Orchestrator.Nodes.Commit.{recorded, advanced}

-- 0, 1, …, n - 1
abbrev pub upto : ℕ → List ℕ
upto zero = []
upto (suc n) = upto n ++ n ∷ []

abbrev pub AllBelow : ℕ → List FailedAttempt → Type 0
AllBelow c [] = Unit
AllBelow c (a ∷ as_) = (a.cycle_index ≤ c) × AllBelow c as_

-- The attempts of the present error are numbered from 0 to the counter, in order; no attempt is of a
-- later error; and each earlier error is healed.
pub record IsKept (s : HealingState) : Type 0 where
  pub numbered : map (λ a. a.attempt_index) (current_cycle_attempts s) ≡ upto s.attempt_count
  pub below : AllBelow s.error_cycle_index s.failed_attempts
  pub healed : length s.resolved_errors ≡ s.error_cycle_index

AllBelow-append :
    (c : ℕ) (xs : List FailedAttempt) (a : FailedAttempt)
    → AllBelow c xs
    → a.cycle_index ≤ c
    → AllBelow c (xs ++ a ∷ [])
AllBelow-append c [] a h k = (k, tt)
AllBelow-append c (x ∷ xs) a h k = (h.0, AllBelow-append c xs a h.1 k)

AllBelow-suc : (c : ℕ) (xs : List FailedAttempt) → AllBelow c xs → AllBelow (c + 1) xs
AllBelow-suc c [] h = tt
AllBelow-suc c (x ∷ xs) h = (omega arith, AllBelow-suc c xs h.1)

-- Of a later error there is no attempt yet.
keep-later :
    (c : ℕ) (xs : List FailedAttempt) → AllBelow c xs → keep (λ a. a.cycle_index == c + 1) xs ≡ []
keep-later c [] h = refl
keep-later c (x ∷ xs) h = ground (arith, keep-later c xs h.1)

upto-add_one : (n : ℕ) → upto (n + 1) ≡ upto n ++ n ∷ []
upto-add_one n = rw add-one

abbrev of_cycle : ℕ → FailedAttempt → Bool
of_cycle c a = a.cycle_index == c

keep_present : (c : ℕ) (a : FailedAttempt) → a.cycle_index ≡ c → keep (of_cycle c) (a ∷ []) ≡ a ∷ []
keep_present c a e = ground arith

numbered_next :
    (c n : ℕ) (xs : List FailedAttempt) (a : FailedAttempt)
    → a.cycle_index ≡ c
    → a.attempt_index ≡ n
    → map (λ b. b.attempt_index) (keep (of_cycle c) xs) ≡ upto n
    → map (λ b. b.attempt_index) (keep (of_cycle c) (xs ++ a ∷ [])) ≡ upto (n + 1)
numbered_next c n xs a here last h =
    rw (keep-append, keep_present c a here, map-append, h, last, upto-add_one)

module _ (p : Platform) (s : HealingState) (kept : IsKept s) where
  -- A rollback adds the attempt that was in progress, under its number.
  pub rolled_back-IsKept : IsKept (rolled_back p s)
  unfolding rolled_back current_cycle_attempts new_failed_attempt
  rolled_back-IsKept = record {
    numbered =
        numbered_next s.error_cycle_index s.attempt_count s.failed_attempts _ refl refl
          kept.numbered;
    below = AllBelow-append _ s.failed_attempts _ kept.below (omega arith);
    healed = kept.healed;
  }

  -- A commit that goes on begins the next error's account.
  pub advanced-IsKept :
      (sha : Text) (residual : ErrorSignature) → IsKept (advanced p s (recorded p s sha) residual)
  unfolding advanced recorded current_cycle_attempts
  advanced-IsKept sha residual = record {
    numbered = rw (keep-later s.error_cycle_index s.failed_attempts kept.below);
    below = AllBelow-suc _ s.failed_attempts kept.below;
    healed = omega (arith, kept.healed, length-append s.resolved_errors);
  }
