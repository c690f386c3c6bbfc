-- ===== src/Observability/Context.antt =====
-- src/observability/llm.py, the context variables: the agent that a completion is tagged with.
use self_healing_system_tfg.Base.{◌≡◌}
use self_healing_system_tfg.Python.Effects.{Outcome, returned, World, Py, finished}

-- A `ContextVar` of the environment.
pub record ContextVar (E A : Type 0) : Type 0 where
  pub get : World E → A
  pub set : A → World E → World E

-- What is set is read.
pub record IsStored {E A : Type 0} (var : ContextVar E A) : Type 0 where
  pub get-set : (a : A) (w : World E) → var.get (var.set a w) ≡ a

module _ {E A B : Type 0} (var : ContextVar E A) where
  -- `token = var.set(value)`, then the block, and `var.reset(token)` in the `finally`: `use_agent`
  -- and `using_llm_sink`.
  unfoldable pub with_value : A → Py E B → Py E B
  with_value value body w =
      let old = var.get w in finished (λ v. (returned tt, var.set old v)) (body (var.set value w))

  ended :
      (stored : IsStored var) (old : A) (o : Outcome B × World E)
      → var.get ((finished (λ v. (returned tt, var.set old v)) o).1) ≡ old
  unfolding finished
  ended stored old (o, v) = stored.get-set old v

  -- After a block under `use_agent` or `using_llm_sink` the variable is what it was, also if the
  -- block raised or set it; if the variable reads what was set.
  pub with_value_resets :
      IsStored var
      → (value : A) (body : Py E B) (w : World E)
      → var.get ((with_value value body w).1) ≡ var.get w
  unfolding with_value
  with_value_resets stored value body w = ended stored (var.get w) (body (var.set value w))
