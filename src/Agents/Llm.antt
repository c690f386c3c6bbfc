-- ===== src/Agents/Llm.antt =====
-- src/agents/_llm.py: one completion by litellm, whose API is a parameter. Every failure becomes a
-- `RuntimeError`, for the caller to convert or to swallow.
use self_healing_system_tfg.Base.{Bool, true, List, ◌++◌, Option, none, some}
use self_healing_system_tfg.Python.Text.{Text, text}
use self_healing_system_tfg.Python.Effects.{
  Exn, World, message, import_error, timeout_error, runtime_error, Py, pure, throw, rescue, ◌>>=◌,
  ◌>>◌,
}
use self_healing_system_tfg.Python.Effects.Raises.{
  RaisesOnly, raises_returned, raises_raised, handled-RaisesOnly, handled_all-RaisesOnly,
  resume-RaisesOnly,
}

-- `{"role": ..., "content": ...}`
pub record ChatMessage : Type 0 where
  pub role : Text
  pub content : Text

-- The arguments of `litellm.acompletion`.
pub record CompletionCall : Type 0 where
  pub model : Text
  pub messages : List ChatMessage
  pub temperature : Text
  pub drop_params : Bool

-- What `response.choices[0].message.content` comes to: a value, an AttributeError, IndexError or KeyError,
-- or another exception.
pub data Content : Type 0 where
  found : Option Text → Content
  misshapen : Content
  unread : Exn → Content

-- litellm. `acompletion` is the call under `asyncio.wait_for`, with its timeout. `content_of` reads
-- `response.choices[0].message.content`.
pub record LiteLlm (E : Type 0) : Type 1 where
  pub Response : Type 0
  pub import_litellm : Py E (Unit {0})
  pub acompletion : CompletionCall → (timeout_seconds : Text) → Py E Response
  pub content_of : Response → Content
  pub repr_of : Response → Text

module _ {E : Type 0} (api : LiteLlm E) where
  abbrev except_missing : Exn → Py E (Unit {0})
  except_missing (import_error m) =
      throw (runtime_error (text "litellm is not installed. Install with: pip install litellm"))
  except_missing e = throw e

  abbrev except_completion : Text → Exn → Py E (api.Response)
  except_completion timeout_seconds (timeout_error m) =
      throw (runtime_error (text "LLM completion timed out after " ++ timeout_seconds ++ text "s"))
  except_completion timeout_seconds e =
      throw (runtime_error (text "LLM completion failed: " ++ message e))

  -- `content or ""`; `shape` is raised for the exceptions that the code names, and no other is caught.
  abbrev content_or : Exn → Content → Py E Text
  content_or shape misshapen = throw shape
  content_or shape (unread e) = throw e
  content_or shape (found none) = pure (text "")
  content_or shape (found (some content)) = pure content

  unfoldable pub acomplete : Text → List ChatMessage → Text → Text → Py E Text
  unfolding text
  acomplete model messages temperature timeout_seconds = do
    rescue api.import_litellm except_missing
    let call : CompletionCall = record {
      model = model;
      messages = messages;
      temperature = temperature;
      drop_params = true;
    }
    response ← rescue (api.acompletion call timeout_seconds) (except_completion timeout_seconds)
    content_or
        (runtime_error (text "LLM returned an unexpected response shape: " ++ api.repr_of response))
        (api.content_of response)

abbrev pub IsRuntimeError : Exn → Type 0
IsRuntimeError (runtime_error m) = Unit
IsRuntimeError _ = ⊥

abbrev pub IsMissing : Exn → Type 0
IsMissing (import_error m) = Unit
IsMissing _ = ⊥

-- No exception but the named ones.
abbrev pub IsRead : Content → Type 0
IsRead (unread e) = ⊥
IsRead _ = Unit

module _ {E : Type 0} (api : LiteLlm E)
    (imports : (w : World E) → RaisesOnly IsMissing (api.import_litellm w))
    (reads : (r : api.Response) → IsRead (api.content_of r)) where
  missing-RaisesOnly :
      (e : Exn) (w : World E) → IsMissing e → RaisesOnly IsRuntimeError (except_missing api e w)
  missing-RaisesOnly (import_error m) w h = raises_raised _ _ _ w tt
  missing-RaisesOnly e w h = absurd h

  completion-RaisesOnly :
      (t : Text) (e : Exn) (w : World E) → RaisesOnly IsRuntimeError (except_completion api t e w)
  completion-RaisesOnly t (timeout_error m) w = raises_raised _ _ _ w tt
  completion-RaisesOnly t e w = raises_raised _ _ _ w tt

  content-RaisesOnly :
      (c : Content) (e : Exn) (w : World E)
      → IsRead c
      → IsRuntimeError e
      → RaisesOnly IsRuntimeError (content_or api e c w)
  content-RaisesOnly misshapen e w h k = raises_raised _ _ _ w k
  content-RaisesOnly (unread x) e w h k = absurd h
  content-RaisesOnly (found none) e w h k = raises_returned _ _ w
  content-RaisesOnly (found (some t)) e w h k = raises_returned _ _ w

  -- A completion raises nothing but a `RuntimeError`, if a response that cannot be read raises one of the
  -- exceptions that the code names.
  pub acomplete-RaisesOnly :
      (model : Text) (messages : List ChatMessage) (temperature timeout_seconds : Text)
      → (w : World E)
      → RaisesOnly IsRuntimeError (acomplete api model messages temperature timeout_seconds w)
  unfolding acomplete
  acomplete-RaisesOnly model messages temperature timeout_seconds w =
      resume-RaisesOnly _ _ _ (handled-RaisesOnly IsMissing _ _ _ (imports w) missing-RaisesOnly)
        λ _ w1.
          resume-RaisesOnly _ _ _
            (handled_all-RaisesOnly _ _ _ (completion-RaisesOnly timeout_seconds))
            λ response w2. content-RaisesOnly (api.content_of response) _ w2 (reads response) tt
