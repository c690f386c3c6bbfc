-- ===== src/Domain/Signature.antt =====
-- src/core/domain/signature.py: the fingerprint of an error. The parsers stand in the child Parse.
pub mod Fingerprint
pub mod Patterns
pub mod Parse
pub mod Samples
use self_healing_system_tfg.Base.{
  Bool, false, List, [], ◌∷◌, ◌++◌, Option, none, some, take, if◌then◌else◌,
}
use self_healing_system_tfg.Python.Text.{Text, text, text_eq, truthy}

-- `ErrorKind`
pub data ErrorKind : Type 0 where
  crash test : ErrorKind

unfoldable pub kind_text : ErrorKind → Text
unfolding text
kind_text crash = text "crash"
kind_text test = text "test"

pub record ErrorSignature : Type 0 where
  pub kind : ErrorKind
  pub exc_type : Text
  pub location : Text
  pub normalized_msg : Text

-- `f"{self.kind}|{self.exc_type}|{self.location}"`
unfoldable pub raw_key : ErrorSignature → Text
unfolding kind_text
raw_key s = kind_text s.kind ++ (b'|' ∷ []) ++ s.exc_type ++ (b'|' ∷ []) ++ s.location

-- The hash of hashlib is a parameter.
module _ (sha256_hex : Text → Text) where
  unfoldable pub fingerprint : ErrorSignature → Text
  unfolding raw_key
  fingerprint s = take 16 (sha256_hex (raw_key s))

  unfoldable pub matches : ErrorSignature → Option ErrorSignature → Bool
  unfolding text_eq
  matches s none = false
  matches s (some other) = text_eq (fingerprint s) (fingerprint other)

  -- `str(signature)`
  unfoldable pub signature_text : ErrorSignature → Text
  unfolding text
  signature_text s =
      (if truthy s.exc_type then s.exc_type else text "UnknownError")
      ++ (if truthy s.location then text " @ " ++ s.location else [])
      ++ text " ["
      ++ fingerprint s
      ++ text "]"
