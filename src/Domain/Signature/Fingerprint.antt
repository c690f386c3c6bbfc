-- ===== src/Domain/Signature/Fingerprint.antt =====
-- When two signatures of src/core/domain/signature.py are the same error.
use self_healing_system_tfg.Base.{
  ◌≡◌, refl, sym, ap, ◌∙◌, ◌↔◌, Bool, true, false, ◌||◌, [], ◌∷◌, ◌++◌, some, arith, ◌==◌,
  append_assoc,
}
use self_healing_system_tfg.Python.Text.{Text, text, has_char}
use self_healing_system_tfg.Python.Text.Lemmas.{text_eq_refl, text_eq→eq}
use self_healing_system_tfg.Domain.Signature.{
  ErrorKind, crash, test, kind_text, ErrorSignature, raw_key, fingerprint, matches,
}

-- The two signatures name one spot: the message does not count.
pub record IsSameSpot (s t : ErrorSignature) : Type 0 where
  pub kinds : s.kind ≡ t.kind
  pub types : s.exc_type ≡ t.exc_type
  pub locations : s.location ≡ t.location

abbrev bar : Text
bar = b'|' ∷ []

or_false : (a b : Bool) → a || b ≡ false → b ≡ false
or_false false b h = h
or_false true b h = cc

-- What stands before the first bar and what stands after it are known.
split_bar :
    (x y : Text) (l m : Text)
    → has_char b'|' x ≡ false
    → has_char b'|' y ≡ false
    → x ++ bar ++ l ≡ y ++ bar ++ m
    → (x ≡ y) × (l ≡ m)
unfolding has_char
split_bar [] [] l m h k e = (refl, cc)
split_bar [] (d ∷ y) l m h k e = let same : d ≡ b'|' = cc in ground (arith, same, k)
split_bar (c ∷ x) [] l m h k e = let same : c ≡ b'|' = cc in ground (arith, same, h)
split_bar (c ∷ x) (d ∷ y) l m h k e =
    let heads : c ≡ d = cc in
    let tails : x ++ bar ++ l ≡ y ++ bar ++ m = cc in
    let (before, after) = split_bar x y l m (or_false _ _ h) (or_false _ _ k) tails in
    let whole : c ∷ x ≡ d ∷ y = rw (heads, before) in (whole, after)

abbrev starts_with_c : Text → Bool
starts_with_c [] = false
starts_with_c (c ∷ s) = c == b'c'

-- A key begins with its kind.
split_kind :
    (a b : ErrorKind) (u v : Text)
    → kind_text a ++ bar ++ u ≡ kind_text b ++ bar ++ v
    → (a ≡ b) × (u ≡ v)
unfolding kind_text text
split_kind crash crash u v e = (refl, cc)
split_kind crash test u v e = let wrong : true ≡ false = ap starts_with_c e in cc
split_kind test crash u v e = let wrong : false ≡ true = ap starts_with_c e in cc
split_kind test test u v e = (refl, cc)

raw_key_parts :
    (s : ErrorSignature) → raw_key s ≡ kind_text s.kind ++ bar ++ (s.exc_type ++ bar ++ s.location)
unfolding raw_key
raw_key_parts s = simp append_assoc

keys_same :
    (s t : ErrorSignature)
    → has_char b'|' s.exc_type ≡ false
    → has_char b'|' t.exc_type ≡ false
    → raw_key s ≡ raw_key t
    → IsSameSpot s t
keys_same s t h k e =
    let parts : kind_text s.kind ++ bar ++ (s.exc_type ++ bar ++ s.location)
        ≡ kind_text t.kind ++ bar ++ (t.exc_type ++ bar ++ t.location) =
      sym (raw_key_parts s) ∙ e ∙ raw_key_parts t in
    let (kinds, rest) =
      split_kind s.kind t.kind (s.exc_type ++ bar ++ s.location) (t.exc_type ++ bar ++ t.location)
        parts in
    let (types, locations) = split_bar s.exc_type t.exc_type s.location t.location h k rest in
    record { kinds = kinds; types = types; locations = locations }

same_keys : (s t : ErrorSignature) → IsSameSpot s t → raw_key s ≡ raw_key t
unfolding raw_key
same_keys s t same = rw (same.kinds, same.types, same.locations)

-- Two signatures match exactly if they name one spot: the same kind, exception type and location,
-- whatever their messages; if no type holds a bar, and the truncated hash does not confuse their
-- two keys.
pub matches-IsSameSpot :
    (sha256_hex : Text → Text) (s t : ErrorSignature)
    → has_char b'|' s.exc_type ≡ false
    → has_char b'|' t.exc_type ≡ false
    → (fingerprint sha256_hex s ≡ fingerprint sha256_hex t → raw_key s ≡ raw_key t)
    → (matches sha256_hex s (some t) ≡ true) ↔ IsSameSpot s t
unfolding matches fingerprint
matches-IsSameSpot sha s t h k apart = (
  λ alike. keys_same s t h k (apart (text_eq→eq _ _ alike)),
  λ same. rw (same_keys s t same) (text_eq_refl (fingerprint sha t)),
)
