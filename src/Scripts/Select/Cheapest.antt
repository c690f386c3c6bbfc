-- ===== src/Scripts/Select/Cheapest.antt =====
-- What the selection keeps: the cheapest of the admitted instances, in the order of their cost.
use self_healing_system_tfg.Base.{
  ℕ, zero, suc, ◌≡◌, true, false, List, [], ◌∷◌, ◌++◌, arith, length, take, drop, min, keep,
  take-append-drop, Bool-cases, inl, inr,
}
use mathlib.Core.List.{Perm}
use mathlib.Core.List.Perm
use self_healing_system_tfg.Scripts.Select.{
  Instance, Literals, Floats, cost_proxy, insert_by_cost, sort_by_cost, is_cheap, select,
}

-- `<` on the costs is a strict order whose ties are an equivalence: no cost is a NaN.
pub record IsOrder (fl : Floats) : Type 0 where
  pub asym : (a b : fl.Float) → fl.less a b ≡ true → fl.less b a ≡ false
  pub trans : (a b c : fl.Float) → fl.less b a ≡ false → fl.less c b ≡ false → fl.less c a ≡ false

length-take : {A : Type 0} (n : ℕ) (xs : List A) → length (take n xs) ≡ min n (length xs)
length-take zero xs = omega arith
length-take (suc n) [] = omega arith
length-take (suc n) (x ∷ xs) = omega (arith, length-take n xs)

module _ (fl : Floats) where
  -- No instance of the list is cheaper than `x`.
  abbrev pub NoneCheaper : Instance → List Instance → Type 0
  NoneCheaper x [] = Unit
  NoneCheaper x (y ∷ ys) = (fl.less (cost_proxy fl y) (cost_proxy fl x) ≡ false) × NoneCheaper x ys

  abbrev pub IsByCost : List Instance → Type 0
  IsByCost [] = Unit
  IsByCost (x ∷ xs) = NoneCheaper x xs × IsByCost xs

  -- No instance of the second list is cheaper than one of the first.
  abbrev pub AllCheaper : List Instance → List Instance → Type 0
  AllCheaper [] rest = Unit
  AllCheaper (x ∷ xs) rest = NoneCheaper x rest × AllCheaper xs rest

  insert-NoneCheaper :
      (z x : Instance) (ys : List Instance)
      → fl.less (cost_proxy fl x) (cost_proxy fl z) ≡ false
      → NoneCheaper z ys
      → NoneCheaper z (insert_by_cost fl x ys)
  unfolding insert_by_cost
  insert-NoneCheaper z x [] h k = (h, tt)
  insert-NoneCheaper z x (y ∷ ys) h k =
      elim (Bool-cases (fl.less (cost_proxy fl y) (cost_proxy fl x))) [
        | inl cheaper ↦ rw cheaper (k.0, insert-NoneCheaper z x ys h k.1)
        | inr dearer ↦ rw dearer (h, k)
      ]

  insert-perm : (x : Instance) (ys : List Instance) → Perm (insert_by_cost fl x ys) (x ∷ ys)
  unfolding insert_by_cost
  insert-perm x [] = Perm.rfl
  insert-perm x (y ∷ ys) = elim (Bool-cases (fl.less (cost_proxy fl y) (cost_proxy fl x))) [
    | inl cheaper ↦ rw cheaper (Perm.trans (Perm.cons y (insert-perm x ys)) (Perm.swap x y ys))
    | inr dearer ↦ rw dearer Perm.rfl
  ]

  sort-perm : (xs : List Instance) → Perm (sort_by_cost fl xs) xs
  unfolding sort_by_cost
  sort-perm [] = Perm.rfl
  sort-perm (x ∷ xs) = Perm.trans (insert-perm x (sort_by_cost fl xs)) (Perm.cons x (sort-perm xs))

  take-NoneCheaper :
      (n : ℕ) (x : Instance) (ys : List Instance) → NoneCheaper x ys → NoneCheaper x (take n ys)
  take-NoneCheaper zero x ys h = tt
  take-NoneCheaper (suc n) x [] h = tt
  take-NoneCheaper (suc n) x (y ∷ ys) h = (h.0, take-NoneCheaper n x ys h.1)

  drop-NoneCheaper :
      (n : ℕ) (x : Instance) (ys : List Instance) → NoneCheaper x ys → NoneCheaper x (drop n ys)
  drop-NoneCheaper zero x ys h = h
  drop-NoneCheaper (suc n) x [] h = tt
  drop-NoneCheaper (suc n) x (y ∷ ys) h = drop-NoneCheaper n x ys h.1

  take-IsByCost : (n : ℕ) (xs : List Instance) → IsByCost xs → IsByCost (take n xs)
  take-IsByCost zero xs h = tt
  take-IsByCost (suc n) [] h = tt
  take-IsByCost (suc n) (x ∷ xs) h = (take-NoneCheaper n x xs h.0, take-IsByCost n xs h.1)

  split-AllCheaper : (n : ℕ) (xs : List Instance) → IsByCost xs → AllCheaper (take n xs) (drop n xs)
  split-AllCheaper zero xs h = tt
  split-AllCheaper (suc n) [] h = tt
  split-AllCheaper (suc n) (x ∷ xs) h = (drop-NoneCheaper n x xs h.0, split-AllCheaper n xs h.1)

  module _ (order : IsOrder fl) where
    below-NoneCheaper :
        (x y : Instance) (ys : List Instance)
        → fl.less (cost_proxy fl y) (cost_proxy fl x) ≡ false
        → NoneCheaper y ys
        → NoneCheaper x ys
    below-NoneCheaper x y [] h k = tt
    below-NoneCheaper x y (z ∷ ys) h k = (order.trans _ _ _ h k.0, below-NoneCheaper x y ys h k.1)

    insert-IsByCost :
        (x : Instance) (ys : List Instance) → IsByCost ys → IsByCost (insert_by_cost fl x ys)
    unfolding insert_by_cost
    insert-IsByCost x [] h = (tt, tt)
    insert-IsByCost x (y ∷ ys) h = elim (Bool-cases (fl.less (cost_proxy fl y) (cost_proxy fl x))) [
      | inl cheaper ↦
          rw cheaper
            (insert-NoneCheaper y x ys (order.asym _ _ cheaper) h.0, insert-IsByCost x ys h.1)
      | inr dearer ↦ rw dearer ((dearer, below-NoneCheaper x y ys dearer h.0), h)
    ]

    sort-IsByCost : (xs : List Instance) → IsByCost (sort_by_cost fl xs)
    unfolding sort_by_cost
    sort-IsByCost [] = tt
    sort-IsByCost (x ∷ xs) = insert-IsByCost x (sort_by_cost fl xs) (sort-IsByCost xs)

    -- The selection is in the order of the costs, and with the admitted instances that it leaves out,
    -- none of which is cheaper than one of its own, it is all of the admitted ones; it leaves some out
    -- only if it has as many as the limit; if comparing floats is asymmetric and not being less is
    -- transitive.
    pub select_cheapest :
        (literals : Literals) (limit max_files max_patch_lines : ℕ) (instances : List Instance)
        → (rest : List Instance) × Perm
            (select fl literals limit max_files max_patch_lines instances ++ rest)
            (keep (is_cheap fl literals max_files max_patch_lines) instances)
          × IsByCost (select fl literals limit max_files max_patch_lines instances)
          × AllCheaper (select fl literals limit max_files max_patch_lines instances) rest
          × (length (select fl literals limit max_files max_patch_lines instances)
              ≡ min limit
                  (length (select fl literals limit max_files max_patch_lines instances ++ rest)))
    unfolding select
    select_cheapest literals limit max_files max_patch_lines instances =
        let admitted = keep (is_cheap fl literals max_files max_patch_lines) instances in
        let sorted = sort_by_cost fl admitted in
        (
          drop limit sorted,
          rw (take-append-drop limit sorted) (sort-perm admitted),
          take-IsByCost limit sorted (sort-IsByCost admitted),
          split-AllCheaper limit sorted (sort-IsByCost admitted),
          rw (take-append-drop limit sorted) (length-take limit sorted),
        )
