-- ===== src/Prelude/Dict.antt =====
-- A Python dict as an association list in insertion order, over a key test `beq`.
use nova_ve.Prelude.{
  ◌≡◌, refl, inl, inr, Bool-cases, ◌↔◌, Bool, true, Option, none, some, List, [], ◌∷◌, arith,
  if◌then◌else◌,
}

module _ {K V : Type 0} (beq : K → K → Bool) where
  unfoldable pub get : K → List (K × V) → Option V
  get k [] = none
  get k ((j, v) ∷ m) = if beq j k then some v else get k m

  -- `d[k] = v`
  unfoldable pub put : K → V → List (K × V) → List (K × V)
  put k v [] = (k, v) ∷ []
  put k v ((j, w) ∷ m) = if beq j k then (j, v) ∷ m else (j, w) ∷ put k v m

  -- `d.pop(k, None)`
  unfoldable pub remove : K → List (K × V) → List (K × V)
  remove k [] = []
  remove k ((j, w) ∷ m) = let rest = remove k m in if beq j k then rest else (j, w) ∷ rest

  -- No key stands twice, as in a dict.
  abbrev pub Distinct : List (K × V) → Type 0
  Distinct [] = Unit
  Distinct ((k, v) ∷ m) = (get k m ≡ none) × Distinct m

  module _ (beq_iff : (a b : K) → (beq a b ≡ true) ↔ (a ≡ b)) where
    pub get-put :
        (k j : K) (v : V) (m : List (K × V))
        → get j (put k v m) ≡ (if beq k j then some v else get j m)
    unfolding get put
    get-put k j v [] = refl
    get-put k j v ((i, w) ∷ m) =
        ground (arith, beq_iff k j, beq_iff i k, beq_iff i j, get-put k j v m)

    pub get-remove :
        (k j : K) (m : List (K × V)) → get j (remove k m) ≡ (if beq k j then none else get j m)
    unfolding get remove
    get-remove k j [] = ground arith
    get-remove k j ((i, w) ∷ m) =
        ground (arith, beq_iff k j, beq_iff i k, beq_iff i j, get-remove k j m)

    pub Distinct-put : (k : K) (v : V) (m : List (K × V)) → Distinct m → Distinct (put k v m)
    unfolding put
    Distinct-put k v [] d = (unfold get in refl, tt)
    Distinct-put k v ((j, w) ∷ m) d = elim (Bool-cases (beq j k)) [
      | inl e ↦ rw e d
      | inr e ↦
          rw e (ground (arith, get-put k j v m, beq_iff j k, beq_iff k j), Distinct-put k v m d.1)
    ]

    pub Distinct-remove : (k : K) (m : List (K × V)) → Distinct m → Distinct (remove k m)
    unfolding remove
    Distinct-remove k [] d = tt
    Distinct-remove k ((j, w) ∷ m) d = elim (Bool-cases (beq j k)) [
      | inl e ↦ rw e (Distinct-remove k m d.1)
      | inr e ↦ rw e (ground (arith, get-remove k j m), Distinct-remove k m d.1)
    ]
