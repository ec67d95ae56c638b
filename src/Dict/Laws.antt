-- ===== src/Dict/Laws.antt =====
-- Lookups after writes, and what keeps the keys distinct.
use gx.Base.{
  ◌+◌, ◌-◌, ◌<◌, ◌≡◌, refl, true, false, none, some, [], ◌∷◌, arith, length, if◌then◌else◌,
}
use gx.Dict.{Eq, ◌=?◌, Dict, lookup, insert, erase, found}

module _ {ℓ} {K : Type ℓ} ⦃e : Eq K⦄ where
  pub beq_refl : (k : K) → (k =? k) ≡ true
  beq_refl k = (e.beq_iff k k).1 refl

  pub beq_sym : (j k : K) → (j =? k) ≡ (k =? j)
  beq_sym j k = ground (arith, e.beq_iff j k, e.beq_iff k j)

module _ {ℓ κ} {K : Type ℓ} {V : Type κ} ⦃e : Eq K⦄ where
  -- Each key stands once.
  abbrev pub Distinct : Dict K V → Type 0
  Distinct [] = Unit
  Distinct ((k, v) ∷ d) = (found (lookup k d) ≡ false) × Distinct d

  pub lookup-insert :
      (k j : K) (v : V) (d : Dict K V)
      → lookup j (insert k v d) ≡ (if k =? j then some v else lookup j d)
  unfolding lookup insert
  lookup-insert k j v [] = refl
  lookup-insert k j v ((i, w) ∷ d) =
      ground (arith, e.beq_iff k j, e.beq_iff i k, e.beq_iff i j, lookup-insert k j v d)

  pub lookup-erase :
      (k j : K) (d : Dict K V)
      → Distinct d
      → lookup j (erase k d) ≡ (if k =? j then none else lookup j d)
  unfolding lookup erase
  lookup-erase k j [] h = ground arith
  lookup-erase k j ((i, w) ∷ d) h =
      ground (arith, e.beq_iff k j, e.beq_iff i k, e.beq_iff i j, lookup-erase k j d h.1, h.0)

  pub insert-Distinct : (k : K) (v : V) (d : Dict K V) → Distinct d → Distinct (insert k v d)
  unfolding insert lookup
  insert-Distinct k v [] h = (refl, tt)
  insert-Distinct k v ((i, w) ∷ d) h =
      ground
        (arith, e.beq_iff i k, e.beq_iff k i, lookup-insert k i v d, insert-Distinct k v d h.1, h.0)

  pub erase-Distinct : (k : K) (d : Dict K V) → Distinct d → Distinct (erase k d)
  unfolding erase
  erase-Distinct k [] h = tt
  erase-Distinct k ((i, w) ∷ d) h =
      ground
        (arith, e.beq_iff i k, e.beq_iff k i, lookup-erase k i d h.1, erase-Distinct k d h.1, h.0)

  pub length-insert :
      (k : K) (v : V) (d : Dict K V)
      → length (insert k v d) ≡ (if found (lookup k d) then length d else length d + 1)
  unfolding insert lookup
  length-insert k v [] = refl
  length-insert k v ((i, w) ∷ d) = ground (arith, length-insert k v d)

  found_nonempty : (k : K) (d : Dict K V) → found (lookup k d) ≡ true → 0 < length d
  unfolding lookup
  found_nonempty k [] h = absurd (cc)
  found_nonempty k (b ∷ d) h = omega arith

  pub length-erase :
      (k : K) (d : Dict K V)
      → length (erase k d) ≡ (if found (lookup k d) then length d - 1 else length d)
  unfolding erase lookup
  length-erase k [] = refl
  length-erase k ((i, w) ∷ d) = ground (arith, length-erase k d, found_nonempty k d)
