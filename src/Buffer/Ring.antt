-- ===== src/Buffer/Ring.antt =====
-- A ring of slots read from an index on, all the way round.
use native.Mathlib.Nat.{mod-eq_of_lt, mod-eq-sub-mod, mod-add-mod, mod-lt}
use native.Mathlib.Decide.{dec_lt}
use gx.Base.{
  ℕ, suc, ◌+◌, ◌-◌, ◌%◌, ◌≤◌, ◌<◌, ◌≡◌, sym, ap, ap₂, ◌∙◌, some, List, [], ◌∷◌, ◌++◌, append-nil,
  append_assoc, arith, length, get_elem?, set, take, drop, length-append, length-take, length-drop,
  get_elem?-drop, take-set_ge, take-suc, take_all, drop_all, drop-set_lt, drop-set_ge, take-set_lt,
  set-append_left, set-append_right, take-append_left,
}

-- The index `n` steps after `h` in a ring of `c` slots.
wrapped_index : (c h n : ℕ) → h < c → n ≤ c → c ≤ h + n → (h + n) % c ≡ h + n - c
wrapped_index c h n p q le = omega (
  arith,
  mod-eq-sub-mod {n = h + n} {m = c} (omega arith),
  mod-eq_of_lt {n = h + n - c} {m = c} (omega arith),
)

-- One step on and once round, less one, is back at the start.
front_index : (c h : ℕ) → h < c → h ≡ ((h + 1) % c + (c - 1)) % c
front_index c h p = sym (
    mod-add-mod (h + 1) c (c - 1)
    ∙ mod-eq-sub-mod {n = h + 1 + (c - 1)} {m = c} (omega arith)
    ∙ mod-eq_of_lt {n = h + 1 + (c - 1) - c} {m = c} (omega arith)
    ∙ omega arith)

module _ {ℓ} {A : Type ℓ} where
  abbrev pub rotate : ℕ → List A → List A
  rotate h xs = drop h xs ++ take h xs

  pub length-rotate : (h : ℕ) (xs : List A) → length (rotate h xs) ≡ length xs
  length-rotate h xs =
      omega (arith, length-append (drop h xs) (take h xs), length-drop h xs, length-take h xs)

  -- A write `n` slots after the front is a write at `n` of what is read.
  pub rotate-set :
      (xs : List A) (h n i : ℕ) (v : A)
      → h < length xs
      → n < length xs
      → i ≡ (h + n) % length xs
      → rotate h (set xs i v) ≡ set (rotate h xs) n v
  rotate-set xs h n i v p q e = elim (dec_lt (h + n) (length xs)) [
    | yes lt ↦
        let at : i ≡ h + n = omega (arith, mod-eq_of_lt lt) in
        ap₂ ◌++◌ (drop-set_ge h i xs v (omega arith) ∙ ap (λ k. set (drop h xs) k v) (omega arith))
          (take-set_ge h i xs v (omega arith))
        ∙ sym (set-append_left (drop h xs) (take h xs) n v (omega (arith, length-drop h xs)))
    | no ge ↦
        let at : i ≡ h + n - length xs =
          omega (arith, wrapped_index (length xs) h n p (omega arith) (omega arith)) in
        ap₂ ◌++◌ (drop-set_lt h i xs v (omega arith)) (take-set_lt h i xs v (omega arith))
        ∙ ap (λ k. drop h xs ++ set (take h xs) k v) (omega (arith, length-drop h xs))
        ∙ sym (set-append_right (drop h xs) (take h xs) n v (omega (arith, length-drop h xs)))
  ]

  -- The slots after the front one.
  abbrev pub behind : ℕ → List A → List A
  behind h xs = drop (suc h) xs ++ take h xs

  pub rotate-front :
      (xs : List A) (h : ℕ) (x : A)
      → h < length xs
      → get_elem? xs h ≡ some x
      → rotate h xs ≡ x ∷ behind h xs
  rotate-front xs h x p e =
      let (y, e', d) = get_elem?-drop xs h p in
      ap (λ l. l ++ take h xs) d ∙ ap (λ a. a ∷ behind h xs) (same y e')
    where
      same : (y : A) → get_elem? xs h ≡ some y → y ≡ x
      same y e' = cc

  -- One step on, the front slot has become the last.
  pub rotate-next :
      (xs : List A) (h : ℕ) (x : A)
      → h < length xs
      → get_elem? xs h ≡ some x
      → rotate ((h + 1) % length xs) xs ≡ behind h xs ++ x ∷ []
  rotate-next xs h x p e = elim (dec_lt (h + 1) (length xs)) [
    | yes lt ↦
        let at : (h + 1) % length xs ≡ suc h = omega (arith, mod-eq_of_lt lt) in
        ap (λ k. rotate k xs) at
        ∙ ap (◌++◌ (drop (suc h) xs)) (take-suc xs h x e)
        ∙ sym (append_assoc (drop (suc h) xs) (take h xs) (x ∷ []))
    | no ge ↦
        let at : (h + 1) % length xs ≡ 0 =
          omega (arith, wrapped_index (length xs) h 1 p (omega arith) (omega arith)) in
        ap (λ k. rotate k xs) at
        ∙ append-nil xs
        ∙ (sym (take_all (suc h) xs (omega arith)) ∙ take-suc xs h x e)
        ∙ ap (λ l. (l ++ take h xs) ++ x ∷ []) (sym (drop_all (suc h) xs (omega arith)))
  ]

  length-behind : (h : ℕ) (xs : List A) → h < length xs → length (behind h xs) ≡ length xs - 1
  length-behind h xs p =
      omega (
        arith,
        length-append (drop (suc h) xs) (take h xs),
        length-drop (suc h) xs,
        length-take h xs,
      )

  -- Clearing the front slot and stepping on leaves the values behind it.
  pub rotate-cleared :
      (xs : List A) (h m : ℕ) (x v : A)
      → h < length xs
      → m < length xs
      → get_elem? xs h ≡ some x
      → take m (rotate ((h + 1) % length xs) (set xs h v)) ≡ take m (behind h xs)
  rotate-cleared xs h m x v p q e =
      ap (take m) (
        rotate-set xs ((h + 1) % length xs) (length xs - 1) h v (mod-lt (h + 1) (omega arith))
          (omega arith) (front_index (length xs) h p))
      ∙ take-set_ge m (length xs - 1) (rotate ((h + 1) % length xs) xs) v (omega arith)
      ∙ ap (take m) (rotate-next xs h x p e)
      ∙ take-append_left m (behind h xs) (x ∷ []) (omega (arith, length-behind h xs p))
