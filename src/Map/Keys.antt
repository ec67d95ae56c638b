-- ===== src/Map/Keys.antt =====
-- What `Keys`, `Values` and `Len` return, whatever the order of iteration.
use mathlib.Core.List.{Mem, Nodup, Perm, Nodup-nil, Nodup-cons, mem-cons, not-mem-nil}
use mathlib.Core.List.Perm
use mathlib.Core.Logic.Or
use gx.Base.{
  ◌≡◌, ◌↔◌, sym, ◌∙◌, Bool, true, List, [], ◌∷◌, ◌++◌, map, arith, Bool-cases, inl, inr, append-nil,
  append_assoc,
}
use gx.Dict.{Eq, ◌=?◌, Dict, lookup, found, keys_of}
use gx.Dict.Laws.{Distinct}
use gx.Map.{Map, has, keys, values, append_keys, append_values}

Bool-set : IsSet Bool
Bool-set = hlevel

module _ {ℓ κ} {K : Type ℓ} {V : Type κ} where
  append_keys_lem : (ks : List K) (l : List (K × V)) → append_keys ks l ≡ ks ++ keys_of l
  unfolding append_keys
  append_keys_lem ks [] = sym (append-nil ks)
  append_keys_lem ks ((k, v) ∷ l) =
      append_keys_lem (ks ++ k ∷ []) l ∙ append_assoc ks (k ∷ []) (keys_of l)

  append_values_lem : (vs : List V) (l : List (K × V)) → append_values vs l ≡ vs ++ map (λ b. b.1) l
  unfolding append_values
  append_values_lem vs [] = sym (append-nil vs)
  append_values_lem vs ((k, v) ∷ l) =
      append_values_lem (vs ++ v ∷ []) l ∙ append_assoc vs (v ∷ []) (map (λ b. b.1) l)

module _ {ℓ κ} {K : Type ℓ} {V : Type κ} ⦃e : Eq K⦄ where
  found_of_mem : (k : K) (d : Dict K V) → Mem k (keys_of d) → found (lookup k d) ≡ true
  unfolding lookup
  found_of_mem k [] m = absurd (not-mem-nil m)
  found_of_mem k ((j, v) ∷ d) m =
      Or.elim (Bool-set _ _) (mem-cons.0 m) (λ q. simp ((e.beq_iff j k).1 (sym q)))
        (λ m'. ground (arith, found_of_mem k d m'))

  mem_of_found : (k : K) (d : Dict K V) → found (lookup k d) ≡ true → Mem k (keys_of d)
  unfolding lookup
  mem_of_found k [] h = absurd (cc)
  mem_of_found k ((j, v) ∷ d) h = elim (Bool-cases (j =? k)) [
    | inl same ↦ mem-cons.1 (Or.inl (sym ((e.beq_iff j k).0 same)))
    | inr other ↦ mem-cons.1 (Or.inr (mem_of_found k d (simp other at h)))
  ]

  Distinct-Nodup : (d : Dict K V) → Distinct d → Nodup (keys_of d)
  Distinct-Nodup [] h = Nodup-nil
  Distinct-Nodup ((k, v) ∷ d) h =
      Nodup-cons.1 ((λ m. absurd (ground (arith, found_of_mem k d m, h.0))), Distinct-Nodup d h.1)

  -- `Keys` lists each key that `Has` finds exactly once, and `Values` the values beside them, in
  -- whatever order the iteration takes.
  pub keys_lem :
      (iterate : List (K × V) → List (K × V)) (s : Map K V) (k : K)
      → Perm (iterate s.m) s.m
      → Distinct s.m
      → Nodup (keys iterate s)
        × (Mem k (keys iterate s) ↔ (has s k ≡ true))
        × Perm (values iterate s) (map (λ b. b.1) s.m)
  unfolding keys values has
  keys_lem iterate s k p d =
      let listed : Perm (keys iterate s) (keys_of s.m) =
        rw (append_keys_lem [] (iterate s.m)) (Perm.map (λ b. b.0) p) in
      (
        Perm.nodup (Perm.symm listed) (Distinct-Nodup s.m d),
        (
          λ m. found_of_mem k s.m ((Perm.mem_iff listed).0 m),
          λ h. (Perm.mem_iff listed).1 (mem_of_found k s.m h),
        ),
        rw (append_values_lem [] (iterate s.m)) (Perm.map (λ b. b.1) p),
      )
