-- ===== src/Map/Refine.antt =====
-- A Map implements the partial function of Map/Spec.
use mathlib.Core.Path.{fun_ext}
use gx.Base.{◌≡◌, refl, ap, ap₂, ◌∙◌, Option, none, List, [], ◌∷◌, arith, if◌then◌else◌}
use gx.Dict.{Eq, ◌=?◌, Dict, lookup}
use gx.Dict.Laws.{Distinct, lookup-insert, lookup-erase, insert-Distinct, erase-Distinct}
use gx.Map.{Map, new_map, clear, has, remove, set, get_or_set, get, get_and_remove, call, run}
use gx.Map.Spec
use gx.Map.Spec.{
  update, Op, get_op, get_and_remove_op, has_op, remove_op, get_or_set_op, set_op, clear_op, Reply,
  done, flag, value,
}

module _ {ℓ κ} {K : Type ℓ} {V : Type κ} ⦃e : Eq K⦄ where
  abbrev pub view : Map K V → K → Option V
  view s k = lookup k s.m

  -- Writing back what is there changes nothing.
  lookup_same :
      (d : Dict K V) (k j : K) (o : Option V)
      → lookup k d ≡ o
      → lookup j d ≡ (if k =? j then o else lookup j d)
  lookup_same d k j o h = ground (arith, e.beq_iff k j)

module _ {ℓ κ} {K : Type ℓ} {V : Type κ} ⦃e : Eq K⦄ (zero_value : V) where
  abbrev Answers : (K → Option V) → Op K V → Reply V × Map K V → Type (ℓ ⊔ κ)
  Answers f o r =
      (r.0 ≡ (Spec.step zero_value f o).0)
      × ((j : K) → view r.1 j ≡ (Spec.step zero_value f o).1 j)
      × Distinct r.1.m

  -- A call replies as the partial function does, and leaves its update.
  call-Answers :
      (s : Map K V) (o : Op K V) → Distinct s.m → Answers (view s) o (call zero_value s o)
  unfolding call get get_and_remove has remove get_or_set set clear Spec.step lookup
  call-Answers s (get_op k) d = (ground arith, λ j. refl, d)
  call-Answers s (get_and_remove_op k) d = (
    ground arith,
    λ j. ground (arith, lookup-erase k j s.m d, lookup_same s.m k j none),
    ground (arith, erase-Distinct k s.m d),
  )
  call-Answers s (has_op k) d = (refl, λ j. refl, d)
  call-Answers s (remove_op k) d = (
    ground arith,
    λ j. ground (arith, lookup-erase k j s.m d, lookup_same s.m k j none),
    ground (arith, erase-Distinct k s.m d),
  )
  call-Answers s (get_or_set_op k v) d = (
    ground arith,
    λ j. ground (arith, lookup-insert k j v s.m, lookup_same s.m k j (lookup k s.m) refl),
    ground (arith, insert-Distinct k v s.m d),
  )
  call-Answers s (set_op k v) d = (refl, λ j. lookup-insert k j v s.m, insert-Distinct k v s.m d)
  call-Answers s clear_op d = (refl, λ j. refl, tt)

  run_answers :
      (s : Map K V) (os : List (Op K V))
      → Distinct s.m
      → ((run zero_value s os).0 ≡ (Spec.run zero_value (view s) os).0)
        × (view (run zero_value s os).1 ≡ (Spec.run zero_value (view s) os).1)
        × Distinct (run zero_value s os).1.m
  unfolding run Spec.run
  run_answers s [] d = (refl, refl, d)
  run_answers s (o ∷ os) d =
      let (r, w, d') = call-Answers s o d in
      let (rs, w', d'') = run_answers (call zero_value s o).1 os d' in
      let e = ap (λ f. Spec.run zero_value f os) (fun_ext w) in
      (ap₂ ◌∷◌ r (rs ∙ ap (λ p. p.0) e), w' ∙ ap (λ p. p.1) e, d'')

  -- Over any sequence of calls a new Map replies as the empty partial function that is updated does,
  -- a missing key reading as the zero value, ends holding that function, and never holds a key twice.
  pub new_map-run :
      (os : List (Op K V))
      → ((run zero_value new_map os).0 ≡ (Spec.run zero_value (λ j. none) os).0)
        × (view (run zero_value new_map os).1 ≡ (Spec.run zero_value (λ j. none) os).1)
        × Distinct (run zero_value new_map os).1.m
  unfolding lookup
  new_map-run os = run_answers new_map os tt
