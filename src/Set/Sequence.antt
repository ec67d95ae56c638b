-- ===== src/Set/Sequence.antt =====
-- A Set implements the finite set of Set/Spec.
use gx.Base.{
  ◌≡◌, refl, ap, ap₂, ◌∙◌, ℕ, ◌+◌, ◌-◌, Bool, true, false, not, List, [], ◌∷◌, arith, if◌then◌else◌,
}
use gx.Dict.{Eq, Dict, lookup, insert}
use gx.Dict.Laws.{Distinct, insert-Distinct, length-insert, lookup-insert}
use gx.Set.{Set, new_set, add, has, remove, clear, len, insert_all}
use gx.Set.Refine.{change_lem}
use gx.Set.Spec
use gx.Set.Spec.{
  Finite, Op, add_op, has_op, remove_op, clear_op, len_op, Reply, done, flag, number, empty_set,
  with_value, without, with_all,
}

if_not : (b : Bool) (x y : ℕ) → (if not b then x else y) ≡ (if b then y else x)
if_not true x y = refl
if_not false x y = refl

module _ {ℓ} {T : Type ℓ} ⦃e : Eq T⦄ where
  -- One call of a client.
  unfoldable pub call : Set T → Op T → Reply × Set T
  call s (add_op v) = let (r, s') = add s v in (flag r, s')
  call s (has_op v) = (flag (has s v), s)
  call s (remove_op v) = let (r, s') = remove s v in (flag r, s')
  call s clear_op = (done, clear s)
  call s len_op = (number (len s), s)

  unfoldable pub run : Set T → List (Op T) → List Reply × Set T
  run s [] = ([], s)
  run s (o ∷ os) = let (r, s') = call s o in let (rs, s'') = run s' os in (r ∷ rs, s'')

  abbrev pub view : Set T → Finite T
  view s = record { member = has s; size = len s }

  finite_ext : (f g : Finite T) → ((w : T) → f.member w ≡ g.member w) → f.size ≡ g.size → f ≡ g
  finite_ext f g m n = λ i. record { member = λ w. m w i; size = n i }

  empty-view : view (record { m = [] }) ≡ empty_set
  unfolding has len lookup
  empty-view = refl

  clear-view : (s : Set T) → view (clear s) ≡ empty_set
  unfolding clear has len lookup
  clear-view s = refl

  cleared : (s : Set T) → Distinct (clear s).m
  unfolding clear
  cleared s = tt

  add-view :
      (s : Set T) (v : T)
      → Distinct s.m
      → (view (add s v).1 ≡ with_value (view s) v) × Distinct (add s v).1.m
  add-view s v d =
      let (new, members, size, d') = (change_lem s v v d).0 in
      (
        finite_ext _ _ (λ w. (change_lem s v w d).0.1)
            (size ∙ ap (λ b. if b then len s + 1 else len s) new ∙ if_not (has s v) _ _),
        d',
      )

  remove-view :
      (s : Set T) (v : T)
      → Distinct s.m
      → (view (remove s v).1 ≡ without (view s) v) × Distinct (remove s v).1.m
  remove-view s v d =
      let (old, members, size, d') = (change_lem s v v d).1 in
      (
        finite_ext _ _ (λ w. (change_lem s v w d).1.1)
            (size ∙ ap (λ b. if b then len s - 1 else len s) old),
        d',
      )

  -- A call replies as the finite set does, and leaves its update.
  call-view :
      (s : Set T) (o : Op T)
      → Distinct s.m
      → ((call s o).0 ≡ (Spec.step (view s) o).0)
        × (view (call s o).1 ≡ (Spec.step (view s) o).1)
        × Distinct (call s o).1.m
  unfolding call Spec.step
  call-view s (add_op v) d =
      let (w, d') = add-view s v d in (ap flag (change_lem s v v d).0.0, w, d')
  call-view s (has_op v) d = (refl, refl, d)
  call-view s (remove_op v) d =
      let (w, d') = remove-view s v d in (ap flag (change_lem s v v d).1.0, w, d')
  call-view s clear_op d = (refl, clear-view s, cleared s)
  call-view s len_op d = (refl, refl, d)

  run-view :
      (s : Set T) (os : List (Op T))
      → Distinct s.m
      → ((run s os).0 ≡ (Spec.run (view s) os).0)
        × (view (run s os).1 ≡ (Spec.run (view s) os).1)
        × Distinct (run s os).1.m
  unfolding run Spec.run
  run-view s [] d = (refl, refl, d)
  run-view s (o ∷ os) d =
      let (r, w, d') = call-view s o d in
      let (rs, w', d'') = run-view (call s o).1 os d' in
      let e = ap (λ f. Spec.run f os) w in
      (ap₂ ◌∷◌ r (rs ∙ ap (λ p. p.0) e), w' ∙ ap (λ p. p.1) e, d'')

  insert-view :
      (m : Dict T (Unit {0})) (v : T)
      → view (record { m = insert v tt m }) ≡ with_value (view (record { m = m })) v
  unfolding has len
  insert-view m v =
      finite_ext _ _ (λ w. ground (arith, lookup-insert v w tt m)) (length-insert v tt m)

  new_set-view :
      (m : Dict T (Unit {0})) (vs : List T)
      → Distinct m
      → (view (record { m = insert_all m vs }) ≡ with_all (view (record { m = m })) vs)
        × Distinct (insert_all m vs)
  unfolding insert_all with_all
  new_set-view m [] d = (refl, d)
  new_set-view m (v ∷ vs) d =
      let (w, d') = new_set-view (insert v tt m) vs (insert-Distinct v tt m d) in
      (w ∙ ap (λ f. with_all f vs) (insert-view m v), d')

  -- Over any sequence of calls a new Set of any values replies as the finite set does that has these
  -- values added to the empty one, Len as its size among the replies; it ends as that set, and holds
  -- each value once.
  pub new_set-run :
      (vs : List T) (os : List (Op T))
      → ((run (new_set vs) os).0 ≡ (Spec.run (with_all empty_set vs) os).0)
        × (view (run (new_set vs) os).1 ≡ (Spec.run (with_all empty_set vs) os).1)
        × Distinct (run (new_set vs) os).1.m
  unfolding new_set
  new_set-run vs os =
      let (w, d) = new_set-view [] vs tt in
      let (rs, w', d') = run-view (new_set vs) os d in
      let e = ap (λ f. Spec.run f os) (w ∙ ap (λ f. with_all f vs) empty-view) in
      (rs ∙ ap (λ p. p.0) e, w' ∙ ap (λ p. p.1) e, d')
