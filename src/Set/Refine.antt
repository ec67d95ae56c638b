-- ===== src/Set/Refine.antt =====
-- A Set keeps each value once, and its operations are those of a finite set.
use gx.Base.{◌+◌, ◌-◌, ◌≡◌, Bool, false, not, ◌||◌, ◌&&◌, List, [], ◌∷◌, arith, if◌then◌else◌}
use gx.Dict.{Eq, ◌=?◌, Dict, lookup, insert, found}
use gx.Dict.Laws.{
  Distinct, lookup-insert, lookup-erase, insert-Distinct, erase-Distinct, length-insert,
  length-erase,
}
use gx.Set.{Set, new_set, add, has, remove, len, insert_all}

module _ {ℓ} {T : Type ℓ} ⦃e : Eq T⦄ where
  abbrev pub member : T → List T → Bool
  member w [] = false
  member w (v ∷ vs) = v =? w || member w vs

  insert_all_lem :
      (m : Dict T (Unit {0})) (vs : List T) (w : T)
      → Distinct m
      → (found (lookup w (insert_all m vs)) ≡ (found (lookup w m) || member w vs))
        × Distinct (insert_all m vs)
  unfolding insert_all
  insert_all_lem m [] w d = (ground arith, d)
  insert_all_lem m (v ∷ vs) w d = ground (
    arith,
    insert_all_lem (insert v tt m) vs w (insert-Distinct v tt m d),
    lookup-insert v w tt m,
  )

  -- A new Set has exactly the values it was given, and each of them once.
  pub new_set_lem :
      (vs : List T) (w : T) → (has (new_set vs) w ≡ member w vs) × Distinct (new_set vs).m
  unfolding new_set has lookup
  new_set_lem vs w = insert_all_lem [] vs w tt

  -- `Add` says whether the value was new, adds it and no other, and grows the size by one exactly then.
  add_lem :
      (s : Set T) (v w : T)
      → Distinct s.m
      → let (new, s') = add s v in
        (new ≡ not (has s v))
        × (has s' w ≡ (v =? w || has s w))
        × (len s' ≡ (if new then len s + 1 else len s))
        × Distinct s'.m
  unfolding add has len
  add_lem s v w d = ground (
    arith,
    e.beq_iff v w,
    lookup-insert v w tt s.m,
    length-insert v tt s.m,
    insert-Distinct v tt s.m d,
  )

  -- `Remove` says whether the value was there, removes it and no other, and shrinks the size by one
  -- exactly then.
  remove_lem :
      (s : Set T) (v w : T)
      → Distinct s.m
      → let (old, s') = remove s v in
        (old ≡ has s v)
        × (has s' w ≡ (not (v =? w) && has s w))
        × (len s' ≡ (if old then len s - 1 else len s))
        × Distinct s'.m
  unfolding remove has len
  remove_lem s v w d =
      ground
        (arith, e.beq_iff v w, lookup-erase v w s.m d, length-erase v s.m, erase-Distinct v s.m d)

  -- `Add` and `Remove` say whether the value was new, or there; they add or remove it and no other, and
  -- change the size by one exactly then; and each value is still kept once.
  pub change_lem :
      (s : Set T) (v w : T)
      → Distinct s.m
      → let (new, added) = add s v in
        let (old, removed) = remove s v in
        ((new ≡ not (has s v))
          × (has added w ≡ (v =? w || has s w))
          × (len added ≡ (if new then len s + 1 else len s))
          × Distinct added.m)
        × ((old ≡ has s v)
            × (has removed w ≡ (not (v =? w) && has s w))
            × (len removed ≡ (if old then len s - 1 else len s))
            × Distinct removed.m)
  change_lem s v w d = (add_lem s v w d, remove_lem s v w d)
