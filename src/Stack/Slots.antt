-- ===== src/Stack/Slots.antt =====
-- A Stack as the values that its slots hold, and what `growLocked` and `popLocked` do to them.
use native.Mathlib.Decide.{dec_lt}
use gx.Base.{
  ℕ, zero, suc, ◌+◌, ◌-◌, ◌*◌, ◌≤◌, ◌<◌, ◌≡◌, refl, sym, ap, ◌∙◌, Bool, true, false, some, List,
  ◌∷◌, reverse, reverse-snoc, length-reverse, arith, length, set, take, replicate, length-set,
  length-replicate, length-copy, length-take, take-set, take-set_ge, take-copy, take-suc,
  get_elem?-drop, set?_in, sub?_in, lt→ltb, le→ltb_false, if◌then◌else◌,
}
use gx.Base.Int.{ℤ, pos, negsuc, leb_ℤ, pos_part}
use gx.Sync.{signal}
use gx.Stack.{Stack, new_stack, grow_locked, pop_locked, push}
use gx.Stack.Spec.{Lifo}

pub record IsValid {ℓ} {A : Type ℓ} (s : Stack A) : Type 0 where
  pub slots : 0 < length s.items
  pub len_in : s.len ≤ length s.items

-- The values held, newest first.
abbrev pub contents {ℓ} : {A : Type ℓ} → Stack A → List A
contents s = reverse (take s.len s.items)

abbrev pub lifo {ℓ} : {A : Type ℓ} → Bool → List A → Lifo A
lifo closed values = record { closed = closed; values = values }

abbrev pub view {ℓ} : {A : Type ℓ} → Stack A → Lifo A
view s = lifo s.closed (contents s)

slot_count : (c : ℤ) → 0 < (if leb_ℤ c (pos 0) then 1 else pos_part c)
slot_count (pos zero) = omega arith
slot_count (pos (suc n)) = ground arith
slot_count (negsuc n) = ground arith

module _ {ℓ} {A : Type ℓ} where
  pub length-contents : (s : Stack A) → IsValid s → length (contents s) ≡ s.len
  length-contents s v =
      omega (arith, length-reverse (take s.len s.items), length-take s.len s.items, v.len_in)

module _ {ℓ} {A : Type ℓ} (zero_value : A) where
  pub new_stack-IsValid : (c : ℤ) → IsValid (new_stack zero_value c)
  unfolding new_stack
  new_stack-IsValid c =
      let n : ℕ = if leb_ℤ c (pos 0) then 1 else pos_part c in
      record {
        slots = omega (arith, slot_count c, length-replicate n zero_value);
        len_in = omega arith;
      }

  grow_locked_lem :
      (s : Stack A)
      → IsValid s
      → let g = grow_locked zero_value s in
        (take s.len g.items ≡ take s.len s.items)
        × (s.len < length g.items)
        × (g.len ≡ s.len)
        × (g.closed ≡ s.closed)
        × (g.cond ≡ s.cond)
  unfolding grow_locked
  grow_locked_lem s v = elim (dec_lt s.len (length s.items)) [
    | yes lt ↦ simp (lt→ltb _ _ lt) (refl, lt, refl, refl, refl)
    | no ge ↦ simp (le→ltb_false s.len (length s.items) (omega arith)) (
      take-copy s.len slots s.items v.len_in (omega (arith, slots_length)),
      omega (arith, v.slots, v.len_in, slots_length, length-copy slots s.items),
      refl,
      refl,
      refl,
    )
  ]
    where
      slots : List A
      slots = replicate (length s.items * 2) zero_value

      slots_length : length slots ≡ length s.items * 2
      slots_length = length-replicate (length s.items * 2) zero_value

  -- A push on an open Stack does not panic, and puts the value on top.
  pub push_open :
      (s : Stack A) (x : A)
      → IsValid s
      → s.closed ≡ false
      → (s' : Stack A) × (push zero_value s x ≡ some (true, s'))
        × IsValid s'
        × (contents s' ≡ x ∷ contents s)
        × (s'.closed ≡ false)
        × (s'.len ≡ s.len + 1)
        × (s'.cond ≡ signal s.cond)
  unfolding push
  push_open s x v e =
      let g : Stack A = grow_locked zero_value s in
      let (t, lt, lg, clg, cog) = grow_locked_lem s v in
      let in_range : g.len < length g.items = omega (arith, lg, lt) in
      let count = length-set g.items g.len x in
      let more : g.len + 1 ≡ suc g.len = omega arith in
      (
        record g { items = set g.items g.len x; len = g.len + 1; cond = signal g.cond },
        simp (e, set?_in g.items g.len x in_range),
        record { slots = omega (arith, in_range, count); len_in = omega (arith, in_range, count) },
        ap (λ k. reverse (take k (set g.items g.len x))) more
            ∙ ap reverse (take-set g.items g.len x in_range)
            ∙ reverse-snoc (take g.len g.items) x
            ∙ ap (λ k. x ∷ reverse (take k g.items)) lg
            ∙ ap (λ l. x ∷ reverse l) t,
        clg ∙ e,
        ap (λ n. n + 1) lg,
        ap signal cog,
      )

  pub pop_locked_lem :
      (s : Stack A)
      → IsValid s
      → 0 < s.len
      → (a : A) × (s' : Stack A) × (pop_locked zero_value s ≡ some (a, s'))
        × IsValid s'
        × (contents s ≡ a ∷ contents s')
        × (s'.len ≡ s.len - 1)
        × (s'.closed ≡ s.closed)
        × (s'.cond ≡ s.cond)
  unfolding pop_locked
  pop_locked_lem s v p =
      let i_in : s.len - 1 < length s.items = omega (arith, v.len_in) in
      let (a, e, _) = get_elem?-drop s.items (s.len - 1) i_in in
      let count = length-set s.items (s.len - 1) zero_value in
      let one_more : s.len ≡ suc (s.len - 1) = omega arith in
      (
        a,
        record s { items = set s.items (s.len - 1) zero_value; len = s.len - 1 },
        rw (sub?_in s.len 1 p, e, set?_in s.items (s.len - 1) zero_value i_in),
        record { slots = omega (arith, v.slots, count); len_in = omega (arith, v.len_in, count) },
        ap (λ k. reverse (take k s.items)) one_more
            ∙ ap reverse (take-suc s.items (s.len - 1) a e)
            ∙ reverse-snoc (take (s.len - 1) s.items) a
            ∙ ap (λ l. a ∷ reverse l)
                (sym (take-set_ge (s.len - 1) (s.len - 1) s.items zero_value (omega arith))),
        refl,
        refl,
        refl,
      )
