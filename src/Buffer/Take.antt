-- ===== src/Buffer/Take.antt =====
-- What `nextLocked` takes from the ring, and what it leaves.
use native.Mathlib.Nat.{mod-lt}
use gx.Base.{
  ℕ, zero, suc, ◌+◌, ◌-◌, ◌%◌, ◌≤◌, ◌<◌, ◌≡◌, refl, sym, ap, ◌∙◌, some, List, ◌∷◌, arith, length,
  get_elem?, set, take, length-set, get_elem?-drop, set?_in, mod?_in, sub?_in, ne→==_false,
  if◌then◌else◌, ◌==◌,
}
use gx.Buffer.{Buffer, next_locked}
use gx.Buffer.Ring.{rotate, behind, rotate-front, rotate-cleared}
use gx.Buffer.Refine.{IsValid, contents}

module _ {ℓ} {A : Type ℓ} (zero_value : A) where
  behind_front :
      (items : List A) (head k c : ℕ) (a : A)
      → head < length items
      → k < length items
      → c ≡ length items
      → get_elem? items head ≡ some a
      → take k (rotate (if k == 0 then 0 else (head + 1) % c) (set items head zero_value))
        ≡ take k (behind head items)
  behind_front items head zero c a h l ec e = refl
  behind_front items head (suc k) c a h l ec e = rw (ne→==_false (suc k) 0 (omega arith)) (
      ap (λ m. take (suc k) (rotate ((head + 1) % m) (set items head zero_value))) ec
      ∙ rotate-cleared items head (suc k) a zero_value h l e)

  next_contents :
      (items : List A) (head len c : ℕ) (a : A)
      → head < length items
      → len ≤ length items
      → 0 < len
      → c ≡ length items
      → get_elem? items head ≡ some a
      → take len (rotate head items)
        ≡ a
          ∷ take
              (len - 1)
              (rotate (if len - 1 == 0 then 0 else (head + 1) % c) (set items head zero_value))
  next_contents items head zero c a h l p ec e = absurd (omega arith)
  next_contents items head (suc n) c a h l p ec e =
      let back : n ≡ suc n - 1 = omega arith in
      ap (take (suc n)) (rotate-front items head a h e)
      ∙ ap (λ k. a ∷ take k (behind head items)) back
      ∙ ap (◌∷◌ a) (sym (behind_front items head (suc n - 1) c a h (omega arith) ec e))

  -- What `nextLocked` does where there is a value: it takes the oldest.
  pub next_locked_lem :
      (b : Buffer A)
      → IsValid b
      → 0 < b.len
      → (a : A) × (b' : Buffer A) × (next_locked zero_value b ≡ some (a, b'))
        × IsValid b'
        × (contents b ≡ a ∷ contents b')
        × (b'.len ≡ b.len - 1)
        × (b'.closed ≡ b.closed)
        × (b'.cond ≡ b.cond)
  unfolding next_locked
  next_locked_lem b v p =
      let (a, e, _) = get_elem?-drop items head v.head_in in
      (
        a,
        after,
        rw (
          e,
          set?_in items head zero_value v.head_in,
          mod?_in (head + 1) (length cleared) (omega (arith, cleared_length)),
          sub?_in len 1 p,
        ),
        record {
          slots = omega (arith, v.slots, cleared_length);
          head_in = head_valid (len - 1);
          len_in = omega (arith, v.len_in, cleared_length);
        },
        next_contents items head len (length cleared) a v.head_in v.len_in p cleared_length e,
        refl,
        refl,
        refl,
      )
    where
      open b use {items, head, len}

      cleared : List A
      cleared = set items head zero_value

      cleared_length : length cleared ≡ length items
      cleared_length = length-set items head zero_value

      head_valid : (k : ℕ) → (if k == 0 then 0 else (head + 1) % length cleared) < length cleared
      head_valid zero = omega (arith, v.slots, cleared_length)
      head_valid (suc k) =
          rw (ne→==_false (suc k) 0 (omega arith))
            (mod-lt (head + 1) (omega (arith, v.slots, cleared_length)))

      after : Buffer A
      after = record b {
        items = cleared;
        head = (if len - 1 == 0 then 0 else (head + 1) % length cleared);
        len = len - 1;
      }
