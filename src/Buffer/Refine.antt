-- ===== src/Buffer/Refine.antt =====
-- A Buffer holds the queue of its values, read round the ring from `head`.
use native.Mathlib.Decide.{dec_le, dec_lt}
use gx.Base.{
  ℕ, ◌+◌, ◌-◌, ◌*◌, ◌≤◌, ◌<◌, ◌≡◌, refl, sym, ap, ap₂, ◌∙◌, some, List, [], ◌++◌, arith, length,
  take, drop, replicate, copy, min, length-append, length-take, length-drop, length-replicate,
  length-copy, take_all, take-append_left, take-append_right, take-copy, slice?_in, sub?_in, le→leb,
  lt→leb_false, lt→ltb, le→ltb_false,
}
use gx.Buffer.{Buffer, relocate, grow_locked}
use gx.Buffer.Ring.{rotate, length-rotate}

pub record IsValid {ℓ} {A : Type ℓ} (b : Buffer A) : Type 0 where
  pub slots : 0 < length b.items
  pub head_in : b.head < length b.items
  pub len_in : b.len ≤ length b.items

module _ {ℓ} {A : Type ℓ} where
  -- The values held, oldest first.
  abbrev pub contents : Buffer A → List A
  contents b = take b.len (rotate b.head b.items)

  pub length-contents : (b : Buffer A) → IsValid b → length (contents b) ≡ b.len
  length-contents b v =
      omega
        (arith, length-take b.len (rotate b.head b.items), length-rotate b.head b.items, v.len_in)

  -- The two copies of `growLocked` for values that go round the end.
  wrapped_copy :
      (xs slots front : List A) (h n k : ℕ)
      → front ≡ drop h xs
      → n ≡ length xs - h
      → k ≡ h
      → h < length xs
      → length xs ≤ length slots
      → let copied = copy slots front in
        let out = take n copied ++ copy (drop n copied) (take k xs) in
        (length out ≡ length slots) × (take (length xs) out ≡ rotate h xs)
  wrapped_copy xs slots front h n k ef en ek p fits = (
    omega (
      arith,
      length-append (take n copied) rest,
      length-copy (drop n copied) (take k xs),
      length-drop n copied,
      copied_length,
      head_length,
    ),
    take-append_right (length xs) (take n copied) rest (omega (arith, head_length))
        ∙ ap₂ ◌++◌ head_part tail_part,
  )
    where
      copied : List A
      copied = copy slots front

      rest : List A
      rest = copy (drop n copied) (take k xs)

      front_length : length front ≡ length xs - h
      front_length = rw ef (length-drop h xs)

      copied_length : length copied ≡ length slots
      copied_length = length-copy slots front

      head_part : take n copied ≡ drop h xs
      head_part =
          take-copy n slots front (omega (arith, front_length)) (omega (arith, front_length))
          ∙ take_all n front (omega (arith, front_length))
          ∙ ef

      head_length : length (take n copied) ≡ length xs - h
      head_length = rw head_part (length-drop h xs)

      back_length : length (take k xs) ≡ h
      back_length = omega (arith, length-take k xs)

      tail_part : take (length xs - length (take n copied)) rest ≡ take h xs
      tail_part =
          ap (λ m. take m rest) (omega (arith, head_length))
          ∙ take-copy h (drop n copied) (take k xs) (omega (arith, back_length))
              (omega (arith, back_length, length-drop n copied, copied_length))
          ∙ take_all h (take k xs) (omega (arith, back_length))
          ∙ ap (λ m. take m xs) ek

  -- A full ring is copied out in order.
  relocate_lem :
      (b : Buffer A) (slots : List A)
      → IsValid b
      → b.len ≡ length b.items
      → length b.items ≤ length slots
      → (items : List A) × (relocate b slots ≡ some items)
        × (length items ≡ length slots)
        × (take b.len items ≡ contents b)
  unfolding relocate
  relocate_lem b slots v full fits = elim (dec_le (head + len) (length items)) [
    | yes le ↦
        let m : head + len - head ≡ len = omega arith in
        let fl : length (take (head + len - head) (drop head items)) ≡ len =
          omega
            (arith, length-take (head + len - head) (drop head items), length-drop head items) in
        (
          copy slots (take (head + len - head) (drop head items)),
          rw (le→leb _ _ le, slice?_in items head (head + len) (omega arith) le),
          length-copy slots _,
          take-copy len slots _ (omega (arith, fl)) (omega (arith, fl))
              ∙ take_all len _ (omega (arith, fl))
              ∙ ap (λ k. take k (drop head items)) m
              ∙ sym (
                  take-append_left len (drop head items) (take head items)
                    (omega (arith, length-drop head items))),
        )
    | no gt ↦
        let w =
          wrapped_copy items slots front head n (len - n - 0) whole (omega (arith, front_length))
            (omega (arith, front_length)) v.head_in fits in
        (
          out,
          rw (
            lt→leb_false (head + len) (length items) (omega arith),
            slice?_in items head (length items) (omega arith) (omega arith),
            sub?_in len n (omega (arith, front_length)),
            slice?_in items 0 (len - n) (omega arith) (omega arith),
          ),
          w.0,
          ap (λ m. take m out) full
              ∙ w.1
              ∙ sym (take_all len (rotate head items) (omega (arith, length-rotate head items))),
        )
  ]
    where
      open b use {items, head, len}

      front : List A
      front = take (length items - head) (drop head items)

      n : ℕ
      n = min (length slots) (length front)

      out : List A
      out = take n (copy slots front) ++ copy (drop n (copy slots front)) (take (len - n - 0) items)

      whole : front ≡ drop head items
      whole =
          take_all (length items - head) (drop head items) (omega (arith, length-drop head items))

      front_length : length front ≡ length items - head
      front_length = rw whole (length-drop head items)

module _ {ℓ} {A : Type ℓ} (zero_value : A) where
  -- Growing keeps the values and leaves a free slot.
  pub grow_locked_lem :
      (b : Buffer A)
      → IsValid b
      → (g : Buffer A) × (grow_locked zero_value b ≡ some g)
        × IsValid g
        × (contents g ≡ contents b)
        × (g.len < length g.items)
        × (g.len ≡ b.len)
        × (g.closed ≡ b.closed)
        × (g.cond ≡ b.cond)
  unfolding grow_locked
  grow_locked_lem b v = elim (dec_lt b.len (length b.items)) [
    | yes lt ↦ (b, rw (lt→ltb _ _ lt), v, refl, lt, refl, refl, refl)
    | no ge ↦
        let (items, e, l, c) =
          relocate_lem b slots v (omega (arith, v.len_in)) (omega (arith, slots_length)) in
        (
          record b { items = items; head = 0 },
          rw (le→ltb_false b.len (length b.items) (omega arith), e),
          record {
            slots = omega (arith, v.slots, l, slots_length);
            head_in = omega (arith, v.slots, l, slots_length);
            len_in = omega (arith, v.len_in, l, slots_length);
          },
          take-append_left b.len items [] (omega (arith, v.len_in, l, slots_length)) ∙ c,
          omega (arith, v.slots, v.len_in, l, slots_length),
          refl,
          refl,
          refl,
        )
  ]
    where
      slots : List A
      slots = replicate (length b.items * 2) zero_value

      slots_length : length slots ≡ length b.items * 2
      slots_length = length-replicate (length b.items * 2) zero_value
