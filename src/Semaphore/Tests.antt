-- ===== src/Semaphore/Tests.antt =====
-- A Semaphore of two slots.
use gx.Base.{ℕ, ◌≤◌, ◌≡◌, ◌↔◌, refl, false, Option, none, some, List, [], ◌∷◌, inl}
use gx.Base.Int.{pos}
use gx.Sync.Chan.{send, receive}
use gx.Semaphore.{Semaphore, new_semaphore, acquire, try_acquire, release}
use gx.Semaphore.Holders.{Reach, start, acquires, tries, fails, releases, slots, acquire-blocks}

abbrev holding : List (Unit {0}) → Semaphore
holding slots = record { ch = record { cap = 2; buf = slots; closed = false } }

abbrev not_done : Option ℕ
not_done = none

-- Two acquisitions, one that fails, a release and an acquisition.
abbrev both_held : Reach ℕ (pos 2) 2 (holding (tt ∷ tt ∷ []))
unfolding new_semaphore acquire try_acquire release send receive
both_held = acquires {s = holding (tt ∷ [])} none (inl refl) (
    releases {s = holding (tt ∷ tt ∷ [])} refl (
      fails {s = holding (tt ∷ tt ∷ [])} refl
        (tries {s = holding (tt ∷ [])} refl (acquires {s = holding []} (some 5) (inl refl) start))))

acquire-blocks_example :
    (2 ≤ slots (pos 2))
    × ((acquire {E = ℕ} (holding (tt ∷ tt ∷ [])) not_done ≡ [])
        ↔ ((2 ≡ slots (pos 2)) × (not_done ≡ none)))
acquire-blocks_example = acquire-blocks not_done both_held
