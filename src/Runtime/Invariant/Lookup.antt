-- ===== src/Runtime/Invariant/Lookup.antt =====
-- runtime.go: lookups of dependencies in a well formed Runtime.
use gx.Base.{◌≡◌, refl, ap, ◌∙◌, Option, none, some, get_elem?, ==_iff}
use gx.Base.Exec.{ok}
use gx.Dict.{nat_eq, lookup}
use gx.Runtime.Types.{Ref, RType, Container, Runtime}
use gx.Runtime.Store.{store_get, get_value}
use gx.Runtime.Calls.{found_value, get_try, get_try_global}
use gx.Runtime.Deps.{get_try-at}
use gx.Runtime.Invariant.{lookup-IsTyped, AllSound-get, WellFormed}

-- The value of an entry, if there is one.
abbrev pub value {ℓ} : {V : Type ℓ} → Option (RType × Option V) → Option (Option V)
value none = none
value (some (t, v)) = some v

module _ {ℓ} {V E : Type ℓ} where
  found_value-typed :
      (t : RType) (o : Option (RType × Option V)) (r : Runtime V E)
      → ((a : RType × Option V) → o ≡ some a → a.0 ≡ t)
      → (found_value t o r).0 ≡ ok (value o)
  unfolding get_value
  found_value-typed t none r h = refl
  found_value-typed t (some (u, none)) r h = refl
  found_value-typed t (some (u, some a)) r h = simp ((==_iff u t).1 (h (u, some a) refl))

  -- In a well formed Runtime `GetTry`, of the Runtime and of a Container, does not panic: it returns what
  -- the store has under the type, which has that type, or that it has nothing.
  pub get_try-WellFormed :
      (t : RType) (i : Ref) (r : Runtime V E) {c : Container V E}
      → WellFormed r
      → get_elem? r.containers i ≡ some c
      → ((get_try_global t r).0 ≡ ok (value (lookup t r.store)))
        × ((get_try i t r).0 ≡ ok (value (lookup t c.store)))
  unfolding get_try_global store_get
  get_try-WellFormed t i r {c} w e = (
    found_value-typed t (lookup t r.store) r (λ a q. lookup-IsTyped t r.store w.typed q),
    ap (λ p. p.0) (get_try-at i t r e)
        ∙ found_value-typed t (lookup t c.store) r
            (λ a q. lookup-IsTyped t c.store (AllSound-get r.containers i w.sound e).typed q),
  )
