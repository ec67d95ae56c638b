-- ===== src/Runtime/Keeps.antt =====
-- runtime.go: what an action keeps, for the actions that read or write one Container.
use gx.Base.{◌≡◌, refl, Option, none, some, set, get_elem?}
use gx.Base.Exec.{or_panic, modify, ◌>>=◌}
use gx.Base.Exec.Keeps.{Keeps, Keeps-or_panic}
use gx.Runtime.Types.{Ref, Container, Runtime}
use gx.Runtime.Calls.{Action, container, update}

-- The Runtime after the Container at a place has become `c`.
abbrev pub put {ℓ} : {V E : Type ℓ} → Ref → Container V E → Runtime V E → Runtime V E
put i c r = record r { containers = set r.containers i c }

module _ {ℓ π} {V E : Type ℓ} (P : Runtime V E → Type π) where
  pub container-Keeps : (i : Ref) → Keeps P (container i)
  unfolding container
  container-Keeps i = record {
    at = λ r h. (Keeps-or_panic {P = P} (get_elem? r.containers i)).at r h;
  }

  -- What follows may use that the Container stands in the state.
  pub with_container {α} :
      {A : Type α} (i : Ref) (k : Container V E → Action V E A)
      → ((r : Runtime V E) (c : Container V E)
          → get_elem? r.containers i ≡ some c
          → P r
          → P (k c r).1)
      → Keeps P (container i >>= k)
  unfolding container
  with_container i k h = record { at = λ r p. after r (get_elem? r.containers i) refl p }
    where
      after :
          (r : Runtime V E) (o : Option (Container V E))
          → get_elem? r.containers i ≡ o
          → P r
          → P ((or_panic o >>= k) r).1
      after r none e p = p
      after r (some c) e p = h r c e p

  pub update-Keeps :
      (i : Ref) (f : Container V E → Container V E)
      → ((r : Runtime V E) (c : Container V E)
          → get_elem? r.containers i ≡ some c
          → P r
          → P (put i (f c) r))
      → Keeps P (update i f)
  unfolding update
  update-Keeps i f h = with_container i (λ c. modify (put i (f c))) h
