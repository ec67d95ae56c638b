-- ===== src/Dispatcher/Order.antt =====
-- Which handlers `Dispatch` calls, and in which order.
use gx.Base.{
  ◌≡◌, refl, none, some, List, [], ◌∷◌, ◌++◌, map, map-append, sym, ap, subst, ◌∙◌, Bool-cases, inl,
  inr, arith, if◌then◌else◌,
}
use gx.Dict.{Eq, ◌=?◌, lookup}
use gx.Dict.Laws.{Distinct, lookup-insert, lookup-erase, insert-Distinct, erase-Distinct, beq_refl}
use gx.Dispatcher.{
  Dispatcher, new_dispatcher, register, unregister, or_nil, Handler, run_handlers, dispatch,
  Outcome, ok, no_handler, failed,
}

-- What changes the registrations.
pub data Registration {ℓ κ} (RType : Type ℓ) (H : Type κ) : Type (ℓ ⊔ κ) where
  registers : RType → H → Registration RType H
  unregisters : RType → Registration RType H

module _ {ℓ κ} {RType : Type ℓ} {H : Type κ} ⦃e : Eq RType⦄ where
  unfoldable pub run_registrations :
      Dispatcher RType H → List (Registration RType H) → Dispatcher RType H
  run_registrations d [] = d
  run_registrations d (registers t h ∷ rs) = run_registrations (register d t h) rs
  run_registrations d (unregisters t ∷ rs) = run_registrations (unregister d t) rs

  -- The handlers registered for a type since it was last unregistered, in the order of registration,
  -- behind those that it had.
  pub handlers_for : RType → List H → List (Registration RType H) → List H
  handlers_for t hs [] = hs
  handlers_for t hs (registers u h ∷ rs) = handlers_for t (if u =? t then hs ++ h ∷ [] else hs) rs
  handlers_for t hs (unregisters u ∷ rs) = handlers_for t (if u =? t then [] else hs) rs

  abbrev pub tagged : RType → List H → List (RType × H)
  tagged t = map (λ h. (t, h))

  -- What the map holds for each type is what was registered for it.
  abbrev pub Holds : Dispatcher RType H → (RType → List H) → Type (ℓ ⊔ κ)
  Holds d f = (t : RType) → or_nil (lookup t d.m) ≡ tagged t (f t)

  register-Holds :
      (d : Dispatcher RType H) (f : RType → List H) (u : RType) (h : H)
      → Holds d f
      → Holds (register d u h) (λ t. if u =? t then f t ++ h ∷ [] else f t)
  unfolding register
  register-Holds d f u h k t =
      let held : or_nil (lookup u d.m) ++ (u, h) ∷ [] ≡ tagged u (f u ++ h ∷ []) =
        ap (λ l. l ++ (u, h) ∷ []) (k u) ∙ sym (map-append (λ x. (u, x)) (f u) (h ∷ [])) in
      elim (Bool-cases (u =? t)) [
        | inl same ↦
            simp (lookup-insert, same)
              (subst (λ w. or_nil (lookup u d.m) ++ (u, h) ∷ [] ≡ tagged w (f w ++ h ∷ []))
                ((e.beq_iff u t).0 same) held)
        | inr other ↦ simp (lookup-insert, other) (k t)
      ]

  unregister-Holds :
      (d : Dispatcher RType H) (f : RType → List H) (u : RType)
      → Distinct d.m
      → Holds d f
      → Holds (unregister d u) (λ t. if u =? t then [] else f t)
  unfolding unregister
  unregister-Holds d f u n k t = ground (arith, lookup-erase u t d.m n, k t)

  pub run-Holds :
      (d : Dispatcher RType H) (f : RType → List H) (rs : List (Registration RType H))
      → Distinct d.m
      → Holds d f
      → Holds (run_registrations d rs) (λ t. handlers_for t (f t) rs)
  unfolding run_registrations handlers_for register unregister
  run-Holds d f [] n k = k
  run-Holds d f (registers u h ∷ rs) n k =
      run-Holds (register d u h) _ rs (insert-Distinct u _ d.m n) (register-Holds d f u h k)
  run-Holds d f (unregisters u ∷ rs) n k =
      run-Holds (unregister d u) _ rs (erase-Distinct u d.m n) (unregister-Holds d f u n k)

module _ {ℓ κ μ} {Value : Type ℓ} {S : Type κ} {E : Type μ} where
  -- Calling handlers in order up to the first that fails.
  pub call_all : List (Handler Value S E) → Value → S → Outcome E × S
  call_all [] value s = (ok, s)
  call_all (h ∷ hs) value s =
      let (err, s') = h value s in
      let rest = call_all hs value s' in elim err [ none ↦ rest | some x ↦ (failed x, s') ]

  pub call_registered : List (Handler Value S E) → Value → S → Outcome E × S
  unfolding call_all
  call_registered [] value s = (no_handler, s)
  call_registered (h ∷ hs) value s = call_all (h ∷ hs) value s

module _ {ℓ κ μ ν} {RType : Type ℓ} {Value : Type κ} {S : Type μ} {E : Type ν} ⦃e : Eq RType⦄ where
  run_handlers_lem :
      (t : RType) (hs : List (Handler Value S E)) (value : Value) (s : S)
      → run_handlers t (tagged t hs) value s ≡ some (call_all hs value s)
  unfolding run_handlers call_all
  run_handlers_lem t [] value s = refl
  run_handlers_lem t (h ∷ hs) value s =
      ground (arith, beq_refl t, run_handlers_lem t hs value (h value s).1)

  dispatch_lem :
      (d : Dispatcher RType (Handler Value S E)) (t : RType) (hs : List (Handler Value S E))
      (value : Value) (s : S)
      → or_nil (lookup t d.m) ≡ tagged t hs
      → dispatch d t value s ≡ some (call_registered hs value s)
  unfolding dispatch call_registered
  dispatch_lem d t [] value s h = rw (h, dispatch)
  dispatch_lem d t (x ∷ hs) value s h = rw (h, dispatch) (run_handlers_lem t (x ∷ hs) value s)

  -- After any registrations, `Dispatch` never fails a type assertion. It calls the handlers registered
  -- for the value's type since that type was last unregistered, in the order of registration, stops at
  -- the first error and returns it; with no such handler it returns an error and calls nothing.
  pub dispatch_registered :
      (rs : List (Registration RType (Handler Value S E))) (t : RType) (value : Value) (s : S)
      → dispatch (run_registrations new_dispatcher rs) t value s
        ≡ some (call_registered (handlers_for t [] rs) value s)
  unfolding lookup
  dispatch_registered rs t value s =
      dispatch_lem (run_registrations new_dispatcher rs) t (handlers_for t [] rs) value s
        (run-Holds new_dispatcher (λ _. []) rs tt (λ _. refl) t)
