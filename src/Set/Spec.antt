-- ===== src/Set/Spec.antt =====
-- What a Set promises: a finite set, of which only its members and their number are seen.
use gx.Base.{ℕ, ◌+◌, ◌-◌, Bool, false, not, ◌||◌, ◌&&◌, List, [], ◌∷◌, if◌then◌else◌}
use gx.Dict.{Eq, ◌=?◌}

pub record Finite {ℓ} (T : Type ℓ) : Type ℓ where
  pub member : T → Bool
  pub size : ℕ

pub data Op {ℓ} (T : Type ℓ) : Type ℓ where
  add_op has_op remove_op : T → Op T
  clear_op len_op : Op T

pub data Reply : Type 0 where
  done : Reply
  flag : Bool → Reply
  number : ℕ → Reply

abbrev pub empty_set {ℓ} : {T : Type ℓ} → Finite T
empty_set = record { member = λ w. false; size = 0 }

module _ {ℓ} {T : Type ℓ} ⦃e : Eq T⦄ where
  abbrev pub with_value : Finite T → T → Finite T
  with_value f v = record {
    member = λ w. v =? w || f.member w;
    size = (if f.member v then f.size else f.size + 1);
  }

  abbrev pub without : Finite T → T → Finite T
  without f v = record {
    member = λ w. not (v =? w) && f.member w;
    size = (if f.member v then f.size - 1 else f.size);
  }

  unfoldable pub step : Finite T → Op T → Reply × Finite T
  step f (add_op v) = (flag (not (f.member v)), with_value f v)
  step f (has_op v) = (flag (f.member v), f)
  step f (remove_op v) = (flag (f.member v), without f v)
  step f clear_op = (done, empty_set)
  step f len_op = (number f.size, f)

  unfoldable pub run : Finite T → List (Op T) → List Reply × Finite T
  run f [] = ([], f)
  run f (o ∷ os) = let (r, f') = step f o in let (rs, f'') = run f' os in (r ∷ rs, f'')

  -- One value after the other.
  unfoldable pub with_all : Finite T → List T → Finite T
  with_all f [] = f
  with_all f (v ∷ vs) = with_all (with_value f v) vs
