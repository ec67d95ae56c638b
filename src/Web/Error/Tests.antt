-- ===== src/Web/Error/Tests.antt =====
-- Errors whose texts are numbers, with 0 for the empty one.
use gx.Base.{ℕ, ◌≡◌, refl, false, [], ◌∷◌, ◌==◌, if◌then◌else◌}
use gx.Base.Int.{pos, pos_part}
use gx.Web.Error.{Library, error_message, error_status, status_of}
use gx.Web.Error.Messages.{IsLibrary, given_or, error_status_lem}

abbrev numbers : Library ℕ ℕ
numbers = record {
  new = λ t. t;
  message = λ e. e;
  status_text = λ s. if pos_part s == 404 then 4 else if pos_part s == 500 then 5 else 0;
  to_lower = λ t. t;
  empty = λ t. t == 0;
}

abbrev numbers-IsLibrary : IsLibrary numbers
numbers-IsLibrary = record { message-new = λ t. refl; fallback = refl; empty-to_lower = λ t. refl }

error_status_999 :
    (status_of (error_status numbers (pos 999 ∷ [])) ≡ given_or (pos 999 ∷ []))
    × (numbers.empty (error_message numbers (error_status numbers (pos 999 ∷ []))) ≡ false)
error_status_999 = error_status_lem numbers (pos 999 ∷ []) numbers-IsLibrary
