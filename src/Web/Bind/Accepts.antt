-- ===== src/Web/Bind/Accepts.antt =====
-- web/context.go: the content types that `bind` takes for JSON.
use gx.Base.{
  ◌≡◌, refl, ap, ◌∙◌, ◌⊎◌, inl, inr, ◌↔◌, Bool, true, false, Option, none, some, [], ◌∷◌, ◌++◌,
  ◌==◌, ==_iff, arith,
}
use gx.Base.Text.{Text}
use gx.Env.Strings.{trim_space}
use gx.Web.Bind.{cut_prefix, json_type, accepts_suffix, accepts_type}

-- What may follow the type: nothing, or parameters after ";", behind white space or at once.
abbrev pub Follows : Text → Type 0
Follows suffix = (suffix ≡ []) ⊎ ((parameters : Text) × (trim_space suffix ≡ 59 ∷ parameters))

-- "application/json", and what may follow it.
abbrev pub IsJson : Text → Type 0
IsJson content_type = (suffix : Text) × (content_type ≡ json_type ++ suffix) × Follows suffix

cut_prefix-some :
    (text prefix suffix : Text) → cut_prefix text prefix ≡ some suffix → text ≡ prefix ++ suffix
unfolding cut_prefix
cut_prefix-some text [] suffix h = cc
cut_prefix-some [] (p ∷ prefix) suffix h = absurd (cc)
cut_prefix-some (c ∷ text) (p ∷ prefix) suffix h =
    ground (arith, cut_prefix-some text prefix suffix)

cut_prefix-append : (prefix suffix : Text) → cut_prefix (prefix ++ suffix) prefix ≡ some suffix
unfolding cut_prefix
cut_prefix-append [] suffix = refl
cut_prefix-append (p ∷ prefix) suffix = ground (arith, cut_prefix-append prefix suffix)

accepts_suffix-Follows : (suffix : Text) → accepts_suffix (some suffix) ≡ true → Follows suffix
unfolding accepts_suffix
accepts_suffix-Follows [] h = inl refl
accepts_suffix-Follows (c ∷ suffix) h = inr (at (trim_space (c ∷ suffix)) h)
  where
    at :
        (t : Text)
        → elim t [ [] ↦ false | d ∷ rest ↦ d == 59 ] ≡ true
        → (parameters : Text) × (t ≡ 59 ∷ parameters)
    at [] h = absurd (cc)
    at (d ∷ rest) h = (rest, ap (λ x. x ∷ rest) ((==_iff d 59).0 h))

Follows-accepts_suffix : (suffix : Text) → Follows suffix → accepts_suffix (some suffix) ≡ true
unfolding accepts_suffix
Follows-accepts_suffix [] h = refl
Follows-accepts_suffix (c ∷ suffix) (inl h) = absurd (cc)
Follows-accepts_suffix (c ∷ suffix) (inr (parameters, h)) =
    ap (λ (t : Text). let b : Bool = elim t [ [] ↦ false | d ∷ rest ↦ d == 59 ] in b) h

-- `bind` takes exactly these for JSON.
pub accepts_type_iff :
    (to_lower : Text → Text) (content_type : Text)
    → (accepts_type to_lower content_type ≡ true) ↔ IsJson (to_lower (trim_space content_type))
unfolding accepts_type accepts_suffix
accepts_type_iff to_lower content_type = (from, to)
  where
    text : Text
    text = to_lower (trim_space content_type)

    at : (o : Option Text) → cut_prefix text json_type ≡ o → accepts_suffix o ≡ true → IsJson text
    at none e h = absurd (cc)
    at (some suffix) e h =
        (suffix, cut_prefix-some text json_type suffix e, accepts_suffix-Follows suffix h)

    from : accepts_suffix (cut_prefix text json_type) ≡ true → IsJson text
    from h = at (cut_prefix text json_type) refl h

    to : IsJson text → accepts_suffix (cut_prefix text json_type) ≡ true
    to (suffix, e, h) =
        ap (λ t. accepts_suffix (cut_prefix t json_type)) e
        ∙ ap accepts_suffix (cut_prefix-append json_type suffix)
        ∙ Follows-accepts_suffix suffix h
