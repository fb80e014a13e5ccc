-- ===== src/Intent/Match.antt =====
-- What `Intent::checkParameterMatch` decides.
use qtapplicationmanager.Prelude.{
  ◌≡◌, refl, ◌↔◌, true, inl, inr, String, [], ◌∷◌, some, All, Option-cases, &&-true, true-&&,
  ||-true, true-||,
}
use mathlib.Core.Bool.{false≢true}
use qtapplicationmanager.Qt.Map.{QMap, lookup}
use qtapplicationmanager.Qt.Variant.{
  Variant, null, str, list, object, scalar, Variants, nil, cons, VariantOps,
}
use qtapplicationmanager.Intent.{
  Intent, any_convertible, matches_value, match_parameters, check_parameter_match,
}

-- One of the options is a value that the actual one converts to and equals.
pub data AnyOf (ops : VariantOps) (actual : Variant) : Variants → Type 0 where
  here :
      {required : Variant} {rest : Variants}
      → ops.can_convert actual required ≡ true
      → ops.equals actual required ≡ true
      → AnyOf ops actual (cons required rest)
  there :
      {required : Variant} {rest : Variants}
      → AnyOf ops actual rest
      → AnyOf ops actual (cons required rest)

-- What a required value asks of an actual one: a text is a regular expression, a list is a choice,
-- anything else has to be equal.
abbrev pub Meets : VariantOps → Variant → Variant → Type 0
Meets ops (str pattern) actual = ops.has_match pattern (ops.to_string actual) ≡ true
Meets ops (list options) actual = AnyOf ops actual options
Meets ops null actual = ops.equals null actual ≡ true
Meets ops (object m) actual = ops.equals (object m) actual ≡ true
Meets ops (scalar t n) actual = ops.equals (scalar t n) actual ≡ true

abbrev pub Accepts : VariantOps → QMap Variant → (String × Variant) → Type 0
Accepts ops parameters (k, required) =
    (actual : Variant) × (lookup k parameters ≡ some actual) × Meets ops required actual

any_convertible_sound :
    (ops : VariantOps) (options : Variants) (actual : Variant)
    → any_convertible ops options actual ≡ true
    → AnyOf ops actual options
unfolding any_convertible
any_convertible_sound ops nil actual h = cc
any_convertible_sound ops (cons r rest) actual h = elim (||-true _ _ h) [
  | inl p ↦ let q = &&-true _ _ p in here q.0 q.1
  | inr p ↦ there (any_convertible_sound ops rest actual p)
]

any_convertible_complete :
    (ops : VariantOps) (actual : Variant) {options : Variants}
    → AnyOf ops actual options
    → any_convertible ops options actual ≡ true
unfolding any_convertible
any_convertible_complete ops actual (here p q) = true-|| _ _ (inl (true-&& _ _ p q))
any_convertible_complete ops actual (there t) =
    true-|| _ _ (inr (any_convertible_complete ops actual t))

-- One turn of the loop decides what the required value asks.
pub matches_value-Meets :
    (ops : VariantOps) (required actual : Variant)
    → (matches_value ops required actual ≡ true) ↔ Meets ops required actual
unfolding matches_value
matches_value-Meets ops null actual = (λ h. h, λ h. h)
matches_value-Meets ops (str pattern) actual = (λ h. h, λ h. h)
matches_value-Meets ops (list options) actual =
    (any_convertible_sound ops options actual, any_convertible_complete ops actual)
matches_value-Meets ops (object m) actual = (λ h. h, λ h. h)
matches_value-Meets ops (scalar t n) actual = (λ h. h, λ h. h)

match_sound :
    (ops : VariantOps) (required parameters : QMap Variant)
    → match_parameters ops required parameters ≡ true
    → All (Accepts ops parameters) required
unfolding match_parameters
match_sound ops [] parameters h = tt
match_sound ops ((k, r) ∷ rest) parameters h = elim (Option-cases (lookup k parameters)) [
  | inl e ↦ absurd (false≢true (rw (e, match_parameters) at h))
  | inr (a, e) ↦
      let q = &&-true _ _ (rw (e, match_parameters) at h) in
      ((a, e, (matches_value-Meets ops r a).0 q.0), match_sound ops rest parameters q.1)
]

match_complete :
    (ops : VariantOps) (required parameters : QMap Variant)
    → All (Accepts ops parameters) required
    → match_parameters ops required parameters ≡ true
unfolding match_parameters
match_complete ops [] parameters h = refl
match_complete ops ((k, r) ∷ rest) parameters ((a, e, m), h) =
    rw (e, match_parameters)
      (true-&& _ _ ((matches_value-Meets ops r a).1 m) (match_complete ops rest parameters h))

-- `checkParameterMatch` is true exactly when the request carries every required parameter with a
-- value that meets it.
pub check_parameter_match_iff :
    (ops : VariantOps) (i : Intent) (parameters : QMap Variant)
    → (check_parameter_match ops i parameters ≡ true)
      ↔ All (Accepts ops parameters) i.parameter_match
unfolding check_parameter_match
check_parameter_match_iff ops i parameters =
    (match_sound ops i.parameter_match parameters, match_complete ops i.parameter_match parameters)
