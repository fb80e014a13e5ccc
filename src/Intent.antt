-- ===== src/Intent.antt =====
-- src/intent-server-lib/intent.cpp: an intent that an application offers, and the match of a
-- request's parameters against it.
pub mod Match
use qtapplicationmanager.Prelude.{
  ℕ, Bool, true, false, ◌&&◌, ◌||◌, String, List, [], ◌∷◌, none, some,
}
use qtapplicationmanager.Qt.Map.{QMap, lookup}
use qtapplicationmanager.Qt.Variant.{
  Variant, null, str, list, object, scalar, Variants, nil, cons, VariantOps,
}

pub data Visibility : Type 0 where
  public private : Visibility

-- `self` is the object's address: the program compares intents by pointer.
pub record Intent : Type 0 where
  pub self : ℕ
  pub intent_id : String
  pub package_id : String
  pub application_id : String
  pub required_capabilities : List String
  pub visibility : Visibility
  pub parameter_match : QMap Variant
  pub names : QMap String
  pub descriptions : QMap String
  pub icon : String
  pub categories : List String
  pub handle_only_when_running : Bool

-- The loop over a required QVariantList.
unfoldable pub any_convertible : VariantOps → Variants → Variant → Bool
any_convertible ops nil actual = false
any_convertible ops (cons required rest) actual =
    (ops.can_convert actual required && ops.equals actual required)
    || any_convertible ops rest actual

-- One turn of the loop: the `switch` on the required value's meta type.
unfoldable pub matches_value : VariantOps → Variant → Variant → Bool
unfolding any_convertible
matches_value ops (str pattern) actual = ops.has_match pattern (ops.to_string actual)
matches_value ops (list options) actual = any_convertible ops options actual
matches_value ops null actual = ops.equals null actual
matches_value ops (object m) actual = ops.equals (object m) actual
matches_value ops (scalar t n) actual = ops.equals (scalar t n) actual

-- The loop of `checkParameterMatch` over the required parameters that are left.
unfoldable pub match_parameters : VariantOps → QMap Variant → QMap Variant → Bool
match_parameters ops [] parameters = true
match_parameters ops ((param_name, required) ∷ rest) parameters =
    elim (lookup param_name parameters) [
      | none ↦ false
      | some actual ↦ matches_value ops required actual && match_parameters ops rest parameters
    ]

unfoldable pub check_parameter_match : VariantOps → Intent → QMap Variant → Bool
unfolding match_parameters matches_value
check_parameter_match ops i parameters = match_parameters ops i.parameter_match parameters
