-- ===== src/Qt/Variant.antt =====
-- QVariant: the values that reach the program from YAML, JavaScript and D-Bus.
use qtapplicationmanager.Prelude.{ℕ, Bool, String}

mutual
  pub data Variant : Type 0 where
    null : Variant
    str : String → Variant
    list : Variants → Variant
    object : Fields → Variant
    -- Any other meta type: its id, and the value coded by a number.
    scalar : ℕ → ℕ → Variant

  -- QVariantList.
  pub data Variants : Type 0 where
    nil : Variants
    cons : Variant → Variants → Variants

  -- QVariantMap, as a value.
  pub data Fields : Type 0 where
    end : Fields
    field : String → Variant → Fields → Fields

-- What the program uses of QVariant and QRegularExpression.
pub record VariantOps : Type 0 where
  -- QVariant::toString
  pub to_string : Variant → String
  -- a.canConvert(b.metaType())
  pub can_convert : Variant → Variant → Bool
  -- QVariant::operator==
  pub equals : Variant → Variant → Bool
  -- QRegularExpression(pattern).match(subject).hasMatch()
  pub has_match : String → String → Bool
