-- ===== src/Qt/Map.antt =====
-- QMap<QString, V>, as its documentation describes it: an association list in the order of its
-- keys, which is the order of iteration. Keys are compared by code point; QString compares UTF-16
-- code units, which is the same order for keys below U+D800.
use Prim.Native.String.{compare}
use text.Mathlib.Text.{is_lt}
use qtapplicationmanager.Prelude.{
  ◌≡◌, refl, Bool, String, str_eq, str_eq_iff, List, [], ◌∷◌, Option, none, some, is_some, arith,
  if◌then◌else◌,
}

abbrev pub QMap {ℓ} : Type ℓ → Type ℓ
QMap V = List (String × V)

module _ {ℓ} {V : Type ℓ} where
  -- `find`, `constFind`: `none` is the end iterator.
  unfoldable pub lookup : String → QMap V → Option V
  lookup k [] = none
  lookup k ((j, v) ∷ m) = if str_eq j k then some v else lookup k m

  abbrev pub contains : String → QMap V → Bool
  contains k m = is_some (lookup k m)

  -- `value`, with the default that is returned for a missing key.
  abbrev pub value : String → V → QMap V → V
  value k d m = elim (lookup k m) [ none ↦ d | some v ↦ v ]

  -- `insert`, which also replaces.
  unfoldable pub insert : String → V → QMap V → QMap V
  insert k v [] = (k, v) ∷ []
  insert k v ((j, w) ∷ m) =
      if str_eq j k
      then (k, v) ∷ m
      else (if is_lt (compare k j) then (k, v) ∷ (j, w) ∷ m else (j, w) ∷ insert k v m)

  unfoldable pub remove : String → QMap V → QMap V
  remove k [] = []
  remove k ((j, w) ∷ m) = let rest = remove k m in if str_eq j k then rest else (j, w) ∷ rest

  pub lookup-insert :
      (k j : String) (v : V) (m : QMap V)
      → lookup j (insert k v m) ≡ (if str_eq k j then some v else lookup j m)
  unfolding lookup insert
  lookup-insert k j v [] = refl
  lookup-insert k j v ((i, w) ∷ m) =
      ground (arith, str_eq_iff k j, str_eq_iff i k, str_eq_iff i j, lookup-insert k j v m)

  pub lookup-remove :
      (k j : String) (m : QMap V)
      → lookup j (remove k m) ≡ (if str_eq k j then none else lookup j m)
  unfolding lookup remove
  lookup-remove k j [] = ground arith
  lookup-remove k j ((i, w) ∷ m) =
      ground (arith, str_eq_iff k j, str_eq_iff i k, str_eq_iff i j, lookup-remove k j m)
