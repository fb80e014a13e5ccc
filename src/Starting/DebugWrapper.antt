-- ===== src/Starting/DebugWrapper.antt =====
-- `DebugWrapper::parseSpecification`. Texts are lists of UTF-16 codes.
use qtapplicationmanager.Prelude.{
  ℕ, Bool, true, false, ◌&&◌, ◌||◌, not, List, [], ◌∷◌, ◌++◌, Option, none, some, is_empty, ◌==◌,
  if◌then◌else◌,
}
use qtapplicationmanager.Prelude.Maybe.{◌>>=◌}

abbrev pub Text : Type 0
Text = List ℕ

abbrev pub same_text : Text → Text → Bool
same_text [] [] = true
same_text (a ∷ s) (b ∷ t) = a == b && same_text s t
same_text _ _ = false

abbrev pub starts_with : Text → Text → Bool
starts_with s [] = true
starts_with [] (b ∷ t) = false
starts_with (a ∷ s) (b ∷ t) = a == b && starts_with s t

-- QString::contains.
abbrev pub contains_text : Text → Text → Bool
contains_text [] t = starts_with [] t
contains_text (a ∷ s) t = starts_with (a ∷ s) t || contains_text s t

-- `%program%` and `%arguments%`.
abbrev pub program : Text
program = 37 ∷ 112 ∷ 114 ∷ 111 ∷ 103 ∷ 114 ∷ 97 ∷ 109 ∷ 37 ∷ []

abbrev pub arguments : Text
arguments = 37 ∷ 97 ∷ 114 ∷ 103 ∷ 117 ∷ 109 ∷ 101 ∷ 110 ∷ 116 ∷ 115 ∷ 37 ∷ []

-- QMap::insert; the order of the entries is not looked at.
abbrev pub insert_variable : Text → Text → List (Text × Text) → List (Text × Text)
insert_variable key value [] = (key, value) ∷ []
insert_variable key value ((k, v) ∷ env) =
    if same_text k key then (key, value) ∷ env else (k, v) ∷ insert_variable key value env

-- The variables of the loop; `at_value` is whether `current` points to `value`.
pub record Parser : Type 0 where
  pub escaped : Bool
  pub can_be_env_var : Bool
  pub is_env_var : Bool
  pub found_program : Bool
  pub found_arguments : Bool
  pub at_value : Bool
  pub str : Text
  pub value : Text
  pub command : List Text
  pub environment : List (Text × Text)

abbrev pub start : Parser
start = record {
  escaped = false;
  can_be_env_var = true;
  is_env_var = false;
  found_program = false;
  found_arguments = false;
  at_value = false;
  str = [];
  value = [];
  command = [];
  environment = [];
}

-- `current->append`.
unfoldable pub append : ℕ → Parser → Parser
append ch p =
    if p.at_value
    then record p { value = p.value ++ ch ∷ [] }
    else record p { str = p.str ++ ch ∷ [] }

-- An equals sign.
unfoldable pub equals : Parser → Parser
unfolding append
equals p =
    let q = record p { is_env_var = p.can_be_env_var } in
    if q.is_env_var && not q.at_value then record q { at_value = true } else append 61 q

-- What a finished argument adds.
unfoldable pub add_argument : Parser → Parser
add_argument p =
    if is_empty p.str
    then p
    else (if p.is_env_var
        then record p { environment = insert_variable p.str p.value p.environment }
        else record p {
          command = p.command ++ p.str ∷ [];
          found_arguments = p.found_arguments || contains_text p.str arguments;
          found_program = p.found_program || contains_text p.str program;
        })

-- A space, or the end of the text.
unfoldable pub end_argument : Parser → Parser
unfolding add_argument
end_argument p = record (add_argument p) {
  can_be_env_var = p.is_env_var;
  is_env_var = false;
  at_value = false;
  str = [];
  value = [];
}

unfoldable pub plain_char : ℕ → Parser → Parser
unfolding equals end_argument append
plain_char ch p =
    if ch == 92
    then record p { escaped = true }
    else (if ch == 61
        then equals p
        else (if ch == 32 || ch == 0 then end_argument p else append ch p))

abbrev pub unescape : ℕ → Option ℕ
unescape ch =
    if ch == 92
    then some 92
    else (if ch == 32 then some 32 else (if ch == 110 then some 10 else none))

-- One turn of the loop; none is its `return false`.
unfoldable pub parse_char : ℕ → Parser → Option Parser
unfolding plain_char append
parse_char ch p =
    if not p.escaped || ch == 0
    then some (plain_char ch p)
    else (unescape ch >>= λ c. some (record (append c p) { escaped = false }))

unfoldable pub parse_chars : Text → Parser → Option Parser
unfolding parse_char
parse_chars [] p = some p
parse_chars (ch ∷ rest) p = parse_char ch p >>= λ q. parse_chars rest q

-- The placeholders are added when they are not there.
unfoldable pub with_placeholders : Parser → List Text
with_placeholders p =
    p.command
    ++ (if p.found_program then [] else program ∷ [])
    ++ (if p.found_arguments then [] else arguments ∷ [])

unfoldable pub parse_specification : Text → Option (List Text × List (Text × Text))
unfolding parse_chars with_placeholders
parse_specification text = parse_chars (text ++ 0 ∷ []) start >>= λ p.
    if is_empty p.command && is_empty p.environment
    then none
    else some (with_placeholders p, p.environment)
