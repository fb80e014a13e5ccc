-- ===== src/Starting/Wrapping.antt =====
-- A command that is written with escapes is read again by `parseSpecification`.
use mathlib.Core.Path.{◌∙◌}
use qtapplicationmanager.Prelude.{
  append_assoc, append_nil, ℕ, ◌≡◌, ◌≢◌, ◌⊎◌, refl, sym, ap, subst, Bool, true, false, ◌&&◌, ◌||◌,
  List, [], ◌∷◌, ◌++◌, Option, some, arith, All, is_empty, ◌==◌, ==_iff, if-cases, ||-false,
  ||-true, inl, inr, if◌then◌else◌,
}
use qtapplicationmanager.Prelude.Maybe.{◌>>=◌}
use qtapplicationmanager.Starting.DebugWrapper.{
  Text, contains_text, program, arguments, Parser, start, append, equals, add_argument,
  end_argument, plain_char, parse_char, parse_chars,
}

-- A backslash before each backslash and space, and a space between the words.
abbrev pub escape : Text → Text
escape [] = []
escape (ch ∷ s) = if ch == 92 || ch == 32 then 92 ∷ ch ∷ escape s else ch ∷ escape s

abbrev pub join : Text → List Text → Text
join w [] = escape w
join w (v ∷ ws) = escape w ++ 32 ∷ join v ws

-- Words that can be written: not empty, and without a null character.
abbrev pub IsWord : Text → Type 0
IsWord w = (is_empty w ≡ false) × All (λ ch. ch ≢ 0) w

-- The parser inside a word, with a command but no variable read so far.
abbrev pub reading : Bool → List Text → Bool → Bool → Text → Parser
reading can_be command found_program found_arguments str = record start {
  can_be_env_var = can_be;
  command = command;
  found_program = found_program;
  found_arguments = found_arguments;
  str = str;
}

abbrev pub Fits : Bool → ℕ → Type 0
Fits can_be ch = (ch ≢ 0) × ((can_be && ch == 61) ≡ false)

or_second : (a b : Bool) → a ≡ false → (a || b) ≡ true → b ≡ true
or_second a b h k = ground arith

-- An equals sign that is not the first of a variable.
equals_step :
    (can_be : Bool) (cmd : List Text) (fp fa : Bool) (str : Text) (ch : ℕ)
    → (ch == 61) ≡ true
    → Fits can_be ch
    → ◌≡◌ {A = Option Parser}
        (some (equals (reading can_be cmd fp fa str)))
        (some (reading can_be cmd fp fa (str ++ ch ∷ [])))
unfolding equals append
equals_step false cmd fp fa str ch eq fits =
    ap (λ c. some (reading false cmd fp fa (str ++ c ∷ []))) (sym ((==_iff ch 61).0 eq))
equals_step true cmd fp fa str ch eq fits = cc

plain_step :
    (can_be : Bool) (cmd : List Text) (fp fa : Bool) (str : Text) (ch : ℕ)
    → Fits can_be ch
    → (ch == 92 || ch == 32) ≡ false
    → parse_char ch (reading can_be cmd fp fa str)
      ≡ some (reading can_be cmd fp fa (str ++ ch ∷ []))
unfolding parse_char plain_char equals append
plain_step can_be cmd fp fa str ch fits plain =
    let both = ||-false (ch == 92) (ch == 32) plain in
    let target = reading can_be cmd fp fa (str ++ ch ∷ []) in
    let Goal : Parser → Type 0 = λ q. ◌≡◌ {A = Option Parser} (some q) (some target) in
    if-cases Goal (ch == 92) _ _ (λ h. cc)
      (λ h.
        if-cases Goal (ch == 61) _ _ (λ eq. equals_step can_be cmd fp fa str ch eq fits)
          (λ ne.
            if-cases Goal (ch == 32 || ch == 0) _ _
              (λ c. absurd (fits.0 ((==_iff ch 0).0 (or_second (ch == 32) (ch == 0) both.1 c))))
              (λ c. refl)))

parse_chars_step :
    (ch : ℕ) (rest : Text) (p q : Parser)
    → parse_char ch p ≡ some q
    → parse_chars (ch ∷ rest) p ≡ parse_chars rest q
unfolding parse_chars
parse_chars_step ch rest p q e = ap (λ o. o >>= λ x. parse_chars rest x) e

-- A backslash, and the character behind it.
escaped_step :
    (can_be : Bool) (cmd : List Text) (fp fa : Bool) (str : Text) (ch : ℕ) (rest : Text)
    → (ch == 92 || ch == 32) ≡ true
    → parse_chars (92 ∷ ch ∷ rest) (reading can_be cmd fp fa str)
      ≡ parse_chars rest (reading can_be cmd fp fa (str ++ ch ∷ []))
unfolding parse_chars parse_char plain_char append
escaped_step can_be cmd fp fa str ch rest h = elim (||-true (ch == 92) (ch == 32) h) [
  | inl e ↦
      let same = (==_iff ch 92).0 e in
      subst
        (λ c.
          parse_chars (92 ∷ c ∷ rest) (reading can_be cmd fp fa str)
          ≡ parse_chars rest (reading can_be cmd fp fa (str ++ c ∷ [])))
        (sym same) refl
  | inr e ↦
      let same = (==_iff ch 32).0 e in
      subst
        (λ c.
          parse_chars (92 ∷ c ∷ rest) (reading can_be cmd fp fa str)
          ≡ parse_chars rest (reading can_be cmd fp fa (str ++ c ∷ [])))
        (sym same) refl
]

abbrev pub AllFit : Bool → Text → Type 0
AllFit can_be w = All (Fits can_be) w

-- A whole word is added to the text that was read.
pub word_read :
    (can_be : Bool) (cmd : List Text) (fp fa : Bool) (str w rest : Text)
    → AllFit can_be w
    → parse_chars (escape w ++ rest) (reading can_be cmd fp fa str)
      ≡ parse_chars rest (reading can_be cmd fp fa (str ++ w))
word_read can_be cmd fp fa str [] rest fits =
    ap (λ s. parse_chars rest (reading can_be cmd fp fa s)) (sym (append_nil str))
word_read can_be cmd fp fa str (ch ∷ w) rest fits =
    let tail =
      word_read can_be cmd fp fa (str ++ ch ∷ []) w rest fits.1
      ∙ ap (λ s. parse_chars rest (reading can_be cmd fp fa s)) (append_assoc str ch w) in
    if-cases
      (λ (s : Text).
        parse_chars (s ++ rest) (reading can_be cmd fp fa str)
        ≡ parse_chars rest (reading can_be cmd fp fa (str ++ ch ∷ w)))
      (ch == 92 || ch == 32) _ _
      (λ h. escaped_step can_be cmd fp fa str ch (escape w ++ rest) h ∙ tail)
      (λ h.
        parse_chars_step ch (escape w ++ rest) _ _ (plain_step can_be cmd fp fa str ch fits.0 h)
        ∙ tail)

abbrev pub holds_program : Text → Bool
holds_program w = contains_text w program

abbrev pub holds_arguments : Text → Bool
holds_arguments w = contains_text w arguments

-- The end of a word.
pub word_ends :
    (can_be : Bool) (cmd : List Text) (fp fa : Bool) (w rest : Text) (sep : ℕ)
    → is_empty w ≡ false
    → ((sep ≡ 32) ⊎ (sep ≡ 0))
    → parse_chars (sep ∷ rest) (reading can_be cmd fp fa w)
      ≡ parse_chars rest
          (reading false (cmd ++ w ∷ []) (fp || holds_program w) (fa || holds_arguments w) [])
unfolding parse_chars parse_char plain_char end_argument add_argument
word_ends can_be cmd fp fa [] rest sep h e = cc
word_ends can_be cmd fp fa (a ∷ s) rest sep h (inl e) =
    subst
      (λ c.
        parse_chars (c ∷ rest) (reading can_be cmd fp fa (a ∷ s))
        ≡ parse_chars rest (
            reading false (cmd ++ (a ∷ s) ∷ []) (fp || holds_program (a ∷ s))
              (fa || holds_arguments (a ∷ s)) []))
      (sym e) refl
word_ends can_be cmd fp fa (a ∷ s) rest sep h (inr e) =
    subst
      (λ c.
        parse_chars (c ∷ rest) (reading can_be cmd fp fa (a ∷ s))
        ≡ parse_chars rest (
            reading false (cmd ++ (a ∷ s) ∷ []) (fp || holds_program (a ∷ s))
              (fa || holds_arguments (a ∷ s)) []))
      (sym e) refl
