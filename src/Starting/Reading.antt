-- ===== src/Starting/Reading.antt =====
-- The whole of a command that is written with escapes.
use mathlib.Core.Path.{◌∙◌}
use qtapplicationmanager.Prelude.{
  ◌≡◌, ◌≢◌, refl, sym, ap, Bool, true, false, ◌&&◌, ◌||◌, List, [], ◌∷◌, ◌++◌, Option, none, some,
  arith, All, any, is_empty, inl, inr, if◌then◌else◌,
}
use qtapplicationmanager.Prelude.Maybe.{◌>>=◌}
use qtapplicationmanager.Starting.DebugWrapper.{
  Text, program, arguments, Parser, parse_chars, with_placeholders, parse_specification,
}
use qtapplicationmanager.Starting.Wrapping.{
  escape, join, IsWord, reading, AllFit, word_read, word_ends, holds_program, holds_arguments,
}

or_assoc : (a b c : Bool) → ((a || b) || c) ≡ (a || (b || c))
or_assoc true b c = refl
or_assoc false b c = refl

or_nothing : (a : Bool) → (a || false) ≡ a
or_nothing true = refl
or_nothing false = refl

append_all : (xs : List Text) (w : Text) (ws : List Text) → (xs ++ w ∷ []) ++ ws ≡ xs ++ w ∷ ws
append_all [] w ws = refl
append_all (x ∷ xs) w ws = ap (λ t. x ∷ t) (append_all xs w ws)

fit_later : (w : Text) → All (λ ch. ch ≢ 0) w → AllFit false w
fit_later [] a = tt
fit_later (ch ∷ w) a = ((a.0, refl), fit_later w a.1)

fit_first : (w : Text) → All (λ ch. ch ≢ 0) w → All (λ ch. ch ≢ 61) w → AllFit true w
fit_first [] a b = tt
fit_first (ch ∷ w) a b = ((a.0, ground arith), fit_first w a.1 b.1)

text_assoc : (a b c : Text) → (a ++ b) ++ c ≡ a ++ (b ++ c)
text_assoc [] b c = refl
text_assoc (x ∷ a) b c = ap (λ t. x ∷ t) (text_assoc a b c)

same_state :
    (c d : List Text) (fp gp fa ga : Bool)
    → c ≡ d
    → fp ≡ gp
    → fa ≡ ga
    → ◌≡◌ {A = Option Parser} (some (reading false c fp fa [])) (some (reading false d gp ga []))
same_state c d fp gp fa ga e h k =
    ap (λ x. some (reading false x fp fa [])) e
    ∙ (ap (λ x. some (reading false d x fa [])) h ∙ ap (λ x. some (reading false d gp x [])) k)

-- All the words, up to the end of the text.
words_read :
    (can_be : Bool) (cmd : List Text) (fp fa : Bool) (w : Text) (ws : List Text)
    → is_empty w ≡ false
    → AllFit can_be w
    → All IsWord ws
    → parse_chars (join w ws ++ 0 ∷ []) (reading can_be cmd fp fa [])
      ≡ some (
          reading false
            (cmd ++ w ∷ ws)
            (fp || any holds_program (w ∷ ws))
            (fa || any holds_arguments (w ∷ ws))
            [])
unfolding parse_chars
words_read can_be cmd fp fa w [] filled fits a =
    word_read can_be cmd fp fa [] w (0 ∷ []) fits
    ∙ (word_ends can_be cmd fp fa w [] 0 filled (inr refl)
        ∙ same_state (cmd ++ w ∷ []) (cmd ++ w ∷ []) (fp || holds_program w) _
            (fa || holds_arguments w) _ refl
            (ap (λ b. fp || b) (sym (or_nothing (holds_program w))))
            (ap (λ b. fa || b) (sym (or_nothing (holds_arguments w)))))
words_read can_be cmd fp fa w (v ∷ ws) filled fits a =
    let behind : Text = join v ws ++ 0 ∷ [] in
    let begin = reading can_be cmd fp fa [] in
    let split : parse_chars ((escape w ++ 32 ∷ join v ws) ++ 0 ∷ []) begin
        ≡ parse_chars (escape w ++ 32 ∷ behind) begin =
      ap (λ t. parse_chars t begin) (text_assoc (escape w) (32 ∷ join v ws) (0 ∷ [])) in
    let first = word_read can_be cmd fp fa [] w (32 ∷ behind) fits in
    let space = word_ends can_be cmd fp fa w behind 32 filled (inl refl) in
    let others =
      words_read false (cmd ++ w ∷ []) (fp || holds_program w) (fa || holds_arguments w) v ws a.0.0
        (fit_later v a.0.1) a.1 in
    let end' =
      same_state ((cmd ++ w ∷ []) ++ v ∷ ws) (cmd ++ w ∷ v ∷ ws)
        ((fp || holds_program w) || any holds_program (v ∷ ws)) _
        ((fa || holds_arguments w) || any holds_arguments (v ∷ ws)) _ (append_all cmd w (v ∷ ws))
        (or_assoc fp (holds_program w) (any holds_program (v ∷ ws)))
        (or_assoc fa (holds_arguments w) (any holds_arguments (v ∷ ws))) in
    split ∙ (first ∙ (space ∙ (others ∙ end')))

-- What a command is completed with.
abbrev pub completed : List Text → List Text
completed ws =
    ws
    ++ (if any holds_program ws then [] else program ∷ [])
    ++ (if any holds_arguments ws then [] else arguments ∷ [])

-- A command of words that are not empty and hold no null character, the first of them without an
-- equals sign, that is written with a backslash before each backslash and each space, and a space
-- between the words: parseSpecification accepts it, reads back these words with no variable, and adds
-- the placeholders for the program and its arguments that no word holds.
pub parse_specification-join :
    (w : Text) (ws : List Text)
    → IsWord w
    → All (λ ch. ch ≢ 61) w
    → All IsWord ws
    → parse_specification (join w ws) ≡ some (completed (w ∷ ws), [])
unfolding parse_specification with_placeholders
parse_specification-join w ws word no_equals words =
    ap
      (λ o. o >>= λ p.
        if is_empty p.command && is_empty p.environment
        then none
        else some (with_placeholders p, p.environment))
      (words_read true [] false false w ws word.0 (fit_first w word.1 no_equals) words)
