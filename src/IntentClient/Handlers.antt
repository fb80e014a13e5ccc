-- ===== src/IntentClient/Handlers.antt =====
-- The handler table is a partial function from an intent and an application to a handler.
use mathlib.Core.Path.{◌∙◌}
use qtapplicationmanager.Prelude.{
  ℕ, ◌≡◌, refl, sym, ap, subst, Bool, true, false, ◌||◌, String, str_eq, str_eq_iff, List, [], ◌∷◌,
  Option, none, some, any, Bool-cases, Option-cases, &&-true, inl, inr, if-both, if◌then◌else◌,
}
use qtapplicationmanager.IntentClient.State.{Client}
use qtapplicationmanager.IntentClient.Client.{
  same_key, handler_for, insert_handler, register_handler,
}

abbrev pub Key : Type 0
Key = String × String

abbrev pub Table : Type 0
Table = List (Key × ℕ)

-- What a registration means: it adds the handler where there is none.
abbrev pub Registry : Type 0
Registry = Key → Option ℕ

abbrev pub is_named : String → List String → Key → Bool
is_named application_id ids key = any (λ id. same_key (id, application_id) key) ids

abbrev pub or_handler : Option ℕ → Bool → ℕ → Option ℕ
or_handler (some g) b h = some g
or_handler none b h = if b then some h else none

abbrev pub register : ℕ → String → List String → Registry → Registry
register h application_id ids registry key =
    or_handler (registry key) (is_named application_id ids key) h

same_key-true : (a b : Key) → same_key a b ≡ true → a ≡ b
same_key-true (a, i) (b, j) h =
    let both = &&-true (str_eq a b) (str_eq i j) h in
    ap (λ (x : String). (x, i)) ((str_eq_iff a b).0 both.0)
    ∙ ap (λ (x : String). (b, x)) ((str_eq_iff i j).0 both.1)

handler_for-absent :
    (key : Key) (hs : Table) → handler_for key hs ≡ none → any (λ e. same_key e.0 key) hs ≡ false
handler_for-absent key [] f = refl
handler_for-absent key ((k, g) ∷ hs) f = elim (Bool-cases (same_key k key)) [
  | inl hit ↦ cc (rw hit at f)
  | inr miss ↦ rw miss (handler_for-absent key hs (rw miss at f))
]

handler_for-known :
    (key : Key) (hs : Table) (g : ℕ)
    → handler_for key hs ≡ some g
    → any (λ e. same_key e.0 key) hs ≡ true
handler_for-known key [] g f = cc
handler_for-known key ((k, j) ∷ hs) g f = elim (Bool-cases (same_key k key)) [
  | inl hit ↦ rw hit refl
  | inr miss ↦ rw miss (handler_for-known key hs g (rw miss at f))
]

same_key_self : (a : Key) → same_key a a ≡ true
same_key_self (a, i) = rw ((str_eq_iff a a).1 refl, (str_eq_iff i i).1 refl) refl

-- An insertion at another key, and at the key itself.
insert-other :
    (key : Key) (hs : Table) (k : Key) (h : ℕ)
    → same_key k key ≡ false
    → handler_for key (insert_handler k h hs) ≡ handler_for key hs
insert-other key [] k h f = rw f refl
insert-other key ((j, g) ∷ hs) k h f = elim (Bool-cases (same_key j k)) [
  | inl hit ↦
      let apart = subst (λ x. same_key x key ≡ false) (sym (same_key-true j k hit)) f in
      rw (hit, apart) refl
  | inr miss ↦ rw (miss, insert-other key hs k h f) refl
]

insert_self : (hs : Table) (k : Key) (h : ℕ) → handler_for k (insert_handler k h hs) ≡ some h
insert_self [] k h = rw (same_key_self k) refl
insert_self ((j, g) ∷ hs) k h = elim (Bool-cases (same_key j k)) [
  | inl hit ↦ rw (hit, hit) refl
  | inr miss ↦ rw (miss, miss) (insert_self hs k h)
]

-- One turn of the loop.
abbrev added : ℕ → Key → Table → Table
added h k hs = if any (λ e. same_key e.0 k) hs then hs else insert_handler k h hs

or_nothing : (o : Option ℕ) (h : ℕ) → or_handler o false h ≡ o
or_nothing (some g) h = refl
or_nothing none h = refl

added_self :
    (h : ℕ) (k : Key) (hs : Table)
    → handler_for k (added h k hs) ≡ or_handler (handler_for k hs) (same_key k k) h
added_self h k hs = elim (Option-cases (handler_for k hs)) [
  | inr (g, e) ↦ rw (handler_for-known k hs g e, e) refl
  | inl e ↦ rw (handler_for-absent k hs e, e, same_key_self k) (insert_self hs k h)
]

added-Refines :
    (h : ℕ) (k key : Key) (hs : Table)
    → handler_for key (added h k hs) ≡ or_handler (handler_for key hs) (same_key k key) h
added-Refines h k key hs = elim (Bool-cases (same_key k key)) [
  | inr other ↦
      if-both (λ (t : Table). handler_for key t ≡ handler_for key hs) (any (λ e. same_key e.0 k) hs)
        _ _ refl (insert-other key hs k h other)
      ∙ (sym (or_nothing (handler_for key hs) h)
          ∙ sym (ap (λ b. or_handler (handler_for key hs) b h) other))
  | inl same ↦
      subst (λ j. handler_for j (added h k hs) ≡ or_handler (handler_for j hs) (same_key k j) h)
        (same_key-true k key same) (added_self h k hs)
]

or_twice :
    (o : Option ℕ) (a b : Bool) (h : ℕ)
    → or_handler (or_handler o a h) b h ≡ or_handler o (a || b) h
or_twice (some g) a b h = refl
or_twice none true b h = refl
or_twice none false b h = refl

handlers_of :
    (b : Bool) (c : Client) (hs : Table)
    → (if b then c else record c { handlers = hs }).handlers ≡ (if b then c.handlers else hs)
handlers_of true c hs = refl
handlers_of false c hs = refl

-- The table after a registration of a handler for any intents of an application, taken as a partial
-- function, is the table before it with the handler added for each of these intents that had none:
-- the handler that registered first stays, also among the intents of one call.
pub register_handler-Refines :
    (h : ℕ) (application_id : String) (ids : List String) (c : Client) (key : Key)
    → handler_for key (register_handler h application_id ids c).handlers
      ≡ register h application_id ids (λ k. handler_for k c.handlers) key
unfolding register_handler
register_handler-Refines h application_id [] c key =
    elim (Option-cases (handler_for key c.handlers)) [
      | inl e ↦ e ∙ sym (ap (λ o. or_handler o false h) e)
      | inr (g, e) ↦ e ∙ sym (ap (λ o. or_handler o false h) e)
    ]
register_handler-Refines h application_id (intent_id ∷ ids) c key =
    let k : Key = (intent_id, application_id) in
    let next : Client =
      if any (λ e. same_key e.0 k) c.handlers
      then c
      else record c { handlers = insert_handler k h c.handlers } in
    let same : next.handlers ≡ added h k c.handlers =
      handlers_of (any (λ e. same_key e.0 k) c.handlers) c (insert_handler k h c.handlers) in
    register_handler-Refines h application_id ids next key
    ∙ (ap (λ o. or_handler o (is_named application_id ids key) h)
          (ap (handler_for key) same ∙ added-Refines h k key c.handlers)
        ∙ or_twice (handler_for key c.handlers) (same_key k key) (is_named application_id ids key)
            h)
