-- ===== src/PackageManager/Names.antt =====
-- `validateDnsName`. Characters are UTF-16 codes; `QString::split` is a parameter.
use mathlib.Core.Bool.{false≢true}
use qtapplicationmanager.Prelude.{
  ℕ, ◌≤◌, ◌≡◌, refl, ◌⊎◌, ◌↔◌, Bool, true, false, ◌&&◌, ◌||◌, not, String, List, [], ◌∷◌, arith, ℤ,
  pos, negsuc, All, length, is_empty, leb, ltb, ◌==◌, if◌then◌else◌, inr,
}

abbrev pub is_digit : ℕ → Bool
is_digit ch = leb 48 ch && leb ch 57

abbrev pub is_lower : ℕ → Bool
is_lower ch = leb 97 ch && leb ch 122

-- The test that throws.
abbrev pub is_refused : Bool → Bool → ℕ → Bool
is_refused is_first is_last ch =
    (is_first || is_last || not (ch == 45)) && not (is_digit ch) && not (is_lower ch)

-- The loop over the characters.
unfoldable pub check_chars : Bool → List ℕ → Bool
check_chars is_first [] = true
check_chars is_first (ch ∷ rest) =
    let others = check_chars false rest in
    if is_refused is_first (is_empty rest) ch then false else others

unfoldable pub part_check : List ℕ → Bool
part_check part =
    if ltb (length part) 1 || not (leb (length part) 63) then false else check_chars true part

unfoldable pub check_parts : List (List ℕ) → Bool
check_parts [] = true
check_parts (part ∷ parts) =
    let others = check_parts parts in if part_check part then others else false

abbrev pub is_fewer : ℕ → ℤ → Bool
is_fewer n (pos k) = ltb n k
is_fewer n (negsuc k) = false

unfoldable pub validate_dns_name : (String → List (List ℕ)) → String → ℤ → Bool
validate_dns_name split name minimal_part_count =
    if is_fewer (length (split name)) minimal_part_count then false else check_parts (split name)

-- The characters of a name: digits, small letters, and the dash.
abbrev pub IsAlnum : ℕ → Type 0
IsAlnum ch = ((48 ≤ ch) × (ch ≤ 57)) ⊎ ((97 ≤ ch) × (ch ≤ 122))

abbrev pub IsNameChar : ℕ → Type 0
IsNameChar ch = (ch ≡ 45) ⊎ IsAlnum ch

abbrev pub StartsWell : List ℕ → Type 0
StartsWell [] = ⊥
StartsWell (ch ∷ rest) = IsAlnum ch

abbrev pub EndsWell : List ℕ → Type 0
EndsWell [] = Unit
EndsWell (ch ∷ []) = IsAlnum ch
EndsWell (ch ∷ next ∷ rest) = EndsWell (next ∷ rest)

-- RFC 1035: 1 to 63 characters, with no dash at either end.
abbrev pub IsDnsPart : List ℕ → Type 0
IsDnsPart part = (length part ≤ 63) × StartsWell part × EndsWell part × All IsNameChar part

inside : (ch : ℕ) → (is_refused false false ch ≡ false) ↔ IsNameChar ch
inside ch = (λ h. ground arith, λ h. ground arith)

at_end : (first : Bool) (ch : ℕ) → (is_refused first true ch ≡ false) ↔ IsAlnum ch
at_end first ch = (λ h. ground arith, λ h. ground arith)

at_start : (last : Bool) (ch : ℕ) → (is_refused true last ch ≡ false) ↔ IsAlnum ch
at_start last ch = (λ h. ground arith, λ h. ground arith)

kept_if : (b c : Bool) → ((if b then false else c) ≡ true) ↔ ((b ≡ false) × (c ≡ true))
kept_if true c = (λ h. cc, λ h. cc)
kept_if false c = (λ h. (refl, h), λ h. h.1)

check_rest_iff : (xs : List ℕ) → (check_chars false xs ≡ true) ↔ (EndsWell xs × All IsNameChar xs)
unfolding check_chars
check_rest_iff [] = (λ h. (tt, tt), λ h. refl)
check_rest_iff (ch ∷ []) =
    let k = kept_if (is_refused false true ch) true in
    let e = at_end false ch in
    (λ h. let a = e.0 (k.0 h).0 in (a, (inr a, tt)), λ h. k.1 (e.1 h.0, refl))
check_rest_iff (ch ∷ next ∷ rest) =
    let k = kept_if (is_refused false false ch) (check_chars false (next ∷ rest)) in
    let e = inside ch in
    let r = check_rest_iff (next ∷ rest) in
    (
      λ h. let g = k.0 h in let s = r.0 g.1 in (s.0, (e.0 g.0, s.1)),
      λ h. k.1 (e.1 h.1.0, r.1 (h.0, h.1.1)),
    )

check_first_iff :
    (ch : ℕ) (rest : List ℕ)
    → (check_chars true (ch ∷ rest) ≡ true)
      ↔ (IsAlnum ch × EndsWell (ch ∷ rest) × All IsNameChar (ch ∷ rest))
unfolding check_chars
check_first_iff ch [] =
    let k = kept_if (is_refused true true ch) true in
    let e = at_start true ch in
    (λ h. let a = e.0 (k.0 h).0 in (a, a, (inr a, tt)), λ h. k.1 (e.1 h.0, refl))
check_first_iff ch (next ∷ rest) =
    let k = kept_if (is_refused true false ch) (check_chars false (next ∷ rest)) in
    let e = at_start false ch in
    let r = check_rest_iff (next ∷ rest) in
    (
      λ h. let g = k.0 h in let a = e.0 g.0 in let s = r.0 g.1 in (a, s.0, (inr a, s.1)),
      λ h. k.1 (e.1 h.0, r.1 (h.1, h.2.1)),
    )

length_fits : (n : ℕ) → ((ltb n 1 || not (leb n 63)) ≡ false) ↔ ((1 ≤ n) × (n ≤ 63))
length_fits n = (λ h. ground arith, λ h. ground arith)

part_check_iff : (part : List ℕ) → (part_check part ≡ true) ↔ IsDnsPart part
unfolding part_check
part_check_iff [] = (λ h. absurd (false≢true h), λ h. absurd h.1)
part_check_iff (ch ∷ rest) =
    let n = length (ch ∷ rest) in
    let k = kept_if (ltb n 1 || not (leb n 63)) (check_chars true (ch ∷ rest)) in
    let l = length_fits n in
    let c = check_first_iff ch rest in
    (
      λ h. let g = k.0 h in let s = c.0 g.1 in ((l.0 g.0).1, s.0, s.1, s.2),
      λ h. k.1 (l.1 (omega arith, h.0), c.1 (h.1, h.2, h.3)),
    )

if_then_else_false : (b c : Bool) → ((if b then c else false) ≡ true) ↔ ((b ≡ true) × (c ≡ true))
if_then_else_false true c = (λ h. (refl, h), λ h. h.1)
if_then_else_false false c = (λ h. absurd (false≢true h), λ h. h.0)

check_parts_iff : (parts : List (List ℕ)) → (check_parts parts ≡ true) ↔ All IsDnsPart parts
unfolding check_parts
check_parts_iff [] = (λ h. tt, λ h. refl)
check_parts_iff (part ∷ parts) =
    let k = if_then_else_false (part_check part) (check_parts parts) in
    let p = part_check_iff part in
    let r = check_parts_iff parts in
    (λ h. let g = k.0 h in (p.0 g.0, r.0 g.1), λ h. k.1 (p.1 h.0, r.1 h.1))

-- There are at least as many parts as asked for; a negative number asks for nothing.
abbrev pub HasParts : ℕ → ℤ → Type 0
HasParts n (pos k) = k ≤ n
HasParts n (negsuc k) = Unit

is_fewer_iff : (n : ℕ) (z : ℤ) → (is_fewer n z ≡ false) ↔ HasParts n z
is_fewer_iff n (pos k) = (λ h. ground arith, λ h. ground arith)
is_fewer_iff n (negsuc k) = (λ h. tt, λ h. refl)

-- `validateDnsName` accepts a name exactly when it has the parts asked for, and each part has 1 to 63
-- characters, all of them digits, small letters or dashes, with no dash at either end.
pub validate_dns_name_iff :
    (split : String → List (List ℕ)) (name : String) (minimal_part_count : ℤ)
    → (validate_dns_name split name minimal_part_count ≡ true)
      ↔ (HasParts (length (split name)) minimal_part_count × All IsDnsPart (split name))
unfolding validate_dns_name
validate_dns_name_iff split name minimal_part_count =
    let k =
      kept_if (is_fewer (length (split name)) minimal_part_count) (check_parts (split name)) in
    let f = is_fewer_iff (length (split name)) minimal_part_count in
    let p = check_parts_iff (split name) in
    (λ h. let g = k.0 h in (f.0 g.0, p.0 g.1), λ h. k.1 (f.1 h.0, p.1 h.1))
