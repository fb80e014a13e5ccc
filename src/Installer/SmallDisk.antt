-- ===== src/Installer/SmallDisk.antt =====
-- A small disk that does what POSIX says.
use mathlib.Core.Path.{◌∙◌}
use qtapplicationmanager.Prelude.{
  ◌≡◌, ◌≢◌, refl, sym, ap, Bool, true, false, ◌&&◌, String, str_eq, str_eq_iff, List, [], ◌∷◌,
  Option, none, is_some, &&-true, true-&&, if◌then◌else◌, if-cases,
}
use qtapplicationmanager.Installer.Files.{
  Suffix, no_suffix, minus, plus, Name, Tree, FileSystem, FileLaws,
}

-- The disk is its trees; a rename fails when nothing is there, and nothing else fails.
abbrev pub Trees : Type 0
Trees = Name → Option Tree

abbrev pub same_suffix : Suffix → Suffix → Bool
same_suffix no_suffix no_suffix = true
same_suffix minus minus = true
same_suffix plus plus = true
same_suffix _ _ = false

abbrev pub same_name : Name → Name → Bool
same_name a b = str_eq a.base b.base && same_suffix a.suffix b.suffix

same_suffix_refl : (a : Suffix) → same_suffix a a ≡ true
same_suffix_refl no_suffix = refl
same_suffix_refl minus = refl
same_suffix_refl plus = refl

same_suffix-true : (a b : Suffix) → same_suffix a b ≡ true → a ≡ b
same_suffix-true no_suffix no_suffix h = refl
same_suffix-true minus minus h = refl
same_suffix-true plus plus h = refl
same_suffix-true no_suffix minus h = cc
same_suffix-true no_suffix plus h = cc
same_suffix-true minus no_suffix h = cc
same_suffix-true minus plus h = cc
same_suffix-true plus no_suffix h = cc
same_suffix-true plus minus h = cc

same_name_refl : (a : Name) → same_name a a ≡ true
same_name_refl a =
    true-&& (str_eq a.base a.base) _ ((str_eq_iff a.base a.base).1 refl) (same_suffix_refl a.suffix)

same_name-true : (a b : Name) → same_name a b ≡ true → a ≡ b
same_name-true a b h =
    let both = &&-true (str_eq a.base b.base) _ h in
    ap (λ (x : String). record { base = x; suffix = a.suffix })
      ((str_eq_iff a.base b.base).0 both.0)
    ∙ ap (λ (s : Suffix). record { base = b.base; suffix = s })
        (same_suffix-true a.suffix b.suffix both.1)

abbrev pub put : Name → Option Tree → Trees → Trees
put n t d k = if same_name k n then t else d k

put_self : (n : Name) (t : Option Tree) (d : Trees) → put n t d n ≡ t
put_self n t d = rw (same_name_refl n) refl

put_other : (n k : Name) (t : Option Tree) (d : Trees) → k ≢ n → put n t d k ≡ d k
put_other n k t d ne =
    if-cases (λ x. x ≡ d k) (same_name k n) _ _ (λ h. absurd (ne (same_name-true k n h)))
      (λ h. refl)

abbrev pub move : Name → Name → Trees → Trees × Bool
move from to d = if is_some (d from) then (put from none (put to (d from) d), true) else (d, false)

abbrev pub clear : Name → List String → Trees → Trees × Bool
clear n [] d = (put n none d, true)
clear n (step ∷ below) d = (d, true)

abbrev pub small_disk : FileSystem
small_disk = record {
  Disk = Trees;
  at = λ d n. d n;
  rename = move;
  set_permissions = λ n below d. (d, true);
  remove_dir = clear;
  remove_file = clear;
}

clear-keeps :
    (n : Name) (below : List String) (d : Trees) (k : Name) → k ≢ n → (clear n below d).0 k ≡ d k
clear-keeps n [] d k ne = put_other n k none d ne
clear-keeps n (step ∷ below) d k ne = refl

pub small_laws : FileLaws small_disk
small_laws = record {
  set_permissions_local = λ n below d k ne. refl;
  remove_dir_local = clear-keeps;
  remove_file_local = clear-keeps;
  moved = λ from to d ne.
      if-cases (λ (r : Trees × Bool). r.1 ≡ true → r.0 to ≡ d from) (is_some (d from)) _ _
        (λ h ok.
          put_other from to none (put to (d from) d) (λ e. ne (sym e)) ∙ put_self to (d from) d)
        (λ h ok. cc);
  vacated = λ from to d ne.
      if-cases (λ (r : Trees × Bool). r.1 ≡ true → r.0 from ≡ none) (is_some (d from)) _ _
        (λ h ok. put_self from none (put to (d from) d)) (λ h ok. cc);
  unmoved = λ from to d k.
      if-cases (λ (r : Trees × Bool). r.1 ≡ false → r.0 k ≡ d k) (is_some (d from)) _ _ (λ h ok. cc)
        (λ h ok. refl);
  beside = λ from to d k nf nt.
      if-cases (λ (r : Trees × Bool). r.0 k ≡ d k) (is_some (d from)) _ _
        (λ h. put_other from k none (put to (d from) d) nf ∙ put_other to k (d from) d nt)
        (λ h. refl);
}
