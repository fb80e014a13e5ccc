-- ===== src/Qt/Queue.antt =====
-- QList and QQueue of pointers: removeOne, and how often a list holds a pointer.
use qtapplicationmanager.Prelude.{
  ℕ, ◌+◌, ◌≡◌, refl, ap, Bool, true, false, List, [], ◌∷◌, ◌++◌, arith, any, ◌==◌, Bool-cases, inl,
  inr, if◌then◌else◌, ==_iff,
}

-- `QQueue::removeOne`.
unfoldable pub remove_one : ℕ → List ℕ → List ℕ
remove_one p [] = []
remove_one p (q ∷ queue) = if q == p then queue else q ∷ remove_one p queue

abbrev pub holds : ℕ → List ℕ → Bool
holds p = any (λ q. q == p)

abbrev pub one_if : Bool → ℕ
one_if true = 1
one_if false = 0

pub one_if_self : (p : ℕ) → one_if (p == p) ≡ 1
one_if_self p = ground arith

abbrev pub count : ℕ → List ℕ → ℕ
count q [] = 0
count q (p ∷ ps) = one_if (p == q) + count q ps

pub count-append : (q : ℕ) (xs ys : List ℕ) → count q (xs ++ ys) ≡ count q xs + count q ys
count-append q [] ys = omega arith
count-append q (x ∷ xs) ys = omega (arith, count-append q xs ys)

-- What `removeOne` takes away of a pointer that the list holds.
pub count-remove_one :
    (p q : ℕ) (xs : List ℕ)
    → holds p xs ≡ true
    → count q xs ≡ count q (remove_one p xs) + one_if (p == q)
unfolding remove_one
count-remove_one p q [] h = cc
count-remove_one p q (x ∷ xs) h = elim (Bool-cases (x == p)) [
  | inl hit ↦ rw hit (omega (arith, ap (λ y. one_if (y == q)) ((==_iff x p).0 hit)))
  | inr miss ↦ rw miss (omega (arith, count-remove_one p q xs (rw miss at h)))
]

pub remove_one-missing : (p : ℕ) (xs : List ℕ) → holds p xs ≡ false → remove_one p xs ≡ xs
unfolding remove_one
remove_one-missing p [] h = refl
remove_one-missing p (x ∷ xs) h = elim (Bool-cases (x == p)) [
  | inl hit ↦ cc
  | inr miss ↦ rw miss (ap (λ ys. x ∷ ys) (remove_one-missing p xs (rw miss at h)))
]

pub holds-count : (p : ℕ) (xs : List ℕ) → holds p xs ≡ false → count p xs ≡ 0
holds-count p [] h = refl
holds-count p (x ∷ xs) h = elim (Bool-cases (x == p)) [
  | inl hit ↦ cc
  | inr miss ↦ rw miss (omega (arith, holds-count p xs (rw miss at h)))
]
