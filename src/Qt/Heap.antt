-- ===== src/Qt/Heap.antt =====
-- Objects behind pointers: a write to one, and what it leaves alone.
use qtapplicationmanager.Prelude.{
  ℕ, ◌≡◌, ◌≢◌, sym, subst, List, [], ◌∷◌, arith, All, ◌==◌, if◌then◌else◌,
}
use qtapplicationmanager.Qt.Queue.{count}

ne_of_count : (p q : ℕ) (ps : List ℕ) → count p (q ∷ ps) ≡ 0 → q ≢ p
ne_of_count p q ps h = ground arith

module _ {A : Type 0} where
  abbrev pub update : (ℕ → A) → ℕ → A → ℕ → A
  update isr p r q = if p == q then r else isr q

  pub update-other : (isr : ℕ → A) (p : ℕ) (r : A) (q : ℕ) → q ≢ p → update isr p r q ≡ isr q
  update-other isr p r q h = ground arith

  pub update_self : (isr : ℕ → A) (p : ℕ) (r : A) → update isr p r p ≡ r
  update_self isr p r = ground arith

  -- A write through a pointer that a queue does not hold leaves the queue's requests alone.
  pub All-update :
      (P : A → Type 0) (isr : ℕ → A) (p : ℕ) (r : A) (ps : List ℕ)
      → count p ps ≡ 0
      → All (λ q. P (isr q)) ps
      → All (λ q. P (update isr p r q)) ps
  All-update P isr p r [] h a = tt
  All-update P isr p r (q ∷ ps) h a = (
    subst P (sym (update-other isr p r q (ne_of_count p q ps h))) a.0,
    All-update P isr p r ps (omega arith) a.1,
  )
