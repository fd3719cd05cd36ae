-- ===== src/Selection/Choose/Alternatives.antt =====
-- The alternatives to the grouping index are among the indices (`choose`,
-- src/scalar_index_selection.rs).
use mathlib.Core.List.{Memᴰ}
use mathlib.Core.List.Memᴰ
use mathlib.Core.Logic.{⊎_elim}
use lance_c.Prelude.{ℕ, Bool, true, false, List, [], ◌∷◌, ◌==◌, ◌≡◌, inl, inr, ◌⊎◌, if◌then◌else◌}
use lance_c.Selection.{Values}
use lance_c.Selection.Probe.{Candidate}
use lance_c.Selection.Choose.{precedes, insert_sorted, alternatives}

module _ {A : Type 0} where
  Memᴰ-if :
      (x : A) (b : Bool) (xs ys : List A) → Memᴰ x (if b then xs else ys) → Memᴰ x xs ⊎ Memᴰ x ys
  Memᴰ-if x true xs ys m = inl m
  Memᴰ-if x false xs ys m = inr m

module _ (v : Values) where
  insert_sorted-Mem :
      (c d : Candidate v) (ds : List (Candidate v))
      → Memᴰ c (insert_sorted v d ds)
      → (c ≡ d) ⊎ Memᴰ c ds
  insert_sorted-Mem c d [] m = Memᴰ.cases_cons m
  insert_sorted-Mem c d (x ∷ xs) m =
      elim (Memᴰ-if c (precedes v d x) (d ∷ x ∷ xs) (x ∷ insert_sorted v d xs) m) [
        | inl first ↦ Memᴰ.cases_cons first
        | inr later ↦ elim (Memᴰ.cases_cons later) [
          | inl same ↦ inr (Memᴰ.head same)
          | inr deeper ↦ ⊎_elim inl (λ n. inr (Memᴰ.tail n)) (insert_sorted-Mem c d xs deeper)
        ]
      ]

  pub alternatives-Mem :
      (grouping : ℕ) (c : Candidate v) (cs : List (Candidate v))
      → Memᴰ c (alternatives v grouping cs)
      → Memᴰ c cs
  unfolding alternatives
  alternatives-Mem grouping c [] m = m
  alternatives-Mem grouping c (x ∷ xs) m =
      elim (Memᴰ-if c (x.uuid == grouping) (alternatives v grouping xs)
        (insert_sorted v x (alternatives v grouping xs)) m) [
          | inl skipped ↦ Memᴰ.tail (alternatives-Mem grouping c xs skipped)
          | inr inserted ↦
              ⊎_elim Memᴰ.head (λ n. Memᴰ.tail (alternatives-Mem grouping c xs n))
                (insert_sorted-Mem c x (alternatives v grouping xs) inserted)
        ]
