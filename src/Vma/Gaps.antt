-- ===== src/Vma/Gaps.antt =====
-- The areas of kernel/mm/vma.c in order, and the gaps between them.
use sync_kernel.Prelude.{
  ℕ, zero, suc, ◌-◌, ◌^◌, ◌≤◌, ◌<◌, ◌≡◌, refl, sym, ap, ◌∙◌, inl, inr, true, false, Option, none,
  some, List, [], ◌∷◌, ◌++◌, arith, ◌==◌, leb, if◌then◌else◌, Bool-cases, length, ==_iff,
}
use mathlib.Core.List.{append_assoc}
use sync_kernel.Prelude.Words.{sub64}
use sync_kernel.Rbtree.Next.{rb_next-flatten}
use sync_kernel.Rbtree.Shape.{Tree, leaf, fork, size, flatten, IsTree, Separate, head_or, last_or}
use sync_kernel.Vma.{Vmas, area_at, gap_loop}
use sync_kernel.Vma.Search.{IsOrdered}

module _ (v : Vmas) where
  abbrev pub begin : ℕ → ℕ
  begin x = (area_at v x).vm_start

  abbrev pub end : ℕ → ℕ
  end x = (area_at v x).vm_end

  -- The areas of a list lie between two addresses, in its order.
  abbrev pub InOrder : ℕ → ℕ → List ℕ → Type 0
  InOrder lo hi [] = lo ≤ hi
  InOrder lo hi (x ∷ xs) =
      (lo ≤ (area_at v x).vm_start)
      × ((area_at v x).vm_start < (area_at v x).vm_end)
      × InOrder (area_at v x).vm_end hi xs

  InOrder-append :
      (xs ys : List ℕ) (lo hi x : ℕ)
      → InOrder lo (begin x) xs
      → begin x < end x
      → InOrder (end x) hi ys
      → InOrder lo hi (xs ++ x ∷ ys)
  InOrder-append [] ys lo hi x a p b = (a, p, b)
  InOrder-append (z ∷ xs) ys lo hi x (a, q, rest) p b =
      (a, q, InOrder-append xs ys (end z) hi x rest p b)

  pub IsOrdered-InOrder : (t : Tree) (lo hi : ℕ) → IsOrdered v lo hi t → InOrder lo hi (flatten t)
  unfolding IsOrdered flatten
  IsOrdered-InOrder leaf lo hi o = o
  IsOrdered-InOrder (fork l x r) lo hi (a, p, b) =
      InOrder-append (flatten l) (flatten r) lo hi x (IsOrdered-InOrder l lo (begin x) a) p
        (IsOrdered-InOrder r (end x) hi b)

  -- The start of the first gap of `sz` bytes behind the area `x`, of those before the areas `ys`.
  abbrev pub first_gap : ℕ → ℕ → List ℕ → Option ℕ
  first_gap sz x [] = none
  first_gap sz x (y ∷ ys) =
      if leb sz ((area_at v y).vm_start - (area_at v x).vm_end)
      then some (area_at v x).vm_end
      else first_gap sz y ys

  pub InOrder-bounds : (xs : List ℕ) (lo hi : ℕ) → InOrder lo hi xs → lo ≤ hi
  InOrder-bounds [] lo hi o = o
  InOrder-bounds (x ∷ xs) lo hi (a, p, b) = omega (arith, InOrder-bounds xs (end x) hi b, a, p)

  pub last-start : (lo hi y : ℕ) (ys : List ℕ) → InOrder lo hi (y ∷ ys) → lo ≤ begin (last_or y ys)
  unfolding last_or
  last-start lo hi y [] (a, p, b) = a
  last-start lo hi y (z ∷ ys) (a, p, b) = omega (arith, last-start (end y) hi z ys b, a, p)

  pub last-end : (lo hi y : ℕ) (ys : List ℕ) → InOrder lo hi (y ∷ ys) → end (last_or y ys) ≤ hi
  unfolding last_or
  last-end lo hi y [] (a, p, b) = b
  last-end lo hi y (z ∷ ys) (a, p, b) = last-end (end y) hi z ys b

  -- The search through the tree gives the first gap of the list.
  pub gap_loop-first_gap :
      (k fuel sz lo hi : ℕ) (t : Tree) (xs : List ℕ) (x : ℕ) (ys : List ℕ)
      → length ys < k
      → size t < fuel
      → IsTree v.tree.nodes v.tree.root 0 t
      → Separate t
      → flatten t ≡ xs ++ x ∷ ys
      → InOrder lo hi (x ∷ ys)
      → hi < 2 ^ 64
      → gap_loop k fuel v x (last_or x ys) sz ≡ some (first_gap sz x ys)
  unfolding gap_loop last_or head_or
  gap_loop-first_gap zero fuel sz lo hi t xs x ys h enough w s e o small = absurd (omega arith)
  gap_loop-first_gap (suc k) fuel sz lo hi t xs x [] h enough w s e o small =
      let same : (x == x) ≡ true = ground arith in rw same refl
  gap_loop-first_gap (suc k) fuel sz lo hi t xs x (y ∷ ys) h enough w s e (a, p, b) small =
      let last = last-start (end x) hi y ys b in
      let apart : (x == last_or y ys) ≡ false = elim (Bool-cases (x == last_or y ys)) [
        | inl same ↦
            let e' : x ≡ last_or y ys = (==_iff x (last_or y ys)).0 same in
            absurd (omega (arith, last, ap (λ q. begin q) e', p))
        | inr other ↦ other
      ] in
      let found = rb_next-flatten fuel v.tree t xs x (y ∷ ys) enough w s e in
      let bounds = InOrder-bounds ys (end y) hi b.2 in
      let gap : sub64 (begin y) (end x) ≡ begin y - end x = omega (arith, b.0, b.1, bounds) in
      let rest =
        gap_loop-first_gap k fuel sz (end x) hi t (xs ++ x ∷ []) y ys (omega arith) enough w s
          (e ∙ sym (append_assoc xs (x ∷ []) (y ∷ ys))) b small in
      rw (apart, found, gap, rest) (ground arith)
