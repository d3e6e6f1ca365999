-- ===== src/Vma/Fits.antt =====
-- What `vma_alloc_area` of kernel/mm/vma.c gives, over the areas in order.
use sync_kernel.Prelude.{
  ℕ, ◌+◌, ◌-◌, ◌^◌, ◌≤◌, ◌<◌, ◌≡◌, refl, sym, ap, ◌∙◌, ◌≢◌, ◌⊎◌, inl, inr, false, Option, none,
  some, List, [], ◌∷◌, ◌++◌, arith, ◌==◌, leb, ltb, ltb→lt, if◌then◌else◌, Bool-cases, Option-cases,
  length,
}
use mathlib.Core.Path.{subst}
use sync_kernel.Prelude.Words.{sub64, invalid_ptr}
use sync_kernel.Paging.{page_alignup}
use sync_kernel.Rbtree.{RbTree}
use sync_kernel.Rbtree.Walk.{rb_first, rb_last}
use sync_kernel.Rbtree.Last.{rb_last-flatten}
use sync_kernel.Rbtree.Shape.{
  Tree, leaf, fork, size, flatten, IsTree, Separate, head_or, last_or, rb_first-flatten,
}
use sync_kernel.Vma.{Vmas, place_area, alloc_beside, vma_alloc_area}
use sync_kernel.Vma.Search.{IsOrdered}
use sync_kernel.Vma.Gaps.{
  InOrder, InOrder-bounds, IsOrdered-InOrder, begin, end, last-end, first_gap, gap_loop-first_gap,
}
use sync_kernel.Vma.Alloc.{
  AllClear, Overlaps, Elem, clear_before, clear_behind, last_span, first_gap-room, first_gap-full,
}

Elem-append : (q x : ℕ) (xs ys : List ℕ) → Elem q (xs ++ x ∷ ys) → Elem q xs ⊎ Elem q (x ∷ ys)
Elem-append q x [] ys h = inr h
Elem-append q x (z ∷ xs) ys (inl e) = inl (inl e)
Elem-append q x (z ∷ xs) ys (inr h) = elim (Elem-append q x xs ys h) [
  | inl here ↦ inl (inr here)
  | inr there ↦ inr there
]

Elem-nonzero :
    (t : RbTree) (p up q : ℕ) (tr : Tree) → IsTree t.nodes p up tr → Elem q (flatten tr) → q ≢ 0
unfolding IsTree flatten
Elem-nonzero t p up q leaf w h = absurd h
Elem-nonzero t p up q (fork l x r) (at, n, e, a, b) h =
    elim (Elem-append q x (flatten l) (flatten r) h) [
      | inl in_left ↦ Elem-nonzero t (t.nodes x).left x q l a in_left
      | inr (inl same) ↦ rw same n
      | inr (inr in_right) ↦ Elem-nonzero t (t.nodes x).right x q r b in_right
    ]

Elem-last : (y : ℕ) (ys : List ℕ) → Elem (last_or y ys) (y ∷ ys)
unfolding last_or
Elem-last y [] = inl refl
Elem-last y (z ∷ ys) = inr (Elem-last z ys)

-- The `sz` bytes from `b` on are not all in the region, or overlap one of the areas.
abbrev IsTaken : Vmas → ℕ → List ℕ → ℕ → Type 0
IsTaken v sz xs b =
    (b < v.r_start) ⊎ ((v.r_end < b + sz) ⊎ ((q : ℕ) × Elem q xs × Overlaps v b sz q))

-- A place in the region beside all the areas, or that every place is taken.
abbrev pub Fits : Vmas → ℕ → List ℕ → Option ℕ → Type 0
Fits v sz xs none = (b : ℕ) → IsTaken v sz xs b
Fits v sz xs (some b) = (v.r_start ≤ b) × (b + sz ≤ v.r_end) × AllClear v b sz xs

-- What `done` does at the place, or the error pointer with the state as it was.
abbrev pub placed : ℕ → Vmas → ℕ → ℕ → Option ℕ → Option (ℕ × Vmas)
placed fuel v sz flags none = some (invalid_ptr, v)
placed fuel v sz flags (some b) = place_area fuel v b sz flags

not_less : (a b : ℕ) → ltb a b ≡ false → b ≤ a
not_less a b h = ground arith

taken :
    (v : Vmas) (sz : ℕ) (xs : List ℕ)
    → ((b : ℕ) → v.r_start ≤ b → b + sz ≤ v.r_end → (q : ℕ) × Elem q xs × Overlaps v b sz q)
    → (b : ℕ) → IsTaken v sz xs b
taken v sz xs over b = elim (Bool-cases (ltb b v.r_start)) [
  | inl low ↦ inl (ltb→lt b v.r_start low)
  | inr from ↦ elim (Bool-cases (ltb v.r_end (b + sz))) [
    | inl high ↦ inr (inl (ltb→lt v.r_end (b + sz) high))
    | inr to ↦ inr (inr (over b (not_less b v.r_start from) (not_less v.r_end (b + sz) to)))
  ]
]

some_node :
    (t : RbTree) (tr : Tree) (q : ℕ) (xs : List ℕ)
    → IsTree t.nodes t.root 0 tr
    → flatten tr ≡ xs
    → Elem q xs
    → (q == 0) ≡ false
some_node t tr q xs w e h =
    let n = Elem-nonzero t t.root 0 q tr w (subst (Elem q) (sym e) h) in ground (arith, n)

-- The first gap fits, and where there is none, nothing does.
gap-Fits :
    (v : Vmas) (sz x : ℕ) (ys : List ℕ)
    → InOrder v v.r_start v.r_end (x ∷ ys)
    → begin v x < v.r_start + sz
    → v.r_end < end v (last_or x ys) + sz
    → Fits v sz (x ∷ ys) (first_gap v sz x ys)
gap-Fits v sz x ys o before behind = elim (Option-cases (first_gap v sz x ys)) [
  | inl e ↦
      subst (Fits v sz (x ∷ ys)) (sym e)
        (taken v sz (x ∷ ys) (λ b. first_gap-full v sz v.r_start v.r_end b x ys o e before behind))
  | inr (b, e) ↦
      let (from, to, clear) = first_gap-room v sz v.r_start v.r_end b x ys o e in
      subst (Fits v sz (x ∷ ys)) (sym e) (omega (arith, from, o.0, o.1), to, clear)
]

-- The search beside and between the areas `x ∷ ys`.
beside-Fits :
    (fuel : ℕ) (v : Vmas) (sz flags x : ℕ) (ys : List ℕ) (tr : Tree)
    → v.r_end < 2 ^ 64
    → size tr < fuel
    → length ys < fuel
    → IsTree v.tree.nodes v.tree.root 0 tr
    → Separate tr
    → flatten tr ≡ x ∷ ys
    → InOrder v v.r_start v.r_end (x ∷ ys)
    → (o : Option ℕ) × Fits v sz (x ∷ ys) o
      × (alloc_beside fuel v sz flags ≡ placed fuel v sz flags o)
unfolding alloc_beside head_or last_or
beside-Fits fuel v sz flags x ys tr small enough few w s e (a, p, rest) =
    let lo = rb_first-flatten fuel v.tree tr enough w in
    let hi = rb_last-flatten fuel v.tree tr enough w in
    let low : rb_first fuel v.tree ≡ some x = lo ∙ ap (λ l. some (head_or 0 l)) e in
    let high : rb_last fuel v.tree ≡ some (last_or x ys) = hi ∙ ap (λ l. some (last_or 0 l)) e in
    let x_zero = some_node v.tree tr x (x ∷ ys) w e (inl refl) in
    let y_zero = some_node v.tree tr (last_or x ys) (x ∷ ys) w e (Elem-last x ys) in
    let stop = InOrder-bounds v ys (end v x) v.r_end rest in
    let behind = last-end v v.r_start v.r_end x ys (a, p, rest) in
    let before_gap : sub64 (begin v x) v.r_start ≡ begin v x - v.r_start = omega arith in
    let behind_gap : sub64 v.r_end (end v (last_or x ys)) ≡ v.r_end - end v (last_or x ys) =
      omega (arith, behind) in
    let gap =
      gap_loop-first_gap v fuel fuel sz v.r_start v.r_end tr [] x ys few enough w s e (a, p, rest)
        small in
    elim (Bool-cases (leb sz (begin v x - v.r_start))) [
      | inl first ↦
          let clear =
            clear_before v v.r_start sz (begin v x) v.r_end (x ∷ ys) (omega arith, p, rest)
              (ground arith) in
          (
            some v.r_start,
            (omega arith, ground (arith, stop), clear),
            rw (low, high, x_zero, y_zero, before_gap, first) refl,
          )
      | inr not_first ↦ elim (Bool-cases (leb sz (v.r_end - end v (last_or x ys)))) [
        | inl last ↦
            let clear =
              clear_behind v (end v (last_or x ys)) sz v.r_start v.r_end x ys (a, p, rest)
                (omega arith) in
            (
              some (end v (last_or x ys)),
              (last_span v v.r_start v.r_end x ys (a, p, rest), ground (arith, behind), clear),
              rw (low, high, x_zero, y_zero, before_gap, not_first, behind_gap, last) refl,
            )
        | inr not_last ↦ (
          first_gap v sz x ys,
          gap-Fits v sz x ys (a, p, rest) (ground arith) (ground (arith, behind)),
          rw (low, high, x_zero, y_zero, before_gap, not_first, behind_gap, not_last, gap) refl,
        )
      ]
    ]

append-cons : (xs ys : List ℕ) (x : ℕ) → (z : ℕ) × (zs : List ℕ) × (xs ++ x ∷ ys ≡ z ∷ zs)
append-cons [] ys x = (x, ys, refl)
append-cons (z ∷ xs) ys x = (z, xs ++ x ∷ ys, refl)

-- The two ways to go on where the region is large enough.
roomy-Fits :
    (fuel : ℕ) (v : Vmas) (sz flags : ℕ) (tr : Tree)
    → v.r_end < 2 ^ 64
    → size tr < fuel
    → length (flatten tr) < fuel
    → IsTree v.tree.nodes v.tree.root 0 tr
    → Separate tr
    → InOrder v v.r_start v.r_end (flatten tr)
    → v.r_start + sz ≤ v.r_end
    → (o : Option ℕ) × Fits v sz (flatten tr) o
      × ((if v.tree.root == 0
            then place_area fuel v v.r_start sz flags
            else alloc_beside fuel v sz flags)
          ≡ placed fuel v sz flags o)
unfolding IsTree flatten
roomy-Fits fuel v sz flags leaf small enough few w s o room =
    (some v.r_start, (omega arith, room, tt), simp w)
roomy-Fits fuel v sz flags (fork l x r) small enough few w s o room =
    let (y, ys, e) = append-cons (flatten l) (flatten r) x in
    let some_root : (v.tree.root == 0) ≡ false = ground (arith, w.0, w.1) in
    let fewer = subst (λ l. length l < fuel) e few in
    let shorter : length ys < fuel = omega (arith, fewer) in
    let (at, fits, runs) =
      beside-Fits fuel v sz flags y ys (fork l x r) small enough shorter w s e
        (subst (InOrder v v.r_start v.r_end) e o) in
    (at, subst (λ l. Fits v sz l at) (sym e) fits, rw some_root runs)

-- `vma_alloc_area` on nodes that stand for a tree of areas in order, none of them twice in it, in a
-- region that ends below 2 ^ 64: the search ends, with more rounds than there are areas. Where the
-- whole pages asked for fit in the region beside all the areas, it goes on with `done` at such a
-- place, which can still fail for want of an object of the cache; where every place in the region
-- overlaps an area, it gives the error pointer and leaves the state as it was.
pub vma_alloc_area-Fits :
    (fuel : ℕ) (v : Vmas) (area_size flags : ℕ) (tr : Tree)
    → v.r_end < 2 ^ 64
    → size tr < fuel
    → length (flatten tr) < fuel
    → IsTree v.tree.nodes v.tree.root 0 tr
    → Separate tr
    → IsOrdered v v.r_start v.r_end tr
    → (o : Option ℕ) × Fits v (page_alignup area_size) (flatten tr) o
      × (vma_alloc_area fuel v area_size flags ≡ placed fuel v (page_alignup area_size) flags o)
unfolding vma_alloc_area
vma_alloc_area-Fits fuel v area_size flags tr small enough few w s ordered =
    let sz = page_alignup area_size in
    let o = IsOrdered-InOrder v tr v.r_start v.r_end ordered in
    let bounds = InOrder-bounds v (flatten tr) v.r_start v.r_end o in
    let span : sub64 v.r_end v.r_start ≡ v.r_end - v.r_start = omega arith in
    elim (Bool-cases (ltb (v.r_end - v.r_start) (page_alignup area_size))) [
      | inl large ↦ (
        none,
        taken v sz (flatten tr) (λ b from to. absurd (ground arith)),
        rw (span, large) refl,
      )
      | inr fits ↦
          let (at, here, runs) =
            roomy-Fits fuel v sz flags tr small enough few w s o (ground (arith, bounds)) in
          (at, here, rw (span, fits) runs)
    ]
