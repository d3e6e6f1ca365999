-- ===== src/Vma/Alloc.antt =====
-- Where `vma_alloc_area` of kernel/mm/vma.c puts a new area.
use sync_kernel.Prelude.{
  ℕ, ◌+◌, ◌-◌, ◌≤◌, ◌<◌, ◌≡◌, refl, ◌⊎◌, inl, inr, none, some, List, [], ◌∷◌, arith, leb, ltb,
  Bool-cases,
}
use sync_kernel.Rbtree.Shape.{last_or}
use sync_kernel.Vma.{Vmas, area_at}
use sync_kernel.Vma.Gaps.{InOrder, InOrder-bounds, begin, end, first_gap}

abbrev pub Elem : ℕ → List ℕ → Type 0
Elem q [] = ⊥
Elem q (x ∷ xs) = (q ≡ x) ⊎ Elem q xs

module _ (v : Vmas) where
  -- The `sz` bytes from `b` on lie beside the area `q`, or overlap it.
  abbrev pub IsClear : ℕ → ℕ → ℕ → Type 0
  IsClear b sz q = (b + sz ≤ (area_at v q).vm_start) ⊎ ((area_at v q).vm_end ≤ b)

  abbrev pub Overlaps : ℕ → ℕ → ℕ → Type 0
  Overlaps b sz q = (b < (area_at v q).vm_end) × ((area_at v q).vm_start < b + sz)

  abbrev pub AllClear : ℕ → ℕ → List ℕ → Type 0
  AllClear b sz [] = Unit {0}
  AllClear b sz (q ∷ qs) = IsClear b sz q × AllClear b sz qs

  pub AllClear-at : (b sz q : ℕ) (xs : List ℕ) → AllClear b sz xs → Elem q xs → IsClear b sz q
  AllClear-at b sz q [] c h = absurd h
  AllClear-at b sz q (x ∷ xs) c (inl e) = rw e (c.0)
  AllClear-at b sz q (x ∷ xs) c (inr h) = AllClear-at b sz q xs c.1 h

  -- Before all the areas, and behind them.
  pub clear_before :
      (b sz lo hi : ℕ) (xs : List ℕ) → InOrder v lo hi xs → b + sz ≤ lo → AllClear b sz xs
  clear_before b sz lo hi [] o h = tt
  clear_before b sz lo hi (x ∷ xs) (a, p, rest) h =
      (inl (omega arith), clear_before b sz (end v x) hi xs rest (omega arith))

  pub last_span : (lo hi x : ℕ) (xs : List ℕ) → InOrder v lo hi (x ∷ xs) → lo ≤ end v (last_or x xs)
  unfolding last_or
  last_span lo hi x [] (a, p, rest) = omega arith
  last_span lo hi x (y ∷ ys) (a, p, rest) = omega (arith, last_span (end v x) hi y ys rest)

  pub clear_behind :
      (b sz lo hi x : ℕ) (xs : List ℕ)
      → InOrder v lo hi (x ∷ xs)
      → end v (last_or x xs) ≤ b
      → AllClear b sz (x ∷ xs)
  unfolding last_or
  clear_behind b sz lo hi x [] (a, p, rest) h = (inr h, tt)
  clear_behind b sz lo hi x (y ∷ ys) (a, p, rest) h =
      let more = clear_behind b sz (end v x) hi y ys rest h in
      let after = last_span (end v x) hi y ys rest in (inr (omega (arith, after)), more)

  -- The first gap holds the bytes, within the areas' bounds.
  pub first_gap-room :
      (sz lo hi b x : ℕ) (ys : List ℕ)
      → InOrder v lo hi (x ∷ ys)
      → first_gap v sz x ys ≡ some b
      → (end v x ≤ b) × (b + sz ≤ hi) × AllClear b sz (x ∷ ys)
  first_gap-room sz lo hi b x [] o e = cc
  first_gap-room sz lo hi b x (y ∷ ys) (a, p, (q, r, rest)) e =
      let bounds = InOrder-bounds v ys (end v y) hi rest in
      elim (Bool-cases (leb sz (begin v y - end v x))) [
        | inl fits ↦
            let at : end v x ≡ b = ground arith in
            let room : b + sz ≤ begin v y = ground arith in
            (
              omega (arith, at),
              omega (arith, room, r, bounds),
              (
                inr (omega (arith, at)),
                (inl room, clear_before b sz (end v y) hi ys rest (omega (arith, room))),
              ),
            )
        | inr tight ↦
            let later : first_gap v sz y ys ≡ some b = ground arith in
            let (from, to, clear) = first_gap-room sz (end v x) hi b y ys (q, r, rest) later in
            (omega arith, to, (inr (omega arith), clear))
      ]

  -- Where there is none, and none before the first area and behind the last, every place overlaps
  -- an area.
  pub first_gap-full :
      (sz lo hi b x : ℕ) (ys : List ℕ)
      → InOrder v lo hi (x ∷ ys)
      → first_gap v sz x ys ≡ none
      → begin v x < lo + sz
      → hi < end v (last_or x ys) + sz
      → lo ≤ b
      → b + sz ≤ hi
      → (q : ℕ) × Elem q (x ∷ ys) × Overlaps b sz q
  unfolding last_or
  first_gap-full sz lo hi b x [] (a, p, rest) e before behind from to =
      (x, inl refl, (omega arith, omega arith))
  first_gap-full sz lo hi b x (y ∷ ys) (a, p, (q, r, rest)) e before behind from to =
      elim (Bool-cases (ltb b (end v x))) [
        | inl here ↦ (x, inl refl, (ground arith, omega arith))
        | inr there ↦
            let tight : begin v y < end v x + sz = ground arith in
            let later : first_gap v sz y ys ≡ none = ground arith in
            let (z, h, over) =
              first_gap-full sz (end v x) hi b y ys (q, r, rest) later tight behind (ground arith)
                to in
            (z, inr h, over)
      ]
