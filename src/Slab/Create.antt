-- ===== src/Slab/Create.antt =====
-- The slab order that `kslab_cache_create` of kernel/mm/slab.c settles on.
use sync_kernel.Prelude.{
  ℕ, zero, suc, ◌+◌, ◌-◌, ◌*◌, ◌/◌, ◌^◌, ◌≤◌, ◌<◌, ◌≡◌, refl, ◌⊎◌, inl, inr, arith, ◌==◌,
  Bool-cases,
}
use sync_kernel.Prelude.Words.{invalid_ptr}
use sync_kernel.Paging.{pagesize}
use sync_kernel.Slab.{Choice, slab_reserved, consider, create_loop, choose_order}

module _ (objsize alignment : ℕ) where
  abbrev pub size_at : ℕ → ℕ
  size_at i = 2 ^ i * pagesize

  abbrev pub objs_at : ℕ → ℕ
  objs_at i = (size_at i - slab_reserved alignment) / objsize

  abbrev pub waste_at : ℕ → ℕ
  waste_at i = size_at i - (slab_reserved alignment + objs_at i * objsize)

  -- An order whose slab has room behind its header for eight objects at least.
  abbrev pub Roomy : ℕ → Type 0
  Roomy i = (slab_reserved alignment < size_at i) × (8 ≤ objs_at i)

  -- The best order below `n`: none is roomy, or it is a roomy one of the least waste.
  pub record IsBest (n : ℕ) (best : Choice) : Type 0 where
    pub least : (i : ℕ) → i < n → Roomy i → best.waste ≤ waste_at i
    pub found :
        (best.waste ≡ invalid_ptr)
        ⊎ ((best.order < n)
            × Roomy best.order
            × (best.waste ≡ waste_at best.order)
            × (best.count ≡ objs_at best.order)
            × (best.reserved ≡ slab_reserved alignment))

  -- A round of the loop either takes its order, a roomy one that wastes less, or keeps its best.
  consider_cases :
      (i : ℕ) (best : Choice)
      → ((consider i objsize alignment best ≡ record {
        order = i;
        count = objs_at i;
        waste = waste_at i;
        reserved = slab_reserved alignment;
      })
          × Roomy i
          × (waste_at i < best.waste))
        ⊎ ((consider i objsize alignment best ≡ best) × (Roomy i → best.waste ≤ waste_at i))
  unfolding consider
  consider_cases i best = ground arith

  consider-IsBest :
      (i : ℕ) (best : Choice) → IsBest i best → IsBest (i + 1) (consider i objsize alignment best)
  consider-IsBest i best b = elim (consider_cases i best) [
    | inl (e, roomy, less) ↦ rw e (record {
      least = λ j h r. elim (Bool-cases (j == i)) [
        | inl same ↦ ground arith
        | inr other ↦ ground (arith, b.least j)
      ];
      found = inr (omega arith, roomy, refl, refl, refl);
    })
    | inr (e, keep) ↦ rw e (record {
      least = λ j h r. elim (Bool-cases (j == i)) [
        | inl same ↦ ground arith
        | inr other ↦ b.least j (ground arith) r
      ];
      found = elim b.found [
        | inl nothing ↦ inl nothing
        | inr (at, roomy, w, c, r) ↦ inr (omega arith, roomy, w, c, r)
      ];
    })
  ]

  create_loop-IsBest :
      (k i n : ℕ) (best : Choice)
      → i + k ≡ n
      → IsBest i best
      → IsBest n (create_loop k i objsize alignment best)
  unfolding create_loop
  create_loop-IsBest zero i n best e b = let e' : i ≡ n = omega arith in rw (← e') b
  create_loop-IsBest (suc k) i n best e b =
      create_loop-IsBest k (i + 1) n (consider i objsize alignment best) (omega arith)
        (consider-IsBest i best b)

  -- The loop of `kslab_cache_create` tries the orders 0 to 3. It ends with the waste at the error
  -- value, or with one of them that has room for eight objects behind the slab's header, with that
  -- order's waste, number of objects and header size; and its waste is at most that of any of them
  -- that has the room.
  pub choose_order-IsBest : IsBest 4 (choose_order objsize alignment)
  unfolding choose_order
  choose_order-IsBest =
      create_loop-IsBest 4 0 4 (record { order = 0; count = 0; waste = invalid_ptr; reserved = 0 })
        refl (record { least = λ i h. absurd (omega arith); found = inl refl })
