-- ===== src/Buddy/Search.antt =====
-- The table of regions in kernel/mm/buddy.c: its binary search and its order.
use sync_kernel.Prelude.{
  ℕ, zero, suc, ◌+◌, ◌-◌, ◌/◌, ◌≤◌, ◌<◌, ◌≡◌, inl, inr, Option, none, some, arith, ◌==◌, ltb, leb,
  update, Bool-cases, leb→le,
}
use sync_kernel.Prelude.Words.{invalid_ptr}
use native.Mathlib.Numerals.{add-one}
use native.Mathlib.Nat.{le_trans}
use sync_kernel.Paging.{virt_to_phys_pm}
use sync_kernel.Buddy.Master.{Memory, owner_loop, find_buddy_slave, insert_region}

-- The physical addresses of the first `count` regions grow.
abbrev pub Ascending : (ℕ → ℕ) → ℕ → Type 0
Ascending regions count =
    (i j : ℕ) → i < j → j < count → virt_to_phys_pm (regions i) < virt_to_phys_pm (regions j)

-- The last region that starts at or below `phy`, if there is one.
abbrev pub IsOwner : (ℕ → ℕ) → ℕ → ℕ → Option ℕ → Type 0
IsOwner regions count phy none = (i : ℕ) → i < count → phy < virt_to_phys_pm (regions i)
IsOwner regions count phy (some j) =
    (j < count)
    × (virt_to_phys_pm (regions j) ≤ phy)
    × ((i : ℕ) → j < i → i < count → phy < virt_to_phys_pm (regions i))

-- The owner found when every region before `lo` starts at or below the address.
abbrev below : ℕ → Option ℕ
below zero = none
below (suc i) = some i

module _ (regions : ℕ → ℕ) (count phy : ℕ) (up : Ascending regions count) where
  rise : (i j : ℕ) → i ≤ j → j < count → virt_to_phys_pm (regions i) ≤ virt_to_phys_pm (regions j)
  rise i j l h = elim (Bool-cases (i == j)) [
    | inl same ↦ ground arith
    | inr other ↦ ground (arith, up i j)
  ]

  IsOwner-of_bounds :
      (lo : ℕ)
      → lo ≤ count
      → ((i : ℕ) → i < lo → virt_to_phys_pm (regions i) ≤ phy)
      → ((i : ℕ) → lo ≤ i → i < count → phy < virt_to_phys_pm (regions i))
      → IsOwner regions count phy (below lo)
  IsOwner-of_bounds zero l before after = λ i h. after i (omega arith) h
  IsOwner-of_bounds (suc lo) l before after =
      (omega arith, before lo (omega arith), λ i h k. after i (omega arith) k)

  owner_loop-IsOwner :
      (k lo hi : ℕ)
      → lo ≤ hi
      → hi ≤ count
      → hi ≤ lo + k
      → ((i : ℕ) → i < lo → virt_to_phys_pm (regions i) ≤ phy)
      → ((i : ℕ) → hi ≤ i → i < count → phy < virt_to_phys_pm (regions i))
      → IsOwner regions count phy (owner_loop k regions phy lo hi (below lo))
  unfolding owner_loop
  owner_loop-IsOwner zero lo hi a b c before after =
      IsOwner-of_bounds lo (omega arith) before (λ i l h. after i (omega arith) h)
  owner_loop-IsOwner (suc k) lo hi a b c before after =
      let mid = (lo + hi - 1) / 2 in
      elim (Bool-cases (ltb lo hi)) [
        | inr stop ↦
            rw stop (IsOwner-of_bounds lo (omega arith) before λ i l h. after i (ground arith) h)
        | inl go ↦ rw go (elim (Bool-cases (leb (virt_to_phys_pm (regions mid)) phy)) [
          | inl low ↦
              rw (low, add-one mid)
                (owner_loop-IsOwner k (suc mid) hi (ground arith) b (ground arith)
                  (λ i h. le_trans (rise i mid (omega arith) (ground arith)) (leb→le _ _ low))
                  after)
          | inr high ↦ rw high (
              owner_loop-IsOwner k lo mid (ground arith) (ground arith) (ground arith) before
                λ i h l. ground (arith, rise mid i h l))
        ])
      ]

-- `find_buddy_slave` returns the header of the last region that starts at or below the address, or
-- the error pointer if there is none, the table being in ascending order with 1 to 128 regions.
pub find_buddy_slave-IsOwner :
    (m : Memory) (phy : ℕ)
    → Ascending m.regions m.region_count
    → 0 < m.region_count
    → m.region_count ≤ 128
    → (owner : Option ℕ) × IsOwner m.regions m.region_count phy owner
      × (find_buddy_slave m phy ≡ elim owner [ some i ↦ m.regions i | none ↦ invalid_ptr ])
unfolding find_buddy_slave
find_buddy_slave-IsOwner m phy up some_region in_table = (
  owner_loop m.region_count m.regions phy 0 m.region_count none,
  owner_loop-IsOwner m.regions m.region_count phy up m.region_count 0 m.region_count (omega arith)
      (omega arith) (omega arith) (λ i h. absurd (omega arith)) (λ i h k. absurd (omega arith)),
  ground arith,
)

-- The table after an insertion among its first `i` entries: the new entry stands at `p`, behind all
-- that are not above it and before all that are.
pub record Inserted (r r' : ℕ → ℕ) (i v p : ℕ) : Type 0 where
  pub place : p ≤ i
  pub before : (j : ℕ) → j < p → r' j ≡ r j
  pub here : r' p ≡ v
  pub after : (j : ℕ) → p ≤ j → j < i → r' (suc j) ≡ r j
  pub beyond : (j : ℕ) → i < j → r' j ≡ r j
  pub above : (j : ℕ) → p ≤ j → j < i → v < r j
  pub not_above : (j : ℕ) → suc j ≡ p → r j ≤ v

-- The insertion loop of `kbud_add_region` puts the new header at one place among the first `i`
-- entries, behind one that is not above it if there is one before, moves the entries from there on,
-- all above it, up by one, and changes no entry behind those.
insert_region-Inserted : (i v : ℕ) (r : ℕ → ℕ) → (p : ℕ) × Inserted r (insert_region i v r) i v p
unfolding insert_region
insert_region-Inserted zero v r = (
  0,
  record {
    place = omega arith;
    before = λ j h. absurd (omega arith);
    here = ground arith;
    after = λ j h k. absurd (omega arith);
    beyond = λ j h. ground arith;
    above = λ j h k. absurd (omega arith);
    not_above = λ j e. absurd (omega arith);
  },
)
insert_region-Inserted (suc i) v r = elim (Bool-cases (ltb v (r i))) [
  | inl shift ↦
      let (p, ih) = insert_region-Inserted i v (update r (suc i) (r i)) in
      rw shift (
        p,
        record {
          place = omega (arith, ih.place);
          before = λ j h. ground (arith, ih.before j h, ih.place);
          here = ih.here;
          after = λ j h k. ground (arith, ih.after j h, ih.beyond (suc j));
          beyond = λ j h. ground (arith, ih.beyond j);
          above = λ j h k. ground (arith, ih.above j h);
          not_above = λ j e. ground (arith, ih.not_above j e, ih.place);
        },
      )
  | inr stop ↦ rw stop (
    suc i,
    record {
      place = omega arith;
      before = λ j h. ground arith;
      here = ground arith;
      after = λ j h k. absurd (omega arith);
      beyond = λ j h. ground arith;
      above = λ j h k. absurd (omega arith);
      not_above = λ j e. ground arith;
    },
  )
]
