-- ===== src/Buddy/Conserve.antt =====
-- How `kbud_alloc` of kernel/mm/buddy.c picks a block, and what becomes of its pages.
use sync_kernel.Prelude.{
  ℕ, zero, suc, ◌+◌, ◌-◌, ◌*◌, ◌^◌, ◌≤◌, ◌<◌, ◌≡◌, refl, sym, ap, ◌∙◌, ◌≢◌, ◌⊎◌, inl, inr, Bool,
  true, false, some, arith, ◌==◌, update, Bool-cases, Option-cases, bit_xor,
}
use sync_kernel.Buddy.{
  pframe_max_order, Slave, Zone, kbud_pfnum, buddy_bit_chk, buddy_bit_set, buddy_bit_clr, kbud_push,
  kbud_pop_head,
}
use native.Mathlib.Nat.{pow-suc, add-zero, add-suc}
use sync_kernel.Prelude.Words.{add64, sub64, invalid_ptr}
use sync_kernel.Paging.{pagesize, virt_to_phys_pm}
use sync_kernel.Buddy.Master.{Memory, zone_at}
use sync_kernel.Buddy.Lists.{kbud_pop_head_empty}
use sync_kernel.Buddy.Pages.{order_up, split, alloc_in, alloc_loop, kbud_alloc}

-- The search of `kbud_alloc` for an order stops at or above the request, behind empty lists only;
-- and if it has rounds for all orders, then at a list that is not empty, or at or above the
-- region's largest order or the end of the orders.
pub order_up_least :
    (k : ℕ) (s : Slave) (req : ℕ)
    → let o = order_up k s req in
      (req ≤ o)
      × ((j : ℕ) → req ≤ j → j < o → s.order_blk_cnt j ≡ 0)
      × ((pframe_max_order ≤ req + k)
          → (s.order_blk_cnt o ≢ 0) ⊎ ((s.max_order ≤ o) ⊎ (pframe_max_order ≤ o)))
unfolding order_up
order_up_least zero s req =
    (omega arith, λ j h k. absurd (omega arith), λ h. inr (inr (omega arith)))
order_up_least (suc k) s req =
    let ih = order_up_least k s (req + 1) in
    (
      ground (arith, ih.0),
      λ j h l. ground (arith, ih.1 j, ih.0),
      λ h. ground (arith, ih.2 (omega arith)),
    )

alloc_in_valid : (z : Zone) (req : ℕ) (r : ℕ × Zone) → alloc_in z req ≡ some r → r.0 ≢ invalid_ptr
unfolding alloc_in
alloc_in_valid z req r h = ground arith

alloc_loop_fails :
    (k i req : ℕ) (m : Memory)
    → (alloc_loop k i req m).0 ≡ invalid_ptr
    → (alloc_loop k i req m).1 ≡ m
unfolding alloc_loop
alloc_loop_fails zero i req m h = refl
alloc_loop_fails (suc k) i req m h = elim (Option-cases (alloc_in (zone_at m (m.regions i)) req)) [
  | inl miss ↦ ground (arith, miss, alloc_loop_fails k (i + 1) req m)
  | inr (r, hit) ↦ ground (
    arith,
    hit,
    alloc_in_valid (zone_at m (m.regions i)) req r hit,
    alloc_loop_fails k (i + 1) req m,
  )
]

-- A `kbud_alloc` that fails leaves the allocator as it was.
kbud_alloc_fails :
    (m : Memory) (req : ℕ) → (kbud_alloc m req).0 ≡ invalid_ptr → (kbud_alloc m req).1 ≡ m
unfolding kbud_alloc
kbud_alloc_fails m req h = ground (arith, alloc_loop_fails m.region_count 0 req m)

-- The pages of the first `n` orders' lists, by their counters.
abbrev pub pages : ℕ → (ℕ → ℕ) → ℕ
pages zero c = 0
pages (suc n) c = c n * 2 ^ n + pages n c

abbrev pub free_pages : Zone → ℕ
free_pages z = pages pframe_max_order z.slave.order_blk_cnt

pages-beyond : (n k v : ℕ) (c : ℕ → ℕ) → n ≤ k → pages n (update c k v) ≡ pages n c
pages-beyond zero k v c h = refl
pages-beyond (suc n) k v c h = ground (arith, pages-beyond n k v c)

pages-update :
    (n k v : ℕ) (c : ℕ → ℕ) → k < n → pages n (update c k v) + c k * 2 ^ k ≡ pages n c + v * 2 ^ k
pages-update zero k v c h = absurd (omega arith)
pages-update (suc n) k v c h = elim (Bool-cases (k == n)) [
  | inl same ↦ ground (arith, pages-beyond n k v c)
  | inr other ↦ ground (arith, pages-update n k v c)
]

-- A push that succeeds adds its block's pages, and keeps what the bit checks read.
push_pages :
    (z : Zone) (phy order : ℕ)
    → order < pframe_max_order
    → z.slave.order_blk_cnt order + 1 < 2 ^ 64
    → buddy_bit_chk z.slave (kbud_pfnum phy z.slave) order ≡ true
    → free_pages (kbud_push z phy order).1 ≡ free_pages z + 2 ^ order
unfolding kbud_push buddy_bit_set
push_pages z phy order h room ok =
    let c = z.slave.order_blk_cnt in
    let wrap : add64 (c order) 1 ≡ c order + 1 = omega arith in
    rw (ok, wrap) (omega (arith, pages-update pframe_max_order order (c order + 1) c h))

pub push_keeps :
    (z : Zone) (phy order : ℕ)
    → let s = (kbud_push z phy order).1.slave in
      (s.max_order ≡ z.slave.max_order)
      × (s.maxbits ≡ z.slave.maxbits)
      × (s.mbase ≡ z.slave.mbase)
      × ((j : ℕ) → order ≢ j → s.order_blk_cnt j ≡ z.slave.order_blk_cnt j)
unfolding kbud_push buddy_bit_set
push_keeps z phy order = elim (Bool-cases (buddy_bit_chk z.slave (kbud_pfnum phy z.slave) order)) [
  | inl ok ↦ rw ok (refl, refl, refl, λ j ne. ground arith)
  | inr bad ↦ rw bad (refl, refl, refl, λ j ne. refl)
]

-- The bit check reads three fields of the header.
pub chk_keeps :
    (s s' : Slave) (phy j : ℕ)
    → s'.max_order ≡ s.max_order
    → s'.maxbits ≡ s.maxbits
    → s'.mbase ≡ s.mbase
    → buddy_bit_chk s (kbud_pfnum phy s) j ≡ true
    → buddy_bit_chk s' (kbud_pfnum phy s') j ≡ true
unfolding buddy_bit_chk kbud_pfnum
chk_keeps s s' phy j a b c ok =
    let b' : s'.maxbits j ≡ s.maxbits j = ap (λ (f : ℕ → ℕ). f j) b in simp (a, b', c) ok

-- The block that goes back at an order while the block at `addr` is split.
abbrev pub upper_half : ℕ → ℕ → ℕ
upper_half addr order = bit_xor (virt_to_phys_pm addr) (pagesize * 2 ^ order)

sums : (a b c p q r : ℕ) → a + p ≡ b + q → b ≡ c + q → r ≡ q * 2 → a + p ≡ c + r
sums a b c p q r x y z = omega arith

split_pages :
    (k addr req : ℕ) (z : Zone)
    → req + k ≤ pframe_max_order
    → ((j : ℕ) → req ≤ j → j < req + k → z.slave.order_blk_cnt j + 1 < 2 ^ 64)
    → ((j : ℕ)
        → req ≤ j
        → j < req + k
        → buddy_bit_chk z.slave (kbud_pfnum (upper_half addr j) z.slave) j ≡ true)
    → free_pages (split k addr req z) + 2 ^ req ≡ free_pages z + 2 ^ (req + k)
unfolding split
split_pages zero addr req z h room ok = ap (λ (n : ℕ). free_pages z + 2 ^ n) (sym (add-zero req))
split_pages (suc k) addr req z h room ok =
    let order = req + k in
    let phy = upper_half addr order in
    let z' = (kbud_push z phy order).1 in
    let keep = push_keeps z phy order in
    let ih =
      split_pages k addr req z' (omega arith)
        (λ j a b. rw (keep.3 j (omega arith)) (room j a (omega arith)))
        (λ j a b.
          chk_keeps z.slave z'.slave (upper_half addr j) j keep.0 keep.1 keep.2
            (ok j a (omega arith))) in
    let pushed =
      push_pages z phy order (omega arith) (room order (omega arith) (omega arith))
        (ok order (omega arith) (omega arith)) in
    let double : 2 ^ (req + suc k) ≡ 2 ^ (req + k) * 2 = rw add-suc (pow-suc 2 (req + k)) in
    sums (free_pages (split k addr req z')) (free_pages z') (free_pages z) (2 ^ req) (2 ^ (req + k))
      (2 ^ (req + suc k)) ih pushed double

abbrev pub head_chk : Zone → ℕ → Bool
head_chk z order =
    buddy_bit_chk z.slave (kbud_pfnum (virt_to_phys_pm (z.slave.free order)) z.slave) order

pop_head_pages :
    (z : Zone) (order : ℕ)
    → order < pframe_max_order
    → (kbud_pop_head z order).0 ≢ invalid_ptr
    → z.slave.order_blk_cnt order ≢ 0
    → z.slave.order_blk_cnt order < 2 ^ 64
    → free_pages (kbud_pop_head z order).1 + 2 ^ order ≡ free_pages z
unfolding kbud_pop_head buddy_bit_clr
pop_head_pages z order h good some_block word =
    let c = z.slave.order_blk_cnt in
    let wrap : sub64 (c order) 1 ≡ c order - 1 = omega arith in
    let one : c order - 1 + 1 ≡ c order = omega arith in
    let taken : pages pframe_max_order (update c order (c order - 1)) + 2 ^ order ≡ free_pages z =
      omega (
        arith,
        pages-update pframe_max_order order (c order - 1) c h,
        ap (λ (t : ℕ). t * 2 ^ order) one,
      ) in
    elim (Bool-cases (head_chk z order)) [
      | inl ok ↦ rw (ok, wrap) taken
      | inr bad ↦ absurd (good (rw bad))
    ]

pub pop_head_keeps :
    (z : Zone) (order : ℕ)
    → let s = (kbud_pop_head z order).1.slave in
      (s.max_order ≡ z.slave.max_order)
      × (s.maxbits ≡ z.slave.maxbits)
      × (s.mbase ≡ z.slave.mbase)
      × ((j : ℕ) → order ≢ j → s.order_blk_cnt j ≡ z.slave.order_blk_cnt j)
unfolding kbud_pop_head buddy_bit_clr
pop_head_keeps z order = elim (Bool-cases (head_chk z order)) [
  | inl ok ↦ rw ok (refl, refl, refl, λ j ne. ground arith)
  | inr bad ↦ rw bad (refl, refl, refl, λ j ne. refl)
]

-- What the counters and lists of a region must show for an allocation: a list that counts no block
-- is null, null has no bit, and no counter is at the end of its range.
pub record IsCounted (z : Zone) : Type 0 where
  pub empty_null : (j : ℕ) → z.slave.order_blk_cnt j ≡ 0 → z.slave.free j ≡ 0
  pub null_bit : (j : ℕ) → buddy_bit_chk z.slave (kbud_pfnum (virt_to_phys_pm 0) z.slave) j ≡ false
  pub room : (j : ℕ) → z.slave.order_blk_cnt j + 1 < 2 ^ 64

pop_head_some :
    (z : Zone) (order : ℕ)
    → IsCounted z
    → (kbud_pop_head z order).0 ≢ invalid_ptr
    → z.slave.order_blk_cnt order ≢ 0
pop_head_some z order w good e = good (
    ap (λ (r : ℕ × Zone). r.0)
      (kbud_pop_head_empty z order (w.empty_null order e) (w.null_bit order)))

order_up_le :
    (k : ℕ) (s : Slave) (req : ℕ) → req ≤ pframe_max_order → order_up k s req ≤ pframe_max_order
unfolding order_up
order_up_le zero s req h = h
order_up_le (suc k) s req h = ground (arith, order_up_le k s (req + 1))

-- What a successful round of the loop over the regions has done.
pub record Allocated (z : Zone) (req addr : ℕ) (z' : Zone) (order : ℕ) : Type 0 where
  pub below : order ≢ pframe_max_order
  pub good : (kbud_pop_head z order).0 ≢ invalid_ptr
  pub result : z' ≡ split (order - req) (kbud_pop_head z order).0 req (kbud_pop_head z order).1
  pub block : addr ≡ (kbud_pop_head z order).0

pub Allocated-of_eq :
    (z : Zone) (req addr : ℕ) (z' : Zone)
    → alloc_in z req ≡ some (addr, z')
    → Allocated z req addr z' (order_up pframe_max_order z.slave req)
unfolding alloc_in
Allocated-of_eq z req addr z' e = record {
  below = ground arith;
  good = ground arith;
  result = ground arith;
  block = ground arith;
}

-- An allocation from a region that gives a block, for an order below 11, takes exactly the pages
-- of that order off the free lists, by their counters: what is split off goes back, provided that
-- each half that goes back has a bit, that the lists of no blocks are null and null has no bit,
-- and that no counter is at the end of its range.
pub alloc_in_pages :
    (z : Zone) (req addr : ℕ) (z' : Zone)
    → req < pframe_max_order
    → IsCounted z
    → alloc_in z req ≡ some (addr, z')
    → ((j : ℕ)
        → req ≤ j
        → j < order_up pframe_max_order z.slave req
        → buddy_bit_chk z.slave (kbud_pfnum (upper_half addr j) z.slave) j ≡ true)
    → free_pages z' + 2 ^ req ≡ free_pages z
alloc_in_pages z req addr z' h w e halves =
    let order = order_up pframe_max_order z.slave req in
    let a = Allocated-of_eq z req addr z' e in
    let from = (order_up_least pframe_max_order z.slave req).0 in
    let upto = order_up_le pframe_max_order z.slave req (omega arith) in
    let in_table : order < pframe_max_order = omega (arith, a.below) in
    let rest = (kbud_pop_head z order).1 in
    let keep = pop_head_keeps z order in
    let top : req + (order - req) ≡ order = omega arith in
    let popped =
      pop_head_pages z order in_table a.good (pop_head_some z order w a.good)
        (omega (arith, w.room order)) in
    let halved =
      split_pages (order - req) (kbud_pop_head z order).0 req rest (omega arith)
        (λ j p q. rw (keep.3 j (omega arith)) (w.room j))
        (λ j p q.
          chk_keeps z.slave rest.slave (upper_half (kbud_pop_head z order).0 j) j keep.0 keep.1
            keep.2 (rw (← a.block) (halves j p (omega arith)))) in
    rw a.result (rw top at halved ∙ popped)
