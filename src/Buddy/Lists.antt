-- ===== src/Buddy/Lists.antt =====
-- The free lists of kernel/mm/buddy.c as lists of page headers.
use sync_kernel.Prelude.{
  ℕ, ◌+◌, ◌^◌, ◌<◌, ◌≡◌, refl, ◌≢◌, Bool, true, false, List, [], ◌∷◌, length, arith, ◌==◌,
  if◌then◌else◌, update,
}
use sync_kernel.Buddy.{
  Frame, Zone, kbud_pfnum, buddy_bit_chk, buddy_bit_get, buddy_bit_set, buddy_bit_clr, linked,
  kbud_push, count_down, kbud_pop_head,
}
use mathlib.Core.Path.{subst}
use sync_kernel.Prelude.Words.{invalid_ptr}
use sync_kernel.Paging.{virt_to_phys_pm, phys_to_virt_pm}
use sync_kernel.Buddy.Bitmap.{buddy_bit_get-set, buddy_bit_get-clr}

abbrev pub has : ℕ → List ℕ → Bool
has a [] = false
has a (x ∷ xs) = if a == x then true else has a xs

-- From the pointer `p` the `next` fields lead through the distinct frames `xs` to null.
abbrev pub Chain : (ℕ → Frame) → ℕ → List ℕ → Type 0
Chain frames p [] = p ≡ 0
Chain frames p (x ∷ xs) = (p ≡ x) × (x ≢ 0) × (has x xs ≡ false) × Chain frames (frames x).next xs

-- The free list of an order holds the blocks `xs`, and its counter is their number.
pub record IsFreeList (z : Zone) (order : ℕ) (xs : List ℕ) : Type 0 where
  pub chain : Chain z.frames (z.slave.free order) xs
  pub count : z.slave.order_blk_cnt order ≡ length xs
  pub fits : length xs < 2 ^ 64

-- A list survives a write to a frame outside it.
pub Chain-update :
    (frames : ℕ → Frame) (a : ℕ) (f : Frame) (p : ℕ) (xs : List ℕ)
    → has a xs ≡ false
    → Chain frames p xs
    → Chain (update frames a f) p xs
Chain-update frames a f p [] out c = c
Chain-update frames a f p (x ∷ xs) out c =
    let skip : update frames a f x ≡ frames x = ground arith in
    (c.0, c.1, c.2, rw skip (Chain-update frames a f (frames x).next xs (ground arith) c.3))

-- The list of an order after a block has gone in front of it.
linked-IsFreeList :
    (z : Zone) (phy order : ℕ) (xs : List ℕ)
    → IsFreeList z order xs
    → phys_to_virt_pm phy ≢ 0
    → has (phys_to_virt_pm phy) xs ≡ false
    → length xs + 1 < 2 ^ 64
    → IsFreeList (linked z phy order) order (phys_to_virt_pm phy ∷ xs)
linked-IsFreeList z phy order xs is some_frame new room =
    let p = phys_to_virt_pm phy in
    let f : Frame = record { next = z.slave.free order; order = order } in
    let self : update z.frames p f p ≡ f = ground arith in
    record {
      chain = (
        ground arith,
        some_frame,
        new,
        rw self (Chain-update z.frames p f (z.slave.free order) xs new is.chain),
      );
      count = ground (arith, is.count);
      fits = omega arith;
    }

linked_others :
    (z : Zone) (phy order other : ℕ) (ys : List ℕ)
    → IsFreeList z other ys
    → order ≢ other
    → has (phys_to_virt_pm phy) ys ≡ false
    → IsFreeList (linked z phy order) other ys
linked_others z phy order other ys is ne new =
    let p = phys_to_virt_pm phy in
    let f : Frame = record { next = z.slave.free order; order = order } in
    let same : update z.slave.free order p other ≡ z.slave.free other = ground arith in
    record {
      chain = rw same (Chain-update z.frames p f (z.slave.free other) ys new is.chain);
      count = ground (arith, is.count);
      fits = is.fits;
    }

-- Setting or clearing a bit touches no list.
set-IsFreeList :
    (z : Zone) (pfn ord order : ℕ) (xs : List ℕ)
    → IsFreeList z order xs
    → IsFreeList (buddy_bit_set z pfn ord) order xs
unfolding buddy_bit_set
set-IsFreeList z pfn ord order xs is = record { chain = is.chain; count = is.count; fits = is.fits }

pub clr-IsFreeList :
    (z : Zone) (pfn ord order : ℕ) (xs : List ℕ)
    → IsFreeList z order xs
    → IsFreeList (buddy_bit_clr z pfn ord) order xs
unfolding buddy_bit_clr
clr-IsFreeList z pfn ord order xs is = record { chain = is.chain; count = is.count; fits = is.fits }

push-eq :
    (z : Zone) (phy order : ℕ)
    → buddy_bit_chk z.slave (kbud_pfnum phy z.slave) order ≡ true
    → kbud_push z phy order
      ≡ (true, buddy_bit_set (linked z phy order) (kbud_pfnum phy z.slave) order)
unfolding kbud_push
push-eq z phy order ok = rw ok

-- `kbud_push` refuses a block whose bit does not exist and then changes nothing.
pub kbud_push_refused :
    (z : Zone) (phy order : ℕ)
    → buddy_bit_chk z.slave (kbud_pfnum phy z.slave) order ≡ false
    → kbud_push z phy order ≡ (false, z)
unfolding kbud_push
kbud_push_refused z phy order bad = rw bad

-- `kbud_push` of a block whose bit exists, whose header is not null and is not in its order's
-- list, with room in the counter and in a memory of bytes, puts it at the head of that list,
-- counts it, sets its pair's bit, and leaves alone the list of every other order that does not
-- hold it.
pub kbud_push_lem :
    (z : Zone) (phy order : ℕ) (xs : List ℕ)
    → buddy_bit_chk z.slave (kbud_pfnum phy z.slave) order ≡ true
    → ((a : ℕ) → z.bytes a < 256)
    → IsFreeList z order xs
    → phys_to_virt_pm phy ≢ 0
    → has (phys_to_virt_pm phy) xs ≡ false
    → length xs + 1 < 2 ^ 64
    → let (done, z') = kbud_push z phy order in
      (done ≡ true)
      × IsFreeList z' order (phys_to_virt_pm phy ∷ xs)
      × (buddy_bit_get z' (kbud_pfnum phy z.slave) order ≡ true)
      × ((other : ℕ) (ys : List ℕ)
          → order ≢ other
          → IsFreeList z other ys
          → has (phys_to_virt_pm phy) ys ≡ false
          → IsFreeList z' other ys)
kbud_push_lem z phy order xs ok bytes is some_frame new room =
    let pfn = kbud_pfnum phy z.slave in
    let l = linked z phy order in
    rw (push-eq z phy order ok) (
      refl,
      set-IsFreeList l pfn order order (phys_to_virt_pm phy ∷ xs)
          (linked-IsFreeList z phy order xs is some_frame new room),
      ground (arith, buddy_bit_get-set l pfn order pfn order bytes),
      λ other ys ne js out.
          set-IsFreeList l pfn order other ys (linked_others z phy order other ys js ne out),
    )

-- The list of an order whose head has been replaced, with the count one less.
abbrev unlinked : Zone → ℕ → ℕ → Zone
unlinked z order v =
    count_down (record z { slave = record (z.slave) { free = update z.slave.free order v } }) order

unlinked-IsFreeList :
    (z : Zone) (order x : ℕ) (xs : List ℕ)
    → IsFreeList z order (x ∷ xs)
    → IsFreeList (unlinked z order (z.frames x).next) order xs
unlinked-IsFreeList z order x xs is =
    let v = (z.frames x).next in
    let self : update z.slave.free order v order ≡ v = ground arith in
    record {
      chain = rw self is.chain.3;
      count = ground (arith, is.count, is.fits);
      fits = omega (arith, is.fits);
    }

pop_head-eq :
    (z : Zone) (order x : ℕ)
    → z.slave.free order ≡ x
    → buddy_bit_chk z.slave (kbud_pfnum (virt_to_phys_pm x) z.slave) order ≡ true
    → kbud_pop_head z order ≡ (
      x,
      buddy_bit_clr
          (unlinked z order (z.frames x).next)
          (kbud_pfnum (virt_to_phys_pm x) z.slave)
          order,
    )
unfolding kbud_pop_head
pop_head-eq z order x e ok = subst (λ y. Goal y) e (λ k. rw k) ok
  where
    Goal : ℕ → Type 0
    Goal y =
        buddy_bit_chk z.slave (kbud_pfnum (virt_to_phys_pm y) z.slave) order ≡ true
        → kbud_pop_head z order ≡ (
          y,
          buddy_bit_clr (unlinked z order (z.frames y).next)
              (kbud_pfnum (virt_to_phys_pm y) z.slave) order,
        )

-- `kbud_pop_head` of a list that is not empty, whose first block has a bit, gives that block,
-- takes it off the list, uncounts it and clears its pair's bit, in a memory of bytes.
kbud_pop_head_lem :
    (z : Zone) (order x : ℕ) (xs : List ℕ)
    → IsFreeList z order (x ∷ xs)
    → buddy_bit_chk z.slave (kbud_pfnum (virt_to_phys_pm x) z.slave) order ≡ true
    → ((a : ℕ) → z.bytes a < 256)
    → let (blk, z') = kbud_pop_head z order in
      (blk ≡ x)
      × IsFreeList z' order xs
      × (buddy_bit_get z' (kbud_pfnum (virt_to_phys_pm x) z.slave) order ≡ false)
kbud_pop_head_lem z order x xs is ok bytes =
    let l = unlinked z order (z.frames x).next in
    let pfn = kbud_pfnum (virt_to_phys_pm x) z.slave in
    rw (pop_head-eq z order x is.chain.0 ok) (
      refl,
      clr-IsFreeList l pfn order order xs (unlinked-IsFreeList z order x xs is),
      ground (arith, buddy_bit_get-clr l pfn order pfn order bytes),
    )

-- `kbud_pop_head` of an empty list gives the error pointer and changes nothing, where no block at
-- the null address has a bit.
pub kbud_pop_head_empty :
    (z : Zone) (order : ℕ)
    → z.slave.free order ≡ 0
    → buddy_bit_chk z.slave (kbud_pfnum (virt_to_phys_pm 0) z.slave) order ≡ false
    → kbud_pop_head z order ≡ (invalid_ptr, z)
unfolding kbud_pop_head
kbud_pop_head_empty z order e bad = simp (e, bad)
