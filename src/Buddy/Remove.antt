-- ===== src/Buddy/Remove.antt =====
-- How `kbud_pop` of kernel/mm/buddy.c takes a block out of the middle of a free list.
use sync_kernel.Prelude.{
  ℕ, zero, suc, ◌+◌, ◌<◌, ◌≡◌, refl, ◌≢◌, true, false, some, List, [], ◌∷◌, ◌++◌, length, arith,
  ◌==◌, Returns, update,
}
use sync_kernel.Buddy.{
  Frame, Zone, kbud_pfnum, buddy_bit_chk, buddy_bit_get, Link, head, next_of, read_link, write_link,
  find_link, count_down, kbud_pop,
}
use sync_kernel.Paging.{phys_to_virt_pm}
use sync_kernel.Buddy.Bitmap.{buddy_bit_get-clr}
use sync_kernel.Buddy.Lists.{has, Chain, IsFreeList, Chain-update, clr-IsFreeList}

has-drop :
    (a p : ℕ) (xs ys : List ℕ)
    → has a (xs ++ (p ∷ ys)) ≡ false
    → (has a (xs ++ ys) ≡ false) × (a ≢ p) × (has a xs ≡ false) × (has a ys ≡ false)
has-drop a p [] ys e = (ground arith, ground arith, refl, ground arith)
has-drop a p (x ∷ xs) ys e =
    let ih = has-drop a p xs ys (ground arith) in
    (ground (arith, ih.0), ih.1, ground (arith, ih.2), ih.3)

-- The last frame of a list, behind `a`.
abbrev last : ℕ → List ℕ → ℕ
last a [] = a
last a (x ∷ xs) = last x xs

last_ne : (a x : ℕ) (xs : List ℕ) → has a (x ∷ xs) ≡ false → last x xs ≢ a
last_ne a x [] e = ground arith
last_ne a x (y ∷ xs) e = last_ne a y xs (ground arith)

-- The frame `p` behind `a` and `xs` has been skipped by the frame before it.
skip-Chain :
    (frames : ℕ → Frame) (a p : ℕ) (xs ys : List ℕ) (order : ℕ)
    → has a (xs ++ (p ∷ ys)) ≡ false
    → Chain frames (frames a).next (xs ++ (p ∷ ys))
    → let frames' = update frames (last a xs) (record { next = (frames p).next; order = order }) in
      Chain frames' (frames' a).next (xs ++ ys)
skip-Chain frames a p [] ys order out c =
    let f : Frame = record { next = (frames p).next; order = order } in
    let self : update frames a f a ≡ f = ground arith in
    rw self (Chain-update frames a f (frames p).next ys ((has-drop a p [] ys out).3) c.3)
skip-Chain frames a p (x ∷ xs) ys order out c =
    let f : Frame = record { next = (frames p).next; order = order } in
    let ne = last_ne a x xs ((has-drop a p (x ∷ xs) ys out).2) in
    let other : update frames (last x xs) f a ≡ frames a = ground arith in
    rw other (c.0, c.1, (has-drop x p xs ys c.2).0, skip-Chain frames x p xs ys order c.2 c.3)

abbrev last_link : Link → List ℕ → Link
last_link cur [] = cur
last_link cur (x ∷ xs) = last_link (next_of x) xs

find_link-last :
    (fuel : ℕ) (z : Zone) (order p : ℕ) (cur : Link) (xs ys : List ℕ)
    → Chain z.frames (read_link z order cur) (xs ++ (p ∷ ys))
    → has p xs ≡ false
    → length xs < fuel
    → find_link fuel z order p cur ≡ some (last_link cur xs)
unfolding find_link read_link
find_link-last zero z order p cur xs ys c out f = absurd (omega arith)
find_link-last (suc fuel) z order p cur [] ys c out f = ground (arith, c.0)
find_link-last (suc fuel) z order p cur (x ∷ xs) ys c out f =
    let ih = find_link-last fuel z order p (next_of x) xs ys c.3 (ground arith) (omega arith) in
    rw (c.0) (ground (arith, ih, c.1))

last_link-next_of : (a : ℕ) (xs : List ℕ) → last_link (next_of a) xs ≡ next_of (last a xs)
last_link-next_of a [] = refl
last_link-next_of a (x ∷ xs) = last_link-next_of x xs

length-without : (p : ℕ) (xs ys : List ℕ) → length (xs ++ (p ∷ ys)) ≡ length (xs ++ ys) + 1
length-without p [] ys = omega arith
length-without p (x ∷ xs) ys = omega (arith, length-without p xs ys)

-- The list of an order after the link to `p` has been written over and the counter decremented.
unlinked-IsFreeList :
    (z : Zone) (order p : ℕ) (xs ys : List ℕ)
    → IsFreeList z order (xs ++ (p ∷ ys))
    → IsFreeList
        (count_down (write_link z order (last_link head xs) (z.frames p).next) order)
        order
        (xs ++ ys)
unfolding write_link
unlinked-IsFreeList z order p [] ys is =
    let v = (z.frames p).next in
    let self : update z.slave.free order v order ≡ v = ground arith in
    record {
      chain = rw self (is.chain.3);
      count = ground (arith, is.count, is.fits);
      fits = omega (arith, is.fits);
    }
unlinked-IsFreeList z order p (x ∷ xs) ys is =
    let e = last_link-next_of x xs in
    let c = is.chain in
    let n = length-without p xs ys in
    rw e (record {
      chain = (
        c.0,
        c.1,
        (has-drop x p xs ys c.2).0,
        skip-Chain z.frames x p xs ys (z.frames (last x xs)).order c.2 c.3,
      );
      count = ground (arith, is.count, is.fits, n);
      fits = omega (arith, is.fits, n);
    })

write_link-bytes :
    (z : Zone) (order : ℕ) (cur : Link) (v : ℕ) → (write_link z order cur v).bytes ≡ z.bytes
unfolding write_link
write_link-bytes z order head v = refl
write_link-bytes z order (next_of a) v = refl

-- `kbud_pop` of a block in its order's list, whose bit exists, takes the block out of that list and
-- leaves the others in their order, uncounts it and clears its pair's bit, in a memory of bytes and
-- with a round for each block up to it.
pub kbud_pop_lem :
    (fuel : ℕ) (z : Zone) (phy order : ℕ) (xs ys : List ℕ)
    → IsFreeList z order (xs ++ (phys_to_virt_pm phy ∷ ys))
    → has (phys_to_virt_pm phy) xs ≡ false
    → buddy_bit_chk z.slave (kbud_pfnum phy z.slave) order ≡ true
    → ((a : ℕ) → z.bytes a < 256)
    → length xs < fuel
    → Returns
        (λ r.
          (r.0 ≡ true)
          × IsFreeList r.1 order (xs ++ ys)
          × (buddy_bit_get r.1 (kbud_pfnum phy z.slave) order ≡ false))
        (kbud_pop fuel z phy order)
unfolding kbud_pop
kbud_pop_lem fuel z phy order xs ys is out ok bytes f =
    let p = phys_to_virt_pm phy in
    let found = find_link-last fuel z order p head xs ys is.chain out f in
    let some_block : (z.slave.order_blk_cnt order == 0) ≡ false =
      ground (arith, is.count, length-without p xs ys) in
    let l = count_down (write_link z order (last_link head xs) (z.frames p).next) order in
    let pfn = kbud_pfnum phy z.slave in
    let small : (a : ℕ) → l.bytes a < 256 =
      λ a. rw (write_link-bytes z order (last_link head xs) (z.frames p).next) (bytes a) in
    rw (ok, some_block, found)
      (
        refl,
        clr-IsFreeList l pfn order order (xs ++ ys) (unlinked-IsFreeList z order p xs ys is),
        ground (arith, buddy_bit_get-clr l pfn order pfn order small),
      )
