-- ===== src/Slab/Empties.antt =====
-- How `kslab_free` of kernel/mm/slab.c counts the empty slabs.
use sync_kernel.Prelude.{
  ℕ, suc, ◌+◌, ◌≤◌, ◌<◌, ◌≡◌, refl, ◌≢◌, true, false, some, arith, ◌==◌, Returns, ltb, update,
}
use sync_kernel.Slab.{Heap, word32, partial, empty, next_of, read_link, write_link, find_link}
use sync_kernel.Slab.Objects.{slab_of, kslab_relink_node, kslab_free}

-- A slab at the head of the partial list, moved to an empty list of empty slabs.
relink_head :
    (fuel : ℕ) (h : Heap)
    → h.cache.partial ≢ 0
    → h.cache.empty ≡ 0
    → kslab_relink_node (suc fuel) h partial empty h.cache.partial
      ≡ some (
          write_link
            (write_link
              (write_link h partial (h.slabs h.cache.partial).next)
              (next_of h.cache.partial)
              0)
            empty
            h.cache.partial)
unfolding kslab_relink_node find_link read_link write_link
relink_head fuel h some_slab none_empty = ground arith

-- Freeing the last object in use of a slab that heads the partial list, and that was not full,
-- moves the slab to the empty list, null before, puts the object at the head of its freelist, and
-- counts it there twice, as long as that keeps within the cache's limit.
kslab_free_last :
    (fuel walk : ℕ) (h : Heap) (obj : ℕ)
    → h.cache.partial ≢ 0
    → h.cache.empty ≡ 0
    → slab_of h.cache obj ≡ h.cache.partial
    → (h.slabs h.cache.partial).free_count ≢ 0
    → word32 ((h.slabs h.cache.partial).free_count + 1) ≡ h.cache.slab_objs_per
    → h.cache.empty_slabs + 2 ≤ h.cache.max_empty_slabs
    → h.cache.max_empty_slabs < 256
    → Returns
        (λ h'.
          (h'.cache.empty_slabs ≡ h.cache.empty_slabs + 2)
          × (h'.cache.empty ≡ h.cache.partial)
          × (h'.cache.partial ≡ (h.slabs h.cache.partial).next)
          × ((h'.slabs h.cache.partial).freelist ≡ obj))
        (kslab_free (suc fuel) walk h obj)
unfolding kslab_free write_link
kslab_free_last fuel walk h obj some_slab none_empty at in_use last within small =
    let s = h.cache.partial in
    let slab = h.slabs s in
    let count = word32 (slab.free_count + 1) in
    let back : Heap = record h {
      words = update h.words obj slab.freelist;
      slabs = update h.slabs s (record slab { freelist = obj; free_count = count });
    } in
    let moved = relink_head fuel back some_slab none_empty in
    let used : (slab.free_count == 0) ≡ false = ground arith in
    let full_count : (count == h.cache.slab_objs_per) ≡ true = ground arith in
    let counted = word32 (word32 (h.cache.empty_slabs + 1) + 1) in
    let twice : counted ≡ h.cache.empty_slabs + 2 = omega arith in
    let kept : ltb h.cache.max_empty_slabs counted ≡ false = ground arith in
    simp (at, used, full_count, moved) (rw kept (twice, refl, ground arith, ground arith))
