-- ===== src/Slab/Objects.antt =====
-- Objects of a slab cache (kernel/mm/slab.c): moving slabs between the lists, allocating, freeing,
-- and the end of a cache.
use sync_kernel.Prelude.{
  ℕ, zero, suc, ◌+◌, ◌-◌, ◌%◌, ◌^◌, Option, none, some, ◌==◌, ltb, if◌then◌else◌, update, ◌>>=◌,
}
use sync_kernel.Prelude.Words.{invalid_ptr}
use sync_kernel.Buddy.{buddy_order_to_val}
use sync_kernel.Buddy.Pages.{kbud_free}
use sync_kernel.Slab.{
  Slab, Cache, Heap, word32, Link, full, partial, empty, next_of, read_link, write_link, find_link,
  kslab_new_slab,
}

unfoldable pub destroy_list : ℕ → ℕ → Link → Heap → Option Heap
destroy_list zero walk p h = none
destroy_list (suc fuel) walk p h =
    let s = read_link h p in
    let rest = (do
      memory ← kbud_free walk h.memory s h.cache.order
      destroy_list fuel walk (next_of s) (record h { memory = memory })) in
    if s == 0 then some h else rest

unfoldable pub kslab_cache_destroy : ℕ → ℕ → Heap → Option Heap
kslab_cache_destroy fuel walk h = do
  first ← destroy_list fuel walk full h
  second_heap ← destroy_list fuel walk partial first
  third_heap ← destroy_list fuel walk empty second_heap
  some (record third_heap {
    cache = record (third_heap.cache) {
      obj_size = invalid_ptr;
      slab_pages = 0;
      order = 2 ^ 32 - 1;
    };
  })

-- `if (*p) *p = target->next`
abbrev pub unlink : Heap → Link → ℕ → Heap
unlink h p target = if read_link h p == 0 then h else write_link h p (h.slabs target).next

unfoldable pub kslab_remove_node : ℕ → ℕ → Heap → Link → ℕ → Option Heap
kslab_remove_node fuel walk h from target = do
  p ← find_link fuel h target from
  memory ← kbud_free walk h.memory target h.cache.order
  some (record (unlink h p target) { memory = memory })

unfoldable pub kslab_relink_node : ℕ → Heap → Link → Link → ℕ → Option Heap
kslab_relink_node fuel h from to target = do
  p ← find_link fuel h target from
  let h' = write_link (unlink h p target) (next_of target) 0
  q ← find_link fuel h' 0 to
  some (write_link h' q target)

abbrev pub set_slab : Heap → ℕ → Slab → Heap
set_slab h s v = record h { slabs = update h.slabs s v }

-- The first free object of a slab leaves its list.
abbrev pub take_object : Heap → ℕ → ℕ × Heap
take_object h s =
    let obj = (h.slabs s).freelist in
    (obj, set_slab h s (record (h.slabs s) { freelist = h.words obj }))

unfoldable pub kslab_partial_alloc : ℕ → Heap → Option (ℕ × Heap)
kslab_partial_alloc fuel h =
    let s = h.cache.partial in
    let count = word32 ((h.slabs s).free_count + 2 ^ 32 - 1) in
    let h' = set_slab h s (record (h.slabs s) { free_count = count }) in
    let used_up = (do h'' ← kslab_relink_node fuel h' partial full s; some (take_object h'' s)) in
    if s == 0
    then some (invalid_ptr, h)
    else if count == 0
    then used_up
    else some (take_object h' s)

unfoldable pub kslab_empty_alloc : ℕ → Heap → Option (ℕ × Heap)
kslab_empty_alloc fuel h =
    let s = h.cache.empty in
    let taken = (do
      h' ← kslab_relink_node fuel h empty partial s
      let c = h'.cache
      let counted = record h' {
        cache = record c { empty_slabs = word32 (c.empty_slabs + 2 ^ 32 - 1) };
      }
      let (obj, h'') = take_object counted s
      let left = h''.slabs s
      some (
        obj,
        set_slab h'' s (record left { free_count = word32 (left.free_count + 2 ^ 32 - 1) }),
      )) in
    if s == 0 then some (invalid_ptr, h) else taken

unfoldable pub kslab_new_alloc : ℕ → Heap → Option (ℕ × Heap)
kslab_new_alloc fuel h = do
  (s, h') ← kslab_new_slab fuel h
  let rest = kslab_empty_alloc fuel h'
  if s == invalid_ptr then some (invalid_ptr, h') else rest

-- partial, then empty, then new
unfoldable pub kslab_alloc : ℕ → Heap → Option (ℕ × Heap)
kslab_alloc fuel h = do
  (obj, first) ← kslab_partial_alloc fuel h
  let second = (do
    (obj', second_heap) ← kslab_empty_alloc fuel first
    let third = kslab_new_alloc fuel second_heap
    if obj' == invalid_ptr then third else some (obj', second_heap))
  if obj == invalid_ptr then second else some (obj, first)

-- The slab of an object stands at the base of its block.
abbrev pub slab_of : Cache → ℕ → ℕ
slab_of c obj = let size = buddy_order_to_val c.order in if size == 0 then 0 else obj - obj % size

-- `empty_slabs` as the code counts a slab that becomes empty: once, and once more in the test.
abbrev pub count_empty : Heap → Heap
count_empty h = record h {
  cache = record (h.cache) { empty_slabs = word32 (h.cache.empty_slabs + 1) };
}

unfoldable pub kslab_free : ℕ → ℕ → Heap → ℕ → Option Heap
kslab_free fuel walk h obj = do
  let s = slab_of h.cache obj
  let slab = h.slabs s
  let count = word32 (slab.free_count + 1)
  let back = record h {
    words = update h.words obj slab.freelist;
    slabs = update h.slabs s (record slab { freelist = obj; free_count = count });
  }
  let reopened = kslab_relink_node fuel back full partial s
  let emptied = (do
    first ← kslab_relink_node fuel back partial empty s
    let second_heap = count_empty (count_empty first)
    let trimmed = (do
      third_heap ← kslab_remove_node fuel walk second_heap empty second_heap.cache.empty
      some (record third_heap {
        cache = record (third_heap.cache) {
          empty_slabs = word32 (third_heap.cache.empty_slabs + 2 ^ 32 - 1);
        };
      }))
    if ltb second_heap.cache.max_empty_slabs second_heap.cache.empty_slabs
        then trimmed
        else some second_heap)
  if slab.free_count == 0
      then reopened
      else if count == h.cache.slab_objs_per
      then emptied
      else some back
