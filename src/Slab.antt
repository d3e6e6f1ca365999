-- ===== src/Slab.antt =====
-- kernel/mm/slab.c and slab.h: caches of equal objects in slabs of pages. The state is one cache
-- with the slab headers, the first words of the objects and the page allocator. A walk along a list
-- takes fuel, and gives `none` when it runs out.
pub mod Objects
pub mod Create
pub mod Empties
mod Tests
use sync_kernel.Prelude.{
  ◌>>=◌, ℕ, zero, suc, ◌+◌, ◌-◌, ◌*◌, ◌/◌, ◌%◌, ◌^◌, ◌&&◌, ◌||◌, Option, none, some, ◌==◌, ltb, leb,
  if◌then◌else◌, update,
}
use sync_kernel.Prelude.Words.{add64, invalid_ptr}
use sync_kernel.Paging.{pagesize}
use sync_kernel.Buddy.{buddy_order_to_val}
use sync_kernel.Buddy.Master.{Memory}
use sync_kernel.Buddy.Pages.{kbud_alloc}

pub record Slab : Type 0 where
  pub next : ℕ
  pub pool : ℕ
  pub freelist : ℕ
  pub free_count : ℕ

pub record Cache : Type 0 where
  pub identifier : ℕ
  pub order : ℕ
  pub obj_size : ℕ
  pub alignment : ℕ
  pub slab_pages : ℕ
  pub full : ℕ
  pub partial : ℕ
  pub empty : ℕ
  pub empty_slabs : ℕ
  pub slab_objs_per : ℕ
  pub waste : ℕ
  pub reserved : ℕ
  pub metadata : ℕ
  pub max_empty_slabs : ℕ

pub record Heap : Type 0 where
  pub cache : Cache
  pub slabs : ℕ → Slab
  pub words : ℕ → ℕ
  pub memory : Memory

abbrev pub word32 : ℕ → ℕ
word32 n = n % 2 ^ 32

-- `struct kslab **`: the head of one of the cache's lists, or the `next` field of a slab.
pub data Link : Type 0 where
  full partial empty : Link
  next_of : ℕ → Link

unfoldable pub read_link : Heap → Link → ℕ
read_link h full = h.cache.full
read_link h partial = h.cache.partial
read_link h empty = h.cache.empty
read_link h (next_of s) = (h.slabs s).next

unfoldable pub write_link : Heap → Link → ℕ → Heap
write_link h full v = record h { cache = record (h.cache) { full = v } }
write_link h partial v = record h { cache = record (h.cache) { partial = v } }
write_link h empty v = record h { cache = record (h.cache) { empty = v } }
write_link h (next_of s) v = record h { slabs = update h.slabs s (record (h.slabs s) { next = v }) }

-- `while (*p && *p != target) p = &(*p)->next`; at the null target it walks to the end.
unfoldable pub find_link : ℕ → Heap → ℕ → Link → Option Link
find_link zero h target p = none
find_link (suc fuel) h target p =
    let rest = find_link fuel h target (next_of (read_link h p)) in
    if (read_link h p == 0) || (read_link h p == target) then some p else rest

-- Each object but the last points to the one behind it.
unfoldable pub thread_pool : ℕ → ℕ → ℕ → (ℕ → ℕ) → ℕ → ℕ
thread_pool zero size curr words = update words curr 0
thread_pool (suc k) size curr words =
    thread_pool k size (add64 curr size) (update words curr (add64 curr size))

unfoldable pub kslab_new_slab : ℕ → Heap → Option (ℕ × Heap)
kslab_new_slab fuel h = do
  let c = h.cache
  let (s, memory) = kbud_alloc h.memory c.order
  let size = buddy_order_to_val c.order
  let zeroed = record h {
    slabs = update h.slabs s (record { next = 0; pool = 0; freelist = 0; free_count = 0 });
    words = λ a. if leb s a && ltb a (s + size) then 0 else h.words a;
    memory = memory;
  }
  let pool = add64 s c.reserved
  let fresh : Slab = record { next = 0; pool = pool; freelist = pool; free_count = c.slab_objs_per }
  let linked = (do
    pe ← find_link fuel zeroed 0 empty
    let h' = write_link zeroed pe s
    some (
      s,
      record h' {
        slabs = update h'.slabs s fresh;
        words = thread_pool (c.slab_objs_per - 1) c.obj_size pool h'.words;
      },
    ))
  if s == invalid_ptr then some (invalid_ptr, h) else linked

abbrev pub slab_hdr_sz : ℕ
slab_hdr_sz = 48

-- What the loop of `kslab_cache_create` has settled on.
pub record Choice : Type 0 where
  pub order : ℕ
  pub count : ℕ
  pub waste : ℕ
  pub reserved : ℕ

abbrev pub slab_reserved : ℕ → ℕ
slab_reserved alignment = slab_hdr_sz + (alignment - slab_hdr_sz % alignment) % alignment

-- The body of the loop of `kslab_cache_create` at order `i`.
unfoldable pub consider : ℕ → ℕ → ℕ → Choice → Choice
consider i objsize alignment best =
    let size = 2 ^ i * pagesize in
    let reserved = slab_reserved alignment in
    let objs = (size - reserved) / objsize in
    let waste = size - (reserved + objs * objsize) in
    if leb size reserved
    then best
    else if ltb objs 8
    then best
    else if objs == 0
    then best
    else if ltb waste best.waste
    then record { order = i; count = objs; waste = waste; reserved = reserved }
    else best

unfoldable pub create_loop : ℕ → ℕ → ℕ → ℕ → Choice → Choice
create_loop zero i objsize alignment best = best
create_loop (suc k) i objsize alignment best =
    create_loop k (i + 1) objsize alignment (consider i objsize alignment best)

-- Orders 0 to 3, since the bound is BUDDY_ORDER_64K and not itself tried.
unfoldable pub choose_order : ℕ → ℕ → Choice
choose_order objsize alignment =
    create_loop 4 0 objsize alignment
      (record { order = 0; count = 0; waste = invalid_ptr; reserved = 0 })

-- The results are 0, 1 and 2 ^ 32 - 1 for -1.
unfoldable pub kslab_cache_create : ℕ → Heap → ℕ → ℕ → ℕ → ℕ → Option (ℕ × Heap)
kslab_cache_create fuel h identifier objsize alignment flags = do
  let c = choose_order objsize alignment
  let old = h.cache
  let cache = record old {
    identifier = identifier;
    slab_pages = buddy_order_to_val c.order / pagesize;
    alignment = alignment;
    obj_size = objsize;
    metadata = word32 flags;
    order = c.order;
    waste = word32 c.waste;
    reserved = c.reserved;
    slab_objs_per = word32 c.count;
    empty_slabs = word32 (old.empty_slabs + 1);
    max_empty_slabs = 4;
  }
  let filled = (do
    (s, h') ← kslab_new_slab fuel (record h { cache = cache })
    some (if s == invalid_ptr then 2 ^ 32 - 1 else 0, h'))
  if c.waste == invalid_ptr then some (1, h) else filled
