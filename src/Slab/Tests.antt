-- ===== src/Slab/Tests.antt =====
-- Runs of kernel/mm/slab.c.
use sync_kernel.Prelude.{◌+◌, ◌≡◌, refl, Returns}
use sync_kernel.Prelude.Words.{invalid_ptr}
use sync_kernel.Buddy.Master.{Memory, zero_slave}
use sync_kernel.Slab.{Cache, Heap, consider, create_loop, choose_order}
use sync_kernel.Slab.Objects.{kslab_alloc, kslab_partial_alloc}
use sync_kernel.Slab.Create.{IsBest, choose_order-IsBest}

abbrev no_memory : Memory
no_memory = record {
  regions = λ i. invalid_ptr;
  region_count = 0;
  slaves = λ v. zero_slave;
  frames = λ a. record { next = 0; order = 0 };
  bytes = λ a. 0;
}

-- A cache of 128-byte objects with one slab, one of whose 31 objects is in use.
abbrev cache : Cache
cache = record {
  identifier = 1;
  order = 0;
  obj_size = 128;
  alignment = 8;
  slab_pages = 1;
  full = 0;
  partial = 0x10000;
  empty = 0;
  empty_slabs = 1;
  slab_objs_per = 31;
  waste = 80;
  reserved = 48;
  metadata = 0;
  max_empty_slabs = 4;
}

abbrev heap : Heap
heap = record {
  cache = cache;
  slabs = λ s. record { next = 0; pool = 0x10030; freelist = 0x100B0; free_count = 30 };
  words = λ a. a + 128;
  memory = no_memory;
}

best_order : choose_order 128 8 ≡ record { order = 0; count = 31; waste = 80; reserved = 48 }
unfolding choose_order create_loop consider
best_order = refl

alloc_partial :
    Returns (λ r. (r.0 ≡ 0x100B0) × ((r.1.slabs 0x10000).freelist ≡ 0x10130)) (kslab_alloc 3 heap)
unfolding kslab_alloc kslab_partial_alloc
alloc_partial = (refl, refl)

choose_order-IsBest_example : IsBest 128 8 4 (choose_order 128 8)
choose_order-IsBest_example = choose_order-IsBest 128 8
