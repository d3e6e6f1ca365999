-- ===== src/Buddy/Handed.antt =====
-- Which block `kbud_alloc` of kernel/mm/buddy.c hands out of a region, and where its rest goes.
