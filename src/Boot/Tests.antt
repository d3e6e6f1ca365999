-- ===== src/Boot/Tests.antt =====
-- Runs of kernel/boot.c on small information.
use sync_kernel.Prelude.{
  ℕ, ◌-◌, ◌≤◌, ◌<◌, ◌≡◌, refl, ◌⊎◌, inl, inr, Bool, some, List, [], ◌∷◌, arith, ◌==◌, Returns,
  if◌then◌else◌,
}
use sync_kernel.Prelude.Words.{invalid_ptr}
use sync_kernel.Boot.{MapEntry, Preinit, Span}
use sync_kernel.Boot.Maps.{find_mbt, sift, sort_loop, pi_sort_boot_mapentries}
use sync_kernel.Boot.Sorting.{IsSorted, occurs, pi_sort_boot_mapentries-IsSorted}
use sync_kernel.Boot.Tags.{
  Tags, last, next, first_tag, IsSized, IsTag, Reached, here, onward, find_mbt-Tags,
  find_mbt-Returns,
}
use sync_kernel.Boot.Frames.{IsPool, take_frames, frames_above, take_frames-all}

-- Three entries that descend.
abbrev descending : ℕ → MapEntry
descending i = record { base = 9 - i; len = i }

sorted_bases : (pi_sort_boot_mapentries descending 3 0).base ≡ 7
unfolding pi_sort_boot_mapentries sort_loop sift
sorted_bases = refl

pi_sort_boot_mapentries-IsSorted_example :
    IsSorted 3 (pi_sort_boot_mapentries descending 3)
    × ((p : MapEntry → Bool)
        → occurs p 3 (pi_sort_boot_mapentries descending 3) ≡ occurs p 3 descending)
    × ((x : ℕ) → 3 ≤ x → pi_sort_boot_mapentries descending 3 x ≡ descending x)
pi_sort_boot_mapentries-IsSorted_example = pi_sort_boot_mapentries-IsSorted descending 3

-- A memory map of 16 bytes, and the last tag.
abbrev information : ℕ → ℕ
information p =
    if p == 0x1000
    then 32
    else if p == 0x1008
    then 6
    else if p == 0x100C
    then 16
    else if p == 0x101C
    then 8
    else 0

abbrev tags : List (ℕ × ℕ)
tags = (6, 0x1008) ∷ (0, 0x1018) ∷ []

information_tags : Tags information 0x1020 0x1008 tags
information_tags = next (omega arith) (omega arith) (last (omega arith) refl)

find_mbt-Tags_example : find_mbt 3 information 0x1000 6 ≡ some (first_tag 6 tags)
find_mbt-Tags_example = find_mbt-Tags 3 information 0x1000 6 tags (omega arith) information_tags

-- The tags that are reached.
Reached-places :
    (q : ℕ) → Reached information 0x1008 q → (q ≡ 0x1008) ⊎ ((q ≡ 0x1018) ⊎ (q ≡ 0x1020))
Reached-places q here = inl refl
Reached-places q (onward r) = elim (Reached-places _ r) [
  | inl first ↦ rw first (inr (inl refl))
  | inr (inl second) ↦ rw second (inr (inr refl))
  | inr (inr end) ↦ rw end (inr (inr refl))
]

all-IsSized : (q : ℕ) → Reached information 0x1008 q → q < 0x1020 → IsSized information q
all-IsSized q r h = elim (Reached-places q r) [
  | inl first ↦ rw first (omega arith, omega arith)
  | inr (inl second) ↦ rw second (omega arith, omega arith)
  | inr (inr end) ↦ absurd (omega arith)
]

find_mbt-Returns_example : Returns (IsTag information 8 0x1020) (find_mbt 4 information 0x1000 8)
find_mbt-Returns_example =
    find_mbt-Returns 3 information 0x1000 8 (omega arith) (omega arith) all-IsSized

-- A region of three frames at 4 KiB, none taken.
abbrev fresh : Preinit
fresh = record {
  region = λ i. if i == 0 then 0x1000 else if i == 1 then 0x100000 else invalid_ptr;
  region_count = 2;
  headers = λ a.
      if a == 0x1000
      then record { top = 0x3000; base = 0x1000; cur_frames = 2; max_frames = 3 }
      else record { top = 0x103000; base = 0x100000; cur_frames = 3; max_frames = 4 };
  tables = λ t i. 7;
  cr3 = 0;
}

fresh-IsPool : IsPool (fresh.headers (fresh.region 0)) 2
fresh-IsPool = record { frames = refl; top = refl; room = omega arith; end = omega arith }

take_frames-all_example :
    Returns
      (λ s.
        (s.0 ≡ frames_above (fresh.headers (fresh.region 0)).base 2)
        × (s.1.region ≡ fresh.region)
        × IsPool (s.1.headers (fresh.region 0)) 0)
      (take_frames 2 fresh)
take_frames-all_example = take_frames-all 2 fresh (omega arith) fresh-IsPool

-- The kernel lies between 1 and 2 MiB of an entry of 4 MiB.
abbrev kernel_span : Span
kernel_span = record { kphys_start = 0x100000; kphys_end = 0x200000 }

-- The same regions, with all frames of the first taken.
abbrev used : Preinit
used = record {
  region = fresh.region;
  region_count = 2;
  headers = λ a.
      if a == 0x1000
      then record { top = 0x1000; base = 0x1000; cur_frames = 0; max_frames = 3 }
      else record { top = 0x103000; base = 0x100000; cur_frames = 3; max_frames = 4 };
  tables = λ t i. 7;
  cr3 = 0;
}

used-IsPool : IsPool (used.headers (used.region 0)) 0
used-IsPool = record { frames = refl; top = refl; room = omega arith; end = omega arith }
