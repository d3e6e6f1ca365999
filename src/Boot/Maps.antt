-- ===== src/Boot/Maps.antt =====
-- The memory map of the loader, and the tags that hold it: `find_mbt`, `pi_sort_boot_mapentries`,
-- `pi_loop_mb2_mapentries` and `pi_parse_mb2` of kernel/boot.c.
use sync_kernel.Prelude.{
  ℕ, zero, suc, ◌+◌, ◌-◌, ◌*◌, ◌%◌, ◌^◌, ◌||◌, not, Option, none, some, ◌==◌, ltb, leb,
  if◌then◌else◌, update, ◌>>=◌,
}
use sync_kernel.Prelude.Words.{add64, invalid_ptr}
use sync_kernel.Boot.{MapEntry, MapInfo, bios, efi32, efi64, BootInfo}

-- The 32 and 64 bits at an address.
abbrev pub read32 : (ℕ → ℕ) → ℕ → ℕ
read32 m p = m p + 2 ^ 8 * m (p + 1) + 2 ^ 16 * m (p + 2) + 2 ^ 24 * m (p + 3)

abbrev pub read64 : (ℕ → ℕ) → ℕ → ℕ
read64 m p = read32 m p + 2 ^ 32 * read32 m (p + 4)

-- `(size + 7) & ~7` on 32 bits
abbrev pub tag_step : ℕ → ℕ
tag_step size = let up = (size + 7) % 2 ^ 32 in up - up % 8

-- The tags from `p` on. Here and in the other loops over the information `none` is a loop that
-- has not ended after the rounds that are given.
unfoldable pub tag_loop : ℕ → (ℕ → ℕ) → ℕ → ℕ → ℕ → Option ℕ
tag_loop zero m type p end = none
tag_loop (suc n) m type p end =
    let rest = tag_loop n m type (add64 p (tag_step (read32 m (p + 4)))) end in
    if leb end p
    then some invalid_ptr
    else if read32 m p == type
    then some p
    else if read32 m p == 0
    then some invalid_ptr
    else rest

unfoldable pub find_mbt : ℕ → (ℕ → ℕ) → ℕ → ℕ → Option ℕ
unfolding tag_loop
find_mbt fuel m mbh type = tag_loop fuel m type (add64 mbh 8) (add64 mbh (read32 m mbh))

-- `while (j > 0 && maps[j - 1].base > k.base)`, then `maps[j] = k`
unfoldable pub sift : ℕ → MapEntry → (ℕ → MapEntry) → ℕ → MapEntry
sift zero k maps = update maps 0 k
sift (suc j) k maps =
    let rest = sift j k (update maps (suc j) (maps j)) in
    if ltb k.base (maps j).base then rest else update maps (suc j) k

-- `n` entries are left, from `i` on.
unfoldable pub sort_loop : ℕ → ℕ → (ℕ → MapEntry) → ℕ → MapEntry
unfolding sift
sort_loop zero i maps = maps
sort_loop (suc n) i maps = sort_loop n (suc i) (sift i (maps i) maps)

unfoldable pub pi_sort_boot_mapentries : (ℕ → MapEntry) → ℕ → ℕ → MapEntry
unfolding sort_loop
pi_sort_boot_mapentries maps up_to = sort_loop (up_to - 1) 1 maps

-- `MULTIBOOT_MEMORY_*`
abbrev pub memory_available : ℕ
memory_available = 1

abbrev pub memory_acpi_reclaimable : ℕ
memory_acpi_reclaimable = 3

-- One entry of the map, at `p`.
unfoldable pub put_entry : (ℕ → ℕ) → ℕ → MapInfo → Option MapInfo
put_entry m p info =
    let ent : MapEntry = record { base = read64 m p; len = read64 m (p + 8) } in
    let type = read32 m (p + 16) in
    let reclaimable = record info {
      entries_reclaimable = update info.entries_reclaimable info.count_reclaimable ent;
      ram_max = add64 info.ram_max ent.len;
      count_reclaimable = (info.count_reclaimable + 1) % 2 ^ 8;
    } in
    let available = record info {
      entries = update info.entries info.count ent;
      ram_max = add64 info.ram_max ent.len;
      ram_usable = add64 info.ram_usable ent.len;
      count = (info.count + 1) % 2 ^ 8;
    } in
    if type == memory_acpi_reclaimable
    then if ltb info.count_reclaimable 8 then some reclaimable else none
    else if not (type == memory_available)
    then some info
    else if ltb info.count 64
    then some available
    else none

unfoldable pub entry_loop : ℕ → (ℕ → ℕ) → ℕ → ℕ → ℕ → MapInfo → Option MapInfo
unfolding put_entry
entry_loop zero m entry_size p end info = none
entry_loop (suc n) m entry_size p end info =
    let rest = (do
      info' ← put_entry m p info
      entry_loop n m entry_size (add64 p entry_size) end info') in
    if leb end p then some info else rest

unfoldable pub pi_loop_mb2_mapentries : ℕ → (ℕ → ℕ) → ℕ → MapInfo → Option MapInfo
unfolding entry_loop pi_sort_boot_mapentries
pi_loop_mb2_mapentries fuel m map info = do
  read ← entry_loop fuel m (read32 m (map + 8)) (add64 map 16) (add64 map (read32 m (map + 4))) info
  some (record read {
    entries = pi_sort_boot_mapentries read.entries read.count;
    entries_reclaimable = pi_sort_boot_mapentries read.entries_reclaimable read.count_reclaimable;
  })

unfoldable pub pi_parse_mb2 : ℕ → (ℕ → ℕ) → ℕ → BootInfo → Option BootInfo
unfolding find_mbt pi_loop_mb2_mapentries
pi_parse_mb2 fuel m mbh info = do
  map ← find_mbt fuel m mbh 6
  fb ← find_mbt fuel m mbh 8
  acpi ← find_mbt fuel m mbh 15
  efi64_tag ← find_mbt fuel m mbh 12
  efi32_tag ← find_mbt fuel m mbh 11
  entry ← find_mbt fuel m mbh 21
  let missing =
      (map == invalid_ptr) || (fb == invalid_ptr) || (acpi == invalid_ptr) || (entry == invalid_ptr)
  let parsed = (do
    maps ← pi_loop_mb2_mapentries fuel m map info.maps
    some (record info {
      maps = maps;
      load_addr = read32 m (entry + 8);
      bootenv =
          if not (efi64_tag == invalid_ptr)
          then efi64
          else if not (efi32_tag == invalid_ptr)
          then efi32
          else bios;
      fb = record {
        virt = 0;
        phys = read64 m (fb + 8);
        width = read32 m (fb + 20);
        height = read32 m (fb + 24);
        bpp = m (fb + 28);
        pitch = read32 m (fb + 16);
      };
    }))
  if missing then none else parsed
