-- ===== src/Boot/Frames.antt =====
-- The frames of the boot allocator: `pf_init_region` and `alloc_frame` of kernel/boot.c.
use sync_kernel.Prelude.{
  ℕ, zero, suc, ◌+◌, ◌-◌, ◌*◌, ◌/◌, ◌%◌, ◌^◌, ◌≤◌, ◌<◌, ◌≡◌, refl, sym, ap, ◌∙◌, ◌≢◌, ◌⊎◌, inl, inr,
  true, false, ◌&&◌, Option, none, some, List, [], ◌∷◌, arith, ◌==◌, Returns, Returns-bind, leb,
  update, ◌>>=◌,
}
use sync_kernel.Prelude.Words.{add64, sub64, invalid_ptr}
use sync_kernel.Boot.{Region, Preinit, Span, region_at, pf_init_region, frame_loop, alloc_frame}

-- The free frames are those above the header, and the top one is the next.
pub record IsPool (r : Region) (free : ℕ) : Type 0 where
  pub frames : r.cur_frames ≡ free
  pub top : r.top ≡ r.base + free * 4096
  pub room : free < r.max_frames
  pub end : r.base + r.max_frames * 4096 < 2 ^ 64

region_at-IsPool :
    (addr n : ℕ) → 1 ≤ n → addr + n * 4096 < 2 ^ 64 → IsPool (region_at addr (n * 4096)) (n - 1)
unfolding region_at
region_at-IsPool addr n pos fits =
    let whole : (n * 4096 - n * 4096 % 4096) / 4096 ≡ n = omega arith in
    record {
      frames = rw whole (omega arith);
      top = omega arith;
      room = rw whole (omega arith);
      end = rw whole fits;
    }

update-at {ℓ} : {A : Type ℓ} (f : ℕ → A) (i : ℕ) (v : A) → update f i v i ≡ v
update-at f i v = ground arith

-- The first `k` pages of the entry are left out: those below the kernel's end, where it holds the
-- kernel.
abbrev pub Skips : Span → ℕ → ℕ → ℕ → Type 0
Skips span base n k =
    ((k ≡ 0) × ((span.kphys_start < base) ⊎ (base + n * 4096 < span.kphys_end)))
    ⊎ ((k * 4096 ≡ span.kphys_end) × (base ≤ span.kphys_start) × (span.kphys_end ≤ base + n * 4096))

-- An entry of `n` whole pages below the end of the address space becomes a region of `n` frames, or
-- of those above as many pages as lie below the kernel's end, where it holds the kernel and has more
-- pages than that; all of its frames are free but the first, which holds the header.
pub pf_init_region-IsPool :
    (span : Span) (pfa : Preinit) (i base n k : ℕ)
    → Skips span base n k
    → k < n
    → base + n * 4096 < 2 ^ 64
    → let pfa' = pf_init_region span pfa i (record { base = base; len = n * 4096 }) in
      (pfa'.region i ≡ base + k * 4096) × IsPool (pfa'.headers (base + k * 4096)) (n - k - 1)
unfolding pf_init_region
pf_init_region-IsPool span pfa i base n k (inl (whole, out)) h fits =
    let test : (leb base span.kphys_start && leb span.kphys_end (add64 base (n * 4096))) ≡ false =
      elim out [ inl above ↦ ground arith | inr under ↦ ground arith ] in
    let addr : base + k * 4096 ≡ base = omega arith in
    let left : n - k - 1 ≡ n - 1 = omega arith in
    rw (test, addr, left)
      (
        update-at pfa.region i base,
        rw (update-at pfa.headers base (region_at base (n * 4096)))
            (region_at-IsPool base n (omega arith) fits),
      )
pf_init_region-IsPool span pfa i base n k (inr (end, low, high)) h fits =
    let test : (leb base span.kphys_start && leb span.kphys_end (add64 base (n * 4096))) ≡ true =
      ground arith in
    let addr : add64 base span.kphys_end ≡ base + k * 4096 = omega arith in
    let len : sub64 (n * 4096) span.kphys_end ≡ (n - k) * 4096 = omega arith in
    rw (test, addr, len)
      (
        update-at pfa.region i (base + k * 4096),
        rw (update-at pfa.headers (base + k * 4096) (region_at (base + k * 4096) ((n - k) * 4096)))
            (region_at-IsPool (base + k * 4096) (n - k) (omega arith) (omega arith)),
      )

-- The allocator after the top frame of the region `v` has been taken.
abbrev taken : Preinit → ℕ → Preinit
taken pfa v =
    let r = pfa.headers v in
    record pfa {
      headers =
          update pfa.headers v (record r { top = sub64 r.top 4096; cur_frames = r.cur_frames - 1 });
      tables = update pfa.tables r.top (λ j. 0);
    }

frame_loop-taken :
    (n i end : ℕ) (pfa : Preinit)
    → let v = pfa.region i in
      v ≢ invalid_ptr
      → (pfa.headers v).cur_frames ≢ 0
      → (pfa.headers v).top < end
      → frame_loop (suc n) i end pfa ≡ some ((pfa.headers v).top, taken pfa v)
unfolding frame_loop
frame_loop-taken n i end pfa there some_left below =
    let v = pfa.region i in
    let a : (v == invalid_ptr) ≡ false = ground arith in
    let b : ((pfa.headers v).cur_frames == 0) ≡ false = ground arith in
    let c : leb end (pfa.headers v).top ≡ false = ground arith in simp (a, b, c)

frame_loop-empty :
    (n i end : ℕ) (pfa : Preinit)
    → pfa.region i ≢ invalid_ptr
    → (pfa.headers (pfa.region i)).cur_frames ≡ 0
    → frame_loop (suc n) i end pfa ≡ frame_loop n (i + 1) end pfa
unfolding frame_loop
frame_loop-empty n i end pfa there empty =
    let a : (pfa.region i == invalid_ptr) ≡ false = ground arith in simp (a, empty)

frame_loop-dies :
    (n i end : ℕ) (pfa : Preinit)
    → pfa.region i ≢ invalid_ptr
    → (pfa.headers (pfa.region i)).cur_frames ≢ 0
    → end ≤ (pfa.headers (pfa.region i)).top
    → frame_loop (suc n) i end pfa ≡ none
unfolding frame_loop
frame_loop-dies n i end pfa there left high =
    let a : (pfa.region i == invalid_ptr) ≡ false = ground arith in
    let b : ((pfa.headers (pfa.region i)).cur_frames == 0) ≡ false = ground arith in
    let c : leb end (pfa.headers (pfa.region i)).top ≡ true = ground arith in simp (a, b, c)

alloc_frame-taken :
    (pfa : Preinit) (free : ℕ)
    → pfa.region 0 ≢ invalid_ptr
    → IsPool (pfa.headers (pfa.region 0)) (suc free)
    → alloc_frame pfa ≡ some ((pfa.headers (pfa.region 0)).top, taken pfa (pfa.region 0))
unfolding alloc_frame
alloc_frame-taken pfa free there pool =
    let v = pfa.region 0 in
    let r = pfa.headers v in
    let a : (v == invalid_ptr) ≡ false = ground arith in
    let left : r.cur_frames ≢ 0 = omega (arith, pool.frames) in
    let below : r.top < add64 r.base (r.max_frames * 4096 % 2 ^ 64) =
      omega (arith, pool.top, pool.room, pool.end) in
    rw a (frame_loop-taken 127 0 _ pfa there left below)

-- While the first region has free frames, `alloc_frame` returns the uppermost of them, filled with
-- zeroes: the region keeps its place and has one free frame less, and no other table changes.
pub alloc_frame-IsPool :
    (pfa : Preinit) (free : ℕ)
    → pfa.region 0 ≢ invalid_ptr
    → IsPool (pfa.headers (pfa.region 0)) (suc free)
    → let r = pfa.headers (pfa.region 0) in
      Returns
        (λ s.
          (s.0 ≡ r.base + suc free * 4096)
          × (s.1.region ≡ pfa.region)
          × IsPool (s.1.headers (pfa.region 0)) free
          × ((s.1.headers (pfa.region 0)).base ≡ r.base)
          × ((j : ℕ) → s.1.tables s.0 j ≡ 0)
          × ((t : ℕ) → t ≢ s.0 → s.1.tables t ≡ pfa.tables t))
        (alloc_frame pfa)
alloc_frame-IsPool pfa free there pool =
    let v = pfa.region 0 in
    let r = pfa.headers v in
    let r' : Region = record r { top = sub64 r.top 4096; cur_frames = r.cur_frames - 1 } in
    let header : (taken pfa v).headers v ≡ r' = ground arith in
    let pool' : IsPool r' free = record {
      frames = omega (arith, pool.frames);
      top = omega (arith, pool.top, pool.room, pool.end);
      room = omega (arith, pool.room);
      end = pool.end;
    } in
    rw (alloc_frame-taken pfa free there pool) (
      pool.top,
      refl,
      rw header pool',
      ap (λ x. x.base) header,
      λ j. ground arith,
      λ t other. ground arith,
    )

-- `n` frames, one call after another: their addresses, the first one first.
unfoldable pub take_frames : ℕ → Preinit → Option (List ℕ × Preinit)
take_frames zero pfa = some ([], pfa)
take_frames (suc n) pfa = do
  (frame, pfa') ← alloc_frame pfa
  (frames, pfa'') ← take_frames n pfa'
  some (frame ∷ frames, pfa'')

-- The addresses of the `n` frames above `base`, from the uppermost down.
unfoldable pub frames_above : ℕ → ℕ → List ℕ
frames_above base zero = []
frames_above base (suc n) = (base + suc n * 4096) ∷ frames_above base n

-- A region with `n` free frames serves `n` calls of `alloc_frame`: they return every frame above the
-- header once, from the uppermost down, and none is left then.
pub take_frames-all :
    (n : ℕ) (pfa : Preinit)
    → pfa.region 0 ≢ invalid_ptr
    → IsPool (pfa.headers (pfa.region 0)) n
    → Returns
        (λ s.
          (s.0 ≡ frames_above (pfa.headers (pfa.region 0)).base n)
          × (s.1.region ≡ pfa.region)
          × IsPool (s.1.headers (pfa.region 0)) 0)
        (take_frames n pfa)
unfolding take_frames frames_above
take_frames-all zero pfa there pool = (refl, refl, pool)
take_frames-all (suc n) pfa there pool =
    let r = pfa.headers (pfa.region 0) in
    Returns-bind _ _ (alloc_frame pfa) _ (alloc_frame-IsPool pfa n there pool)
      λ s (frame, kept, p, b, _, _).
        let same : s.1.region 0 ≡ pfa.region 0 = ap (λ f. f 0) kept in
        let rest = take_frames-all n s.1 (rw same there) (rw same p) in
        Returns-bind _ _ (take_frames n s.1) _ rest λ u (frames, kept', p').
          let base' : (s.1.headers (s.1.region 0)).base ≡ r.base =
            ap (λ v. (s.1.headers v).base) same ∙ b in
          (
            ap (λ a. a ∷ u.0) frame
                ∙ ap (λ l. (r.base + suc n * 4096) ∷ l) (frames ∙ ap (λ a. frames_above a n) base'),
            kept' ∙ kept,
            rw (sym same) p',
          )

-- Where the first region has no free frame, and the second has one that lies above the end of the
-- first, `alloc_frame` stops the machine.
alloc_frame_dies :
    (pfa : Preinit)
    → pfa.region 0 ≢ invalid_ptr
    → IsPool (pfa.headers (pfa.region 0)) 0
    → pfa.region 1 ≢ invalid_ptr
    → (pfa.headers (pfa.region 1)).cur_frames ≢ 0
    → (pfa.headers (pfa.region 0)).base + (pfa.headers (pfa.region 0)).max_frames * 4096
      ≤ (pfa.headers (pfa.region 1)).top
    → alloc_frame pfa ≡ none
unfolding alloc_frame
alloc_frame_dies pfa there pool there' left high =
    let here : (pfa.region 0 == invalid_ptr) ≡ false = ground arith in
    let end = (pfa.headers (pfa.region 0)).base + (pfa.headers (pfa.region 0)).max_frames * 4096 in
    let bound : add64 (pfa.headers (pfa.region 0)).base
          ((pfa.headers (pfa.region 0)).max_frames * 4096 % 2 ^ 64)
        ≡ end =
      omega (arith, pool.end) in
    rw (here, bound, frame_loop-empty 127 0 end pfa there pool.frames)
      (frame_loop-dies 126 1 end pfa there' left high)
