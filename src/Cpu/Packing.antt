-- ===== src/Cpu/Packing.antt =====
-- The features as the macro of kernel/cpu_feats.h packs them.
use sync_kernel.Prelude.{ℕ, ◌+◌, ◌*◌, ◌/◌, ◌%◌, ◌^◌, ◌<◌, ◌≡◌, refl, ◌∙◌, false, ◌&&◌, arith}
use sync_kernel.Prelude.Bits.{bit_or_disjoint}
use sync_kernel.Cpu.{Info, cpuid_feat_group, cpu_has_feat}
use sync_kernel.Cpu.Features.{Reg, code, value, is_set, code-lt, leaf_has_lem}

group_sum :
    (leaf : ℕ) (r : Reg) (bit : ℕ)
    → leaf < 8
    → bit < 2 ^ 5
    → code r < 3
    → cpuid_feat_group leaf (code r) bit ≡ leaf * 2 ^ 7 + (code r * 2 ^ 5 + bit)
group_sum leaf r bit small low c =
    rw
      (
        bit_or_disjoint 5 (code r) bit low,
        bit_or_disjoint 7 leaf (code r * 2 ^ 5 + bit) (omega arith),
      )
      (omega arith)

module _ (r : Reg) (bit : ℕ) (low : bit < 2 ^ 5) (c : code r < 3) where
  group_fields :
      (leaf : ℕ)
      → leaf < 8
      → (cpuid_feat_group leaf (code r) bit / 2 ^ 5 % 2 ^ 3 ≡ leaf % 2 * 4 + code r)
        × (cpuid_feat_group leaf (code r) bit / 2 ^ 8 % 2 ^ 8 ≡ leaf / 2)
        × (cpuid_feat_group leaf (code r) bit % 2 ^ 5 ≡ bit)
  group_fields leaf small =
      let e = group_sum leaf r bit small low c in rw e (omega arith, omega arith, omega arith)

-- The macro puts the leaf one bit lower than `cpu_has_feat` looks for it: every feature of leaf 1 or 7
-- that it packs is denied, whatever the processor, and a feature of the extended leaf is answered by
-- that bit and register of leaf 1.
pub cpu_has_feat-group :
    (cpu : Info) (r : Reg) (bit : ℕ)
    → bit < 2 ^ 5
    → (cpu_has_feat cpu (cpuid_feat_group 1 (code r) bit) ≡ false)
      × (cpu_has_feat cpu (cpuid_feat_group 7 (code r) bit) ≡ false)
      × (cpu_has_feat cpu (cpuid_feat_group 2 (code r) bit)
          ≡ (cpu.leaf_1.supported && is_set (value cpu.leaf_1.regs r) bit))
unfolding cpu_has_feat
cpu_has_feat-group cpu r bit low =
    let c = code-lt r in
    let (r1, l1, b1) = group_fields r bit low c 1 (omega arith) in
    let (r7, l7, b7) = group_fields r bit low c 7 (omega arith) in
    let (r2, l2, b2) = group_fields r bit low c 2 (omega arith) in
    let even : 2 % 2 * 4 + code r ≡ code r = omega arith in
    (rw l1 refl, rw l7 refl, rw (r2 ∙ even, l2, b2) (leaf_has_lem cpu.leaf_1 r bit))
