-- ===== src/Cpu/Tests.antt =====
-- Runs of kernel/cpu_feats.c.
use sync_kernel.Prelude.{ℕ, ◌^◌, ◌≡◌, refl, true, false, arith, ◌==◌, if◌then◌else◌}
use sync_kernel.Cpu.{
  Regs, cpuid_ext_leaf, cpuid_reg_edx, cpuid_feat_group, cpu_assign_from_leaf, cpu_get_capabilities,
  leaf_has, cpu_has_feat, boot_cpu,
}
use sync_kernel.Cpu.Features.{edx, packed, cpu_has_feat-capabilities}
use sync_kernel.Cpu.Packing.{cpu_has_feat-group}

-- A processor with leaf 1 and the extended leaf, and one feature in each: bit 4 and bit 20 of EDX.
abbrev old_cpu : ℕ → ℕ → Regs
old_cpu leaf sub =
    if leaf == 0
    then record { eax = 2; ebx = 0; ecx = 0; edx = 0 }
    else if leaf == 1
    then record { eax = 0; ebx = 0; ecx = 0; edx = 16 }
    else if leaf == 0x80000000
    then record { eax = cpuid_ext_leaf; ebx = 0; ecx = 0; edx = 0 }
    else record { eax = 0; ebx = 0; ecx = 0; edx = 2 ^ 20 }

-- The time-stamp counter, which the processor has, as the header packs it and as it is laid out.
time_stamp :
    (cpu_has_feat (cpu_get_capabilities old_cpu boot_cpu) (cpuid_feat_group 1 cpuid_reg_edx 4)
      ≡ false)
    × (cpu_has_feat (cpu_get_capabilities old_cpu boot_cpu) (packed 1 edx 4) ≡ true)
unfolding cpu_has_feat cpu_get_capabilities leaf_has cpu_assign_from_leaf
time_stamp = (refl, refl)

cpu_has_feat-capabilities_example :
    (cpu_has_feat (cpu_get_capabilities old_cpu boot_cpu) (packed 1 edx 4) ≡ true)
    × (cpu_has_feat (cpu_get_capabilities old_cpu boot_cpu) (packed 7 edx 4) ≡ false)
    × (cpu_has_feat (cpu_get_capabilities old_cpu boot_cpu) (packed 2 edx 4) ≡ false)
cpu_has_feat-capabilities_example = cpu_has_feat-capabilities old_cpu edx 4 (omega arith)

cpu_has_feat-group_example :
    (cpu_has_feat (cpu_get_capabilities old_cpu boot_cpu) (cpuid_feat_group 1 cpuid_reg_edx 4)
      ≡ false)
    × (cpu_has_feat (cpu_get_capabilities old_cpu boot_cpu) (cpuid_feat_group 7 cpuid_reg_edx 4)
        ≡ false)
    × (cpu_has_feat (cpu_get_capabilities old_cpu boot_cpu) (cpuid_feat_group 2 cpuid_reg_edx 4)
        ≡ true)
unfolding cpu_get_capabilities
cpu_has_feat-group_example =
    cpu_has_feat-group (cpu_get_capabilities old_cpu boot_cpu) edx 4 (omega arith)
