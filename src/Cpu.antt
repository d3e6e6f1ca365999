-- ===== src/Cpu.antt =====
-- kernel/cpu_feats.c and kernel/cpu_feats.h: the processor's features. The instruction is a
-- parameter: the registers that it gives for a leaf and a subleaf. `__cpuid` passes no subleaf: it
-- stands for 0 here.
pub mod Features
pub mod Packing
mod Tests
use sync_kernel.Prelude.{
  ℕ, ◌*◌, ◌/◌, ◌%◌, ◌^◌, Bool, true, false, not, ◌==◌, leb, if◌then◌else◌, bit_and, bit_or,
}

-- `u32 regs[4]`
pub record Regs : Type 0 where
  pub eax : ℕ
  pub ebx : ℕ
  pub ecx : ℕ
  pub edx : ℕ

-- `cpu_leaf_t`
pub record Leaf : Type 0 where
  pub regs : Regs
  pub supported : Bool

-- `cpu_info_t`
pub record Info : Type 0 where
  pub max_std_leaf : ℕ
  pub max_ext_leaf : ℕ
  pub leaf_1 : Leaf
  pub leaf_7 : Leaf
  pub leaf_ext : Leaf

abbrev pub cpuid_ext_leaf : ℕ
cpuid_ext_leaf = 0x80000001

-- `enum cpuid_reg`
abbrev pub cpuid_reg_ebx : ℕ
cpuid_reg_ebx = 0

abbrev pub cpuid_reg_ecx : ℕ
cpuid_reg_ecx = 1

abbrev pub cpuid_reg_edx : ℕ
cpuid_reg_edx = 2

-- `CPUID_FEAT_GROUP`
abbrev pub cpuid_feat_group : ℕ → ℕ → ℕ → ℕ
cpuid_feat_group leaf reg bit = bit_or (leaf * 2 ^ 7) (bit_or (reg * 2 ^ 5) bit) % 2 ^ 16

-- The value that is left where the register is none of the three.
unfoldable pub cpu_assign_from_leaf : Leaf → ℕ → ℕ → ℕ
cpu_assign_from_leaf l val reg =
    if reg == cpuid_reg_ebx
    then l.regs.ebx
    else if reg == cpuid_reg_ecx
    then l.regs.ecx
    else if reg == cpuid_reg_edx
    then l.regs.edx
    else val

abbrev pub present : Regs → Leaf
present regs = record { regs = regs; supported = true }

unfoldable pub cpu_get_capabilities : (ℕ → ℕ → Regs) → Info → Info
cpu_get_capabilities cpuid cpu =
    let max_std = (cpuid 0 0).eax in
    let max_ext = (cpuid 0x80000000 0).eax in
    record {
      max_std_leaf = max_std;
      max_ext_leaf = max_ext;
      leaf_1 = if leb 1 max_std then present (cpuid 1 0) else cpu.leaf_1;
      leaf_7 = if leb 7 max_std then present (cpuid 7 0) else cpu.leaf_7;
      leaf_ext =
          if leb cpuid_ext_leaf max_ext then present (cpuid cpuid_ext_leaf 0) else cpu.leaf_ext;
    }

-- `(val & (1U << bit)) != 0` of a leaf's register, where the leaf is supported.
unfoldable pub leaf_has : Leaf → ℕ → ℕ → Bool
unfolding cpu_assign_from_leaf
leaf_has l reg bit =
    if not l.supported then false else not (bit_and (cpu_assign_from_leaf l 0 reg) (2 ^ bit) == 0)

unfoldable pub cpu_has_feat : Info → ℕ → Bool
cpu_has_feat cpu feat =
    let reg = feat / 2 ^ 5 % 2 ^ 3 in
    let leaf = feat / 2 ^ 8 % 2 ^ 8 in
    let bit = feat % 2 ^ 5 in
    if leaf == 1
    then leaf_has cpu.leaf_1 reg bit
    else if leaf == 7
    then leaf_has cpu.leaf_7 reg bit
    else if leaf == 2
    then leaf_has cpu.leaf_ext reg bit
    else false

-- `boot_cpu` before the first call
abbrev pub boot_cpu : Info
boot_cpu =
    let none_yet : Leaf = record {
      regs = record { eax = 0; ebx = 0; ecx = 0; edx = 0 };
      supported = false;
    } in
    record {
      max_std_leaf = 0;
      max_ext_leaf = 0;
      leaf_1 = none_yet;
      leaf_7 = none_yet;
      leaf_ext = none_yet;
    }

-- The `int` that it returns, as a word.
abbrev pub cpu_get_model : (ℕ → ℕ → Regs) → ℕ
cpu_get_model cpuid = (cpuid 0 0).ebx
