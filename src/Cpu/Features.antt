-- ===== src/Cpu/Features.antt =====
-- What kernel/cpu_feats.c finds of the processor's features.
use sync_kernel.Prelude.{
  ℕ, ◌+◌, ◌*◌, ◌/◌, ◌%◌, ◌^◌, ◌<◌, ◌≡◌, refl, ◌∙◌, Bool, true, false, ◌&&◌, not, ◌==◌, leb,
  if◌then◌else◌, arith, bit_and, Bool-cases, inl, inr,
}
use native.Mathlib.Nat.{one-le-pow, mod-lt}
use sync_kernel.Prelude.Bits.{bit_and_fields, bit_and_digit, bit_and-zero}
use sync_kernel.Cpu.{
  Regs, Leaf, Info, cpuid_ext_leaf, cpuid_reg_ebx, cpuid_reg_ecx, cpuid_reg_edx,
  cpu_assign_from_leaf, cpu_get_capabilities, leaf_has, cpu_has_feat, boot_cpu,
}

-- The registers that features stand in, by name.
pub data Reg : Type 0 where
  ebx ecx edx : Reg

abbrev pub code : Reg → ℕ
code ebx = cpuid_reg_ebx
code ecx = cpuid_reg_ecx
code edx = cpuid_reg_edx

abbrev pub value : Regs → Reg → ℕ
value r ebx = r.ebx
value r ecx = r.ecx
value r edx = r.edx

abbrev pub is_set : ℕ → ℕ → Bool
is_set val bit = val / 2 ^ bit % 2 == 1

-- A feature as the comment of `CPUID_FEAT_GROUP` lays it out: bit, register and leaf.
abbrev pub packed : ℕ → Reg → ℕ → ℕ
packed leaf r bit = leaf * 2 ^ 8 + code r * 2 ^ 5 + bit

bit_and-one : (a : ℕ) → bit_and a 1 ≡ a % 2
bit_and-one a = omega (arith, bit_and_digit a 1, bit_and-zero (a / 2) (a / 2) (omega arith))

bit_and-pow : (val k : ℕ) → bit_and val (2 ^ k) ≡ val / 2 ^ k % 2 * 2 ^ k
bit_and-pow val k =
    let pos = one-le-pow k 2 (omega arith) in
    let split : val / 2 ^ k * 2 ^ k + val % 2 ^ k ≡ val = grind arith in
    let one : 1 * 2 ^ k + 0 ≡ 2 ^ k = omega arith in
    let below : val % 2 ^ k < 2 ^ k = mod-lt val pos in
    ground (
      arith,
      bit_and_fields k (val / 2 ^ k) (val % 2 ^ k) 1 0 below (omega arith),
      bit_and-one (val / 2 ^ k),
      bit_and-zero (val % 2 ^ k) (val % 2 ^ k) (omega arith),
    )

bit_test : (val k : ℕ) → not (bit_and val (2 ^ k) == 0) ≡ is_set val k
bit_test val k =
    let pos = one-le-pow k 2 (omega arith) in
    rw (bit_and-pow val k) (elim (Bool-cases (val / 2 ^ k % 2 == 0)) [
      | inl e ↦ let z : val / 2 ^ k % 2 ≡ 0 = ground arith in rw z (ground arith)
      | inr e ↦ let z : val / 2 ^ k % 2 ≡ 1 = ground arith in rw z (ground arith)
    ])

-- The register that a feature's code names.
assigned : (l : Leaf) (r : Reg) → cpu_assign_from_leaf l 0 (code r) ≡ value l.regs r
unfolding cpu_assign_from_leaf
assigned l ebx = refl
assigned l ecx = refl
assigned l edx = refl

pub leaf_has_lem :
    (l : Leaf) (r : Reg) (bit : ℕ)
    → leaf_has l (code r) bit ≡ (l.supported && is_set (value l.regs r) bit)
unfolding leaf_has
leaf_has_lem l r bit = rw (assigned l r) (elim (Bool-cases l.supported) [
  | inl e ↦ rw e (bit_test (value l.regs r) bit)
  | inr e ↦ rw e refl
])

pub code-lt : (r : Reg) → code r < 3
code-lt ebx = omega arith
code-lt ecx = omega arith
code-lt edx = omega arith

-- The fields of a number that is laid out as the comment says.
fields :
    (leaf : ℕ) (r : Reg) (bit : ℕ)
    → leaf < 2 ^ 8
    → bit < 2 ^ 5
    → (packed leaf r bit / 2 ^ 5 % 2 ^ 3 ≡ code r)
      × (packed leaf r bit / 2 ^ 8 % 2 ^ 8 ≡ leaf)
      × (packed leaf r bit % 2 ^ 5 ≡ bit)
fields leaf r bit small low = let c = code-lt r in (omega arith, omega arith, omega arith)

pub cpu_has_feat-packed :
    (cpu : Info) (r : Reg) (bit : ℕ)
    → bit < 2 ^ 5
    → (cpu_has_feat cpu (packed 1 r bit) ≡ leaf_has cpu.leaf_1 (code r) bit)
      × (cpu_has_feat cpu (packed 7 r bit) ≡ leaf_has cpu.leaf_7 (code r) bit)
      × (cpu_has_feat cpu (packed 2 r bit) ≡ leaf_has cpu.leaf_ext (code r) bit)
unfolding cpu_has_feat
cpu_has_feat-packed cpu r bit low =
    let (r1, l1, b1) = fields 1 r bit (omega arith) low in
    let (r7, l7, b7) = fields 7 r bit (omega arith) low in
    let (r2, l2, b2) = fields 2 r bit (omega arith) low in
    (rw (r1, l1, b1) refl, rw (r7, l7, b7) refl, rw (r2, l2, b2) refl)

-- What the instruction says of a bit, where the processor has the leaf.
abbrev pub says : Bool → Regs → Reg → ℕ → Bool
says has_leaf regs r bit = has_leaf && is_set (value regs r) bit

leaf_says :
    (has_leaf : Bool) (regs : Regs) (l : Leaf) (r : Reg) (bit : ℕ)
    → l.supported ≡ false
    → leaf_has (if has_leaf then record { regs = regs; supported = true } else l) (code r) bit
      ≡ says has_leaf regs r bit
leaf_says true regs l r bit e = leaf_has_lem (record { regs = regs; supported = true }) r bit
leaf_says false regs l r bit e = leaf_has_lem l r bit ∙ rw e refl

-- Once the capabilities have been read, `cpu_has_feat` of a feature that is laid out as the comment
-- in kernel/cpu_feats.h says (bit, register, leaf) is what the processor says: the bit of the
-- register that the instruction gives for the leaf, and false where the processor has no such leaf.
-- The number 2 stands for the extended leaf.
pub cpu_has_feat-capabilities :
    (cpuid : ℕ → ℕ → Regs) (r : Reg) (bit : ℕ)
    → bit < 2 ^ 5
    → (cpu_has_feat (cpu_get_capabilities cpuid boot_cpu) (packed 1 r bit)
        ≡ says (leb 1 (cpuid 0 0).eax) (cpuid 1 0) r bit)
      × (cpu_has_feat (cpu_get_capabilities cpuid boot_cpu) (packed 7 r bit)
          ≡ says (leb 7 (cpuid 0 0).eax) (cpuid 7 0) r bit)
      × (cpu_has_feat (cpu_get_capabilities cpuid boot_cpu) (packed 2 r bit)
          ≡ says (leb cpuid_ext_leaf (cpuid 0x80000000 0).eax) (cpuid cpuid_ext_leaf 0) r bit)
unfolding cpu_get_capabilities
cpu_has_feat-capabilities cpuid r bit low =
    let (one, seven, ext) = cpu_has_feat-packed (cpu_get_capabilities cpuid boot_cpu) r bit low in
    (
      one ∙ leaf_says _ _ boot_cpu.leaf_1 r bit refl,
      seven ∙ leaf_says _ _ boot_cpu.leaf_7 r bit refl,
      ext ∙ leaf_says _ _ boot_cpu.leaf_ext r bit refl,
    )
