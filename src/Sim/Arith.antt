-- ===== src/Sim/Arith.antt =====
-- `lui` in asm/src/qrisc-sim.cpp and in asm/qrisc.md.
use llvm_mipt.Base.{
  ℕ, ◌+◌, ◌*◌, ◌/◌, ◌%◌, ◌^◌, ◌<◌, ◌≡◌, ◌↔◌, ◌∙◌, subst, some, arith, bit_and, bit_or,
}
use llvm_mipt.Base.Bits.{or_high, and_mask, zero-bit_or}
use llvm_mipt.Base.Word.{shl32}
use llvm_mipt.Instr.Opcodes.{op_lui}
use llvm_mipt.Instr.{Instr, r1, r2, imm}
use llvm_mipt.Sim.State.{Machine, write_reg}
use llvm_mipt.Sim.Exec.{exec, i_op, advance}

-- `lui` as the specification has it: the low half of the register under the immediate.
abbrev pub lui_doc : ℕ → ℕ → ℕ
lui_doc x i = bit_or (bit_and x 0xffff) (shl32 i 16)

-- The interpreter's `lui` keeps the upper half of its source register as well. It gives the word of
-- the specification exactly if the bits of that half are all among the immediate's.
pub exec-lui :
    (pc i : ℕ) (ins : Instr) (m : Machine)
    → imm ins ≡ some i
    → i < 2 ^ 16
    → (exec op_lui pc ins m
        ≡ advance pc (write_reg (r1 ins) (bit_or (m.reg (r2 ins)) (shl32 i 16)) m))
      × ((bit_or (m.reg (r2 ins)) (shl32 i 16) ≡ lui_doc (m.reg (r2 ins)) i)
          ↔ (bit_or (m.reg (r2 ins) / 2 ^ 16) i ≡ i))
unfolding exec i_op
exec-lui pc i ins m h lt =
    let x = m.reg (r2 ins) in
    let e : shl32 i 16 ≡ i * 2 ^ 16 = omega arith in
    let split : x / 2 ^ 16 * 2 ^ 16 + x % 2 ^ 16 ≡ x = omega arith in
    let code : bit_or x (i * 2 ^ 16) ≡ bit_or (x / 2 ^ 16) i * 2 ^ 16 + x % 2 ^ 16 =
      subst (λ t. bit_or t (i * 2 ^ 16) ≡ bit_or (x / 2 ^ 16) i * 2 ^ 16 + x % 2 ^ 16) split
        (or_high 16 (x / 2 ^ 16) i (x % 2 ^ 16) (omega arith)) in
    let masked : 0 * 2 ^ 16 + x % 2 ^ 16 ≡ bit_and x 0xffff = omega (arith, and_mask 16 x) in
    let doc : bit_or (bit_and x 0xffff) (i * 2 ^ 16) ≡ i * 2 ^ 16 + x % 2 ^ 16 =
      subst (λ t. bit_or t (i * 2 ^ 16) ≡ i * 2 ^ 16 + x % 2 ^ 16) masked
        (or_high 16 0 i (x % 2 ^ 16) (omega arith) ∙ omega (arith, zero-bit_or i)) in
    (rw h, rw (e, code, doc) (λ q. omega arith, λ q. omega arith))
