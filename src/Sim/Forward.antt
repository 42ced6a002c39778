-- ===== src/Sim/Forward.antt =====
-- Where the instructions of asm/src/qrisc-sim.cpp go on, and the ones that only go forward.
use llvm_mipt.Base.{
  ℕ, ◌+◌, ◌*◌, ◌^◌, ◌<◌, ◌≡◌, refl, sym, ap, ◌∙◌, subst, Bool, true, false, not, ◌&&◌, ◌||◌, ◌==◌,
  ==_iff, ltb, leb, Option, none, some, arith, Bool-cases, Option-cases, inl, inr, ◌⊎◌,
}
use llvm_mipt.Base.Word.{add32, to_u32-times_four}
use llvm_mipt.Instr.Opcodes.{
  Opcode, op_add, op_addi, op_and, op_andi, op_or, op_ori, op_xor, op_xori, op_sub, op_subi, op_mul,
  op_muli, op_divu, op_diviu, op_remu, op_remiu, op_slt, op_sltu, op_slti, op_sltiu, op_lui,
  op_load, op_store, op_beq, op_bne, op_bgt, op_bge, op_blt, op_ble, op_jalr, code, of_code,
  code-of_code,
}
use llvm_mipt.Instr.{Instr, imm, get_opcode, is_branch, is_jump}
use llvm_mipt.Instr.Kinds.{is_jump-code, is_branch-code}
use llvm_mipt.Sim.State.{Machine, Outcome, ok, stop, get_pc}
use llvm_mipt.Sim.Exec.{exec, advance, branch, jump_target}
use llvm_mipt.Sim.Run.{execute, set_pc}
use llvm_mipt.Sim.Isa.Steps.{Ensures, Ensures-bind}
use llvm_mipt.Sim.Isa.{execute-Frame}

abbrev is_ahead : Option ℕ → Bool
is_ahead none = false
is_ahead (some i) = ltb 0 i && ltb i (2 ^ 15)

-- No store, no `jalr`, and if it is a branch, then to an instruction after it.
unfoldable pub is_forward : Instr → Bool
is_forward ins =
    not (get_opcode ins == code op_store)
    && not (is_jump ins)
    && (not (is_branch ins) || is_ahead (imm ins))

-- The next instruction, or the target of a branch.
abbrev pub Goes : ℕ → Instr → ℕ → Type 0
Goes pc ins next =
    (next ≡ add32 pc 4)
    ⊎ ((is_branch ins ≡ true) × (i : ℕ) × (imm ins ≡ some i) × (next ≡ jump_target pc i))

advance-Goes :
    (pc : ℕ) (ins : Instr) (r : Outcome Machine) → Ensures (λ q. Goes pc ins q.1) (advance pc r)
advance-Goes pc ins (ok m) = inl refl
advance-Goes pc ins (stop e) = tt

branch-Goes :
    (c : Bool) (pc : ℕ) (ins : Instr) (m : Machine)
    → is_branch ins ≡ true
    → Ensures (λ q. Goes pc ins q.1) (branch c pc ins m)
unfolding branch
branch-Goes false pc ins m h = inl refl
branch-Goes true pc ins m h = elim (Option-cases (imm ins)) [
  | inl e ↦ rw (e, branch) tt
  | inr (i, e) ↦ rw (e, branch) (inr (h, i, refl, refl))
]

exec-Goes :
    (o : Opcode) (pc : ℕ) (ins : Instr) (m : Machine)
    → of_code (get_opcode ins) ≡ some o
    → is_jump ins ≡ false
    → Ensures (λ q. Goes pc ins q.1) (exec o pc ins m)
unfolding exec code
exec-Goes op_add pc ins m h j = advance-Goes pc ins _
exec-Goes op_addi pc ins m h j = advance-Goes pc ins _
exec-Goes op_and pc ins m h j = advance-Goes pc ins _
exec-Goes op_andi pc ins m h j = advance-Goes pc ins _
exec-Goes op_or pc ins m h j = advance-Goes pc ins _
exec-Goes op_ori pc ins m h j = advance-Goes pc ins _
exec-Goes op_xor pc ins m h j = advance-Goes pc ins _
exec-Goes op_xori pc ins m h j = advance-Goes pc ins _
exec-Goes op_sub pc ins m h j = advance-Goes pc ins _
exec-Goes op_subi pc ins m h j = advance-Goes pc ins _
exec-Goes op_mul pc ins m h j = advance-Goes pc ins _
exec-Goes op_muli pc ins m h j = advance-Goes pc ins _
exec-Goes op_divu pc ins m h j = advance-Goes pc ins _
exec-Goes op_diviu pc ins m h j = advance-Goes pc ins _
exec-Goes op_remu pc ins m h j = advance-Goes pc ins _
exec-Goes op_remiu pc ins m h j = advance-Goes pc ins _
exec-Goes op_slt pc ins m h j = advance-Goes pc ins _
exec-Goes op_sltu pc ins m h j = advance-Goes pc ins _
exec-Goes op_slti pc ins m h j = advance-Goes pc ins _
exec-Goes op_sltiu pc ins m h j = advance-Goes pc ins _
exec-Goes op_lui pc ins m h j = advance-Goes pc ins _
exec-Goes op_load pc ins m h j = advance-Goes pc ins _
exec-Goes op_store pc ins m h j = advance-Goes pc ins _
exec-Goes op_beq pc ins m h j = branch-Goes _ pc ins m (is_branch-code ins op_beq h)
exec-Goes op_bne pc ins m h j = branch-Goes _ pc ins m (is_branch-code ins op_bne h)
exec-Goes op_bgt pc ins m h j = branch-Goes _ pc ins m (is_branch-code ins op_bgt h)
exec-Goes op_bge pc ins m h j = branch-Goes _ pc ins m (is_branch-code ins op_bge h)
exec-Goes op_blt pc ins m h j = branch-Goes _ pc ins m (is_branch-code ins op_blt h)
exec-Goes op_ble pc ins m h j = branch-Goes _ pc ins m (is_branch-code ins op_ble h)
exec-Goes op_jalr pc ins m h j = let z = is_jump-code ins op_jalr h in cc

set_pc-Goes :
    (P : ℕ → Type 0) (m : Machine) (next : ℕ)
    → P next
    → Ensures (λ m'. P (get_pc m')) (set_pc m next)
unfolding set_pc
set_pc-Goes P m next h = elim (Bool-cases (leb m.mem_size next)) [
  | inl e ↦ rw (e, set_pc) tt
  | inr e ↦ rw (e, set_pc) h
]

pub execute-Goes :
    (ins : Instr) (m : Machine)
    → is_jump ins ≡ false
    → Ensures (λ m'. Goes (get_pc m) ins (get_pc m')) (execute ins m)
unfolding execute
execute-Goes ins m j = elim (Option-cases (of_code (get_opcode ins))) [
  | inl e ↦ rw (e, execute) tt
  | inr (o, e) ↦
      rw (e, execute)
        (Ensures-bind (λ q. Goes (get_pc m) ins q.1) (λ m'. Goes (get_pc m) ins (get_pc m'))
          (exec o (get_pc m) ins m) _ (exec-Goes o (get_pc m) ins m e j)
          λ q g. set_pc-Goes (Goes (get_pc m) ins) q.0 q.1 g)
]

-- A short distance forward is added to the address.
jump_target-ahead :
    (k i : ℕ) → i < 2 ^ 15 → k * 4 + 2 ^ 17 < 2 ^ 32 → jump_target (k * 4) i ≡ (k + i) * 4
unfolding jump_target
jump_target-ahead k i h l = rw (to_u32-times_four i (omega arith)) (omega arith)

forward_parts :
    (ins : Instr)
    → is_forward ins ≡ true
    → ((get_opcode ins == code op_store) ≡ false)
      × (is_jump ins ≡ false)
      × (is_branch ins ≡ true → is_ahead (imm ins) ≡ true)
unfolding is_forward
forward_parts ins f = (ground arith, ground arith, λ b. ground arith)

ahead_some : (o : Option ℕ) (i : ℕ) → o ≡ some i → is_ahead o ≡ true → (0 < i) × (i < 2 ^ 15)
ahead_some none i e h = cc
ahead_some (some j) i e h =
    let same : j ≡ i = cc in subst (λ n. (0 < n) × (n < 2 ^ 15)) same (ground arith, ground arith)

keeps_byte :
    (ins : Instr) (m m' : Machine)
    → (get_opcode ins == code op_store) ≡ false
    → execute ins m ≡ ok m'
    → m'.byte ≡ m.byte
keeps_byte ins m m' f e =
    let (o, c, frame) = execute-Frame ins m m' e in
    elim (frame.store) [
      | inl st ↦
          let same : code op_store ≡ get_opcode ins =
            ap code (sym st) ∙ code-of_code (get_opcode ins) o c in
          let z : (get_opcode ins == code op_store) ≡ true = (==_iff _ _).1 (sym same) in cc
      | inr st ↦ st.same_byte
    ]

-- An instruction that goes forward, at index `k`, leads to a later one and leaves the memory alone.
pub execute-is_forward :
    (ins : Instr) (m m' : Machine) (k : ℕ)
    → is_forward ins ≡ true
    → execute ins m ≡ ok m'
    → get_pc m ≡ k * 4
    → k * 4 + 2 ^ 17 < 2 ^ 32
    → (k' : ℕ) × (k < k') × (get_pc m' ≡ k' * 4) × (m'.byte ≡ m.byte)
execute-is_forward ins m m' k f e p l =
    let (store, jump, ahead) = forward_parts ins f in
    let goes : Goes (get_pc m) ins (get_pc m') =
      subst (Ensures (λ r. Goes (get_pc m) ins (get_pc r))) e (execute-Goes ins m jump) in
    let bytes = keeps_byte ins m m' store e in
    elim goes [
      | inl n ↦ (k + 1, omega arith, omega (arith, n, p, l), bytes)
      | inr (b, i, x, n) ↦
          let (low, high) = ahead_some (imm ins) i x (ahead b) in
          (k + i, omega arith, n ∙ rw p (jump_target-ahead k i high l), bytes)
    ]
