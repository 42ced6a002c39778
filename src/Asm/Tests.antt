-- ===== src/Asm/Tests.antt =====
-- A loop of two instructions, assembled: `loop: addi t0, t0, 1` and `blt t0, t1, loop`.
use llvm_mipt.Base.{ℕ, ◌≡◌, refl, some, List, [], ◌∷◌, String, arith, ◌⊎◌}
use llvm_mipt.Instr.Opcodes.{code, of_code, get_instr_type}
use llvm_mipt.Instr.{Instr, r1, r2, get_type, get_opcode, make_i_instr, is_jump, is_branch}
use llvm_mipt.Asm.{
  Assembler, ok, err, empty, label_redefined, undefined_label, find_label, append_label,
  append_i_instr, append_i_instr_label, finalize, resolve, resolve_all, label_imm,
}
use llvm_mipt.Asm.Parser.{Stmt, i_instr, i_instr_label, label, act, act_all}
use llvm_mipt.Asm.Invariant.{IsValid, IsFresh, act-IsValid}
use llvm_mipt.Asm.Finalize.{AllDefined, Resolved, finalize-Resolved}
use llvm_mipt.Asm.Refinalize.{finalize-finalize, finalize_undefined, first_undefined}

abbrev loop_stmts : List Stmt
loop_stmts = label "loop" ∷ i_instr 0x02 12 12 1 ∷ i_instr_label 0x2c 12 13 "loop" ∷ []

-- After the actions, before `finalize`.
abbrev loop_asm : Assembler
loop_asm = record {
  instrs = record { encoding = 0x098c0001 } ∷ record { encoding = 0xb18d0000 } ∷ [];
  labels = ("loop", 0) ∷ [];
  unresolved_labels = record { label = "loop"; instr_idx = 1 } ∷ [];
}

abbrev loop_final : Assembler
loop_final = record loop_asm {
  instrs = record { encoding = 0x098c0001 } ∷ record { encoding = 0xb18dffff } ∷ [];
}

loop_actions : act_all loop_stmts empty ≡ ok loop_asm
unfolding act_all act append_label find_label append_i_instr append_i_instr_label make_i_instr
    get_instr_type of_code
loop_actions = refl

loop_finalize : finalize loop_asm ≡ ok loop_final
unfolding finalize resolve_all resolve find_label label_imm is_jump is_branch make_i_instr
    get_instr_type of_code get_opcode r1 r2 code
loop_finalize = refl

loop-IsValid : IsValid loop_asm
unfolding get_type get_opcode get_instr_type of_code
loop-IsValid = record {
  words = (omega arith, (omega arith, tt));
  within = (omega arith, tt);
  fixups = (
    omega arith,
    record { user = record { encoding = 0xb18d0000 }; there = refl; has_imm = refl },
    omega arith,
  );
}

loop_defined : AllDefined loop_asm.labels loop_asm.unresolved_labels
unfolding find_label
loop_defined = ((0, refl), tt)

finalize-Resolved_example :
    (js : List Instr) × (finalize loop_asm ≡ ok (record loop_asm { instrs = js }))
    × Resolved loop_asm.labels loop_asm.unresolved_labels loop_asm.instrs js
finalize-Resolved_example = finalize-Resolved loop_asm loop-IsValid loop_defined

finalize-finalize_example : finalize loop_final ≡ ok loop_final
finalize-finalize_example =
    finalize-finalize loop_asm loop_final loop-IsValid loop_defined loop_finalize

act-IsValid_example :
    ((b : Assembler) × (act (label "loop") loop_asm ≡ ok b)
      × IsValid b
      × IsFresh (label "loop") loop_asm)
    ⊎ ((l : String) × (n : ℕ) × (label "loop" ≡ label l)
        × (find_label l loop_asm.labels ≡ some n)
        × (act (label "loop") loop_asm ≡ err (label_redefined l)))
act-IsValid_example = act-IsValid (label "loop") loop_asm tt loop-IsValid

-- The same program without its label.
abbrev unlabelled : Assembler
unlabelled = record loop_asm { labels = [] }

unlabelled-IsValid : IsValid unlabelled
unlabelled-IsValid = record {
  words = loop-IsValid.words;
  within = tt;
  fixups = loop-IsValid.fixups;
}

unlabelled_first :
    first_undefined unlabelled.labels unlabelled.unresolved_labels
    ≡ some (record { label = "loop"; instr_idx = 1 })
unfolding first_undefined find_label
unlabelled_first = refl

finalize_undefined_example : (m : String) × (finalize unlabelled ≡ err (undefined_label m "loop"))
finalize_undefined_example =
    finalize_undefined unlabelled (record { label = "loop"; instr_idx = 1 }) unlabelled-IsValid
      unlabelled_first
