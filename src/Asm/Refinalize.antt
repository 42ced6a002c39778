-- ===== src/Asm/Refinalize.antt =====
-- `Assembler::finalize` on a state that is finalized already, and on one with an undefined label.
-- The grammar calls it once for each run of `yyparse` and leaves the list of users as it is.
use llvm_mipt.Base.{
  ℕ, ◌+◌, ◌≡◌, refl, ap, subst, Option, none, some, List, [], ◌∷◌, zero, suc, String, arith, inl,
  inr, get_elem?, set, Option-cases,
}
use llvm_mipt.Instr.{Instr, r1, r2, get_opcode, is_jump, is_branch, make_i_instr}
use llvm_mipt.Instr.Print.{get_mnemonic}
use llvm_mipt.Asm.{
  Assembler, UnresolvedLabel, ok, err, find_label, undefined_label, label_imm, resolve, resolve_all,
  finalize,
}
use llvm_mipt.Asm.Invariant.{Fixups, IsValid}
use llvm_mipt.Asm.Finalize.{
  Patched, AllPatched, AllDefined, resolve-Step, Fixups-set, finalize-Resolved,
}

set-get_elem? :
    {A : Type 0} (xs : List A) (k : ℕ) (x : A) → get_elem? xs k ≡ some x → set xs k x ≡ xs
set-get_elem? [] k x h = refl
set-get_elem? (y ∷ xs) zero x h = cc
set-get_elem? (y ∷ xs) (suc k) x h = ap (λ t. y ∷ t) (set-get_elem? xs k x h)

label_imm-opcode :
    (i j : Instr) (t k : ℕ) → get_opcode i ≡ get_opcode j → label_imm i t k ≡ label_imm j t k
unfolding label_imm is_jump is_branch
label_imm-opcode i j t k h = rw h

resolve-Patched :
    (labels : List (String × ℕ)) (u : UnresolvedLabel) (is js : List Instr)
    → Patched labels is js u
    → resolve labels u js ≡ ok js
unfolding resolve
resolve-Patched labels u is js p =
    let again : make_i_instr (get_opcode p.patch) (r1 p.patch) (r2 p.patch)
          (label_imm p.patch p.target u.instr_idx)
        ≡ some p.patch =
      rw
        (
          label_imm-opcode p.patch p.user p.target u.instr_idx p.same_opcode,
          p.same_opcode,
          p.same_r1,
          p.same_r2,
        )
        p.made in
    rw (p.after, p.defined, again, resolve) (ap ok (set-get_elem? js u.instr_idx p.patch p.after))

resolve_all-Patched :
    (labels : List (String × ℕ)) (us : List UnresolvedLabel) (is js : List Instr)
    → AllPatched labels is js us
    → resolve_all labels us js ≡ ok js
unfolding resolve_all
resolve_all-Patched labels [] is js p = refl
resolve_all-Patched labels (u ∷ us) is js p =
    rw (resolve-Patched labels u is js p.0) (resolve_all-Patched labels us is js p.1)

-- Finalizing twice is finalizing once: on the result of a first call, a second call succeeds and
-- changes nothing.
pub finalize-finalize :
    (a b : Assembler)
    → IsValid a
    → AllDefined a.labels a.unresolved_labels
    → finalize a ≡ ok b
    → finalize b ≡ ok b
finalize-finalize a b v d e =
    let (js, run, r) = finalize-Resolved a v d in
    let same : record a { instrs = js } ≡ b = cc in
    subst (λ c. finalize c ≡ ok c) same
      (unfold finalize in
        rw (resolve_all-Patched a.labels a.unresolved_labels a.instrs js r.patched))

-- The first use of a label that the program does not define.
unfoldable pub first_undefined : List (String × ℕ) → List UnresolvedLabel → Option UnresolvedLabel
first_undefined labels [] = none
first_undefined labels (u ∷ us) = elim (find_label u.label labels) [
  | none ↦ some u
  | some t ↦ first_undefined labels us
]

resolve_all_undefined :
    (labels : List (String × ℕ)) (us : List UnresolvedLabel) (lo : ℕ) (is : List Instr)
    (u : UnresolvedLabel)
    → Fixups is lo us
    → first_undefined labels us ≡ some u
    → (m : String) × (resolve_all labels us is ≡ err (undefined_label m u.label))
unfolding resolve_all resolve first_undefined
resolve_all_undefined labels [] lo is u f h = cc
resolve_all_undefined labels (v ∷ us) lo is u f h =
    elim (Option-cases (find_label v.label labels)) [
      | inl e ↦
          let same : some v ≡ some u = rw (e, first_undefined) at h in
          let stop : resolve labels v is ≡ err (undefined_label (get_mnemonic f.1.user) v.label) =
            rw (f.1.there, e, resolve) in
          (get_mnemonic f.1.user, rw stop (cc))
      | inr (t, e) ↦
          let s = resolve-Step labels v is t f.1 e in
          let (m, run) =
            resolve_all_undefined labels us (v.instr_idx + 1) (set is v.instr_idx s.patch) u
              (Fixups-set is v.instr_idx s.patch (v.instr_idx + 1) us (omega arith) f.2)
              (rw (e, first_undefined) at h) in
          (m, rw s.result run)
    ]

-- Where a label is not defined, `finalize` stops with an error that names the first such use.
pub finalize_undefined :
    (a : Assembler) (u : UnresolvedLabel)
    → IsValid a
    → first_undefined a.labels a.unresolved_labels ≡ some u
    → (m : String) × (finalize a ≡ err (undefined_label m u.label))
unfolding finalize
finalize_undefined a u v h =
    let (m, run) = resolve_all_undefined a.labels a.unresolved_labels 0 a.instrs u v.fixups h in
    (m, rw run)
