-- ===== src/Asm.antt =====
-- asm/src/Assembler.h, Assembler.cpp and the grammar of asm/src/parser.y: instructions are
-- appended in source order, labels become instruction indices, and `finalize` fills in the
-- immediates that name labels. `exit(1)` and a failed assert are errors.
pub mod Parser
pub mod Invariant
pub mod Finalize
pub mod Refinalize
pub mod Layout
mod Tests
use llvm_mipt.Base.{
  ℕ, ◌+◌, Bool, true, false, not, ◌||◌, Option, none, some, List, [], ◌∷◌, ◌++◌, String, str_eq,
  if◌then◌else◌, length, get_elem?, set,
}
use llvm_mipt.Base.Word.{sub32, mul32}
use llvm_mipt.Instr.{Instr, r1, r2, get_opcode, make_r_instr, make_i_instr, is_jump, is_branch}
use llvm_mipt.Instr.Print.{get_mnemonic, print, Piece}

pub record UnresolvedLabel : Type 0 where
  pub label : String
  pub instr_idx : ℕ

pub record Assembler : Type 0 where
  pub instrs : List Instr
  pub labels : List (String × ℕ)
  pub unresolved_labels : List UnresolvedLabel

pub data AsmError : Type 0 where
  label_redefined : String → AsmError
  undefined_label : String → String → AsmError
  syntax_error : AsmError
  assert_failed : AsmError
  out_of_range : AsmError

pub data Result {ℓ} (A : Type ℓ) : Type ℓ where
  ok : A → Result A
  err : AsmError → Result A

infixl 5 ◌>>=◌
abbrev pub ◌>>=◌ {ℓ κ} : {A : Type ℓ} {B : Type κ} → Result A → (A → Result B) → Result B
ok a >>= f = f a
err e >>= f = err e

abbrev pub or_err {ℓ} : {A : Type ℓ} → Option A → AsmError → Result A
or_err none e = err e
or_err (some a) e = ok a

abbrev pub empty : Assembler
empty = record { instrs = []; labels = []; unresolved_labels = [] }

unfoldable pub find_label : String → List (String × ℕ) → Option ℕ
find_label k [] = none
find_label k ((j, n) ∷ m) = if str_eq j k then some n else find_label k m

abbrev pub get_next_instr_idx : Assembler → ℕ
get_next_instr_idx a = length a.instrs

unfoldable pub append_label : String → Assembler → Result Assembler
append_label label a = elim (find_label label a.labels) [
  | some n ↦ err (label_redefined label)
  | none ↦ ok (record a { labels = (label, get_next_instr_idx a) ∷ a.labels })
]

abbrev pub push_back : Assembler → Instr → Assembler
push_back a i = record a { instrs = a.instrs ++ i ∷ [] }

unfoldable pub append_r_instr : ℕ → ℕ → ℕ → ℕ → Assembler → Result Assembler
append_r_instr opcode a b c s = do
  i ← or_err (make_r_instr opcode a b c) assert_failed
  ok (push_back s i)

unfoldable pub append_i_instr : ℕ → ℕ → ℕ → ℕ → Assembler → Result Assembler
append_i_instr opcode a b imm s = do
  i ← or_err (make_i_instr opcode a b imm) assert_failed
  ok (push_back s i)

-- The overload that takes a label: the immediate is 0 until `finalize`.
unfoldable pub append_i_instr_label : ℕ → ℕ → ℕ → String → Assembler → Result Assembler
append_i_instr_label opcode a b label s = do
  i ← or_err (make_i_instr opcode a b 0) assert_failed
  ok (record s {
    instrs = s.instrs ++ i ∷ [];
    unresolved_labels =
        s.unresolved_labels ++ record { label = label; instr_idx = get_next_instr_idx s } ∷ [];
  })

unfoldable pub append_word : ℕ → Assembler → Assembler
append_word w s = push_back s (record { encoding = w })

-- `Imm = It->second - UL.InstrIdx`, times 4 unless the user is a jump or a branch.
unfoldable pub label_imm : Instr → ℕ → ℕ → ℕ
label_imm user target idx =
    let diff = sub32 target idx in
    if not (is_jump user || is_branch user) then mul32 diff 4 else diff

-- One round of the loop of `finalize`.
unfoldable pub resolve : List (String × ℕ) → UnresolvedLabel → List Instr → Result (List Instr)
resolve labels ul instrs = do
  user ← or_err (get_elem? instrs ul.instr_idx) out_of_range
  target ← or_err (find_label ul.label labels) (undefined_label (get_mnemonic user) ul.label)
  user' ←
      or_err
        (make_i_instr (get_opcode user) (r1 user) (r2 user) (label_imm user target ul.instr_idx))
        assert_failed
  ok (set instrs ul.instr_idx user')

unfoldable pub resolve_all :
    List (String × ℕ) → List UnresolvedLabel → List Instr → Result (List Instr)
resolve_all labels [] instrs = ok instrs
resolve_all labels (ul ∷ uls) instrs = resolve labels ul instrs >>= resolve_all labels uls

-- The list of unresolved labels is not cleared.
unfoldable pub finalize : Assembler → Result Assembler
finalize a = do
  instrs ← resolve_all a.labels a.unresolved_labels a.instrs
  ok (record a { instrs = instrs })

print_all : List Instr → Result (List Piece)
print_all [] = ok []
print_all (i ∷ is) = do ps ← or_err (print i) assert_failed; qs ← print_all is; ok (ps ++ qs)

unfoldable pub print_asm : Assembler → Result (List Piece)
unfolding print_all
print_asm a = print_all a.instrs
