-- ===== src/Asm/Parser.antt =====
-- asm/src/parser.y: the grammar over tokens, with the action of each rule, and the assembly
-- statements that it accepts. `yyerror` exits.
use llvm_mipt.Base.{ℕ, ◌≡◌, refl, sym, ◌∙◌, ap, fun_ext, List, [], ◌∷◌, ◌++◌, String}
use llvm_mipt.Asm.{
  Assembler, Result, ok, err, syntax_error, ◌>>=◌, append_label, append_r_instr, append_i_instr,
  append_i_instr_label, append_word, finalize,
}

pub data Token : Type 0 where
  tk_newline tk_comma tk_colon tk_macro_word : Token
  tk_identifier : String → Token
  tk_r_instr tk_i_instr tk_imm tk_reg : ℕ → Token

-- `program`, `instr_list` and `instr`, from the assembler's state at this point.
unfoldable pub program : List Token → Assembler → Result Assembler
program [] s = finalize s
program (tk_newline ∷ ts) s = program ts s
program (tk_r_instr o ∷ tk_reg a ∷ tk_comma ∷ tk_reg b ∷ tk_comma ∷ tk_reg c ∷ ts) s =
    append_r_instr o a b c s >>= program ts
program (tk_i_instr o ∷ tk_reg a ∷ tk_comma ∷ tk_reg b ∷ tk_comma ∷ tk_imm x ∷ ts) s =
    append_i_instr o a b x s >>= program ts
program (tk_i_instr o ∷ tk_reg a ∷ tk_comma ∷ tk_reg b ∷ tk_comma ∷ tk_identifier l ∷ ts) s =
    append_i_instr_label o a b l s >>= program ts
program (tk_identifier l ∷ tk_colon ∷ ts) s = append_label l s >>= program ts
program (tk_macro_word ∷ tk_imm w ∷ ts) s = program ts (append_word w s)
program _ s = err syntax_error

-- A statement of the language, for each rule that has an action.
pub data Stmt : Type 0 where
  r_instr : ℕ → ℕ → ℕ → ℕ → Stmt
  i_instr : ℕ → ℕ → ℕ → ℕ → Stmt
  i_instr_label : ℕ → ℕ → ℕ → String → Stmt
  label : String → Stmt
  word : ℕ → Stmt

unfoldable pub act : Stmt → Assembler → Result Assembler
act (r_instr o a b c) s = append_r_instr o a b c s
act (i_instr o a b x) s = append_i_instr o a b x s
act (i_instr_label o a b l) s = append_i_instr_label o a b l s
act (label l) s = append_label l s
act (word w) s = ok (append_word w s)

unfoldable pub act_all : List Stmt → Assembler → Result Assembler
act_all [] s = ok s
act_all (t ∷ ts) s = act t s >>= act_all ts

pub tokens : Stmt → List Token
tokens (r_instr o a b c) = tk_r_instr o ∷ tk_reg a ∷ tk_comma ∷ tk_reg b ∷ tk_comma ∷ tk_reg c ∷ []
tokens (i_instr o a b x) = tk_i_instr o ∷ tk_reg a ∷ tk_comma ∷ tk_reg b ∷ tk_comma ∷ tk_imm x ∷ []
tokens (i_instr_label o a b l) =
    tk_i_instr o ∷ tk_reg a ∷ tk_comma ∷ tk_reg b ∷ tk_comma ∷ tk_identifier l ∷ []
tokens (label l) = tk_identifier l ∷ tk_colon ∷ []
tokens (word w) = tk_macro_word ∷ tk_imm w ∷ []

pub tokens_all : List Stmt → List Token
tokens_all [] = []
tokens_all (t ∷ ts) = tokens t ++ tk_newline ∷ tokens_all ts

program-tokens :
    (t : Stmt) (ts : List Token) (s : Assembler)
    → program (tokens t ++ tk_newline ∷ ts) s ≡ (act t s >>= program ts)
unfolding program act tokens
program-tokens (r_instr o a b c) ts s = refl
program-tokens (i_instr o a b x) ts s = refl
program-tokens (i_instr_label o a b l) ts s = refl
program-tokens (label l) ts s = refl
program-tokens (word w) ts s = refl

>>=-assoc :
    {A B C : Type 0} (m : Result A) (f : A → Result B) (g : B → Result C)
    → (m >>= f >>= g) ≡ (m >>= λ a. f a >>= g)
>>=-assoc (ok a) f g = refl
>>=-assoc (err e) f g = refl

-- The text of a list of statements, one to a line, is accepted; parsing it performs their actions
-- in order, up to the first that fails, and then finalizes.
pub program-tokens_all :
    (ts : List Stmt) (s : Assembler) → program (tokens_all ts) s ≡ (act_all ts s >>= finalize)
unfolding tokens_all act_all
program-tokens_all [] s = unfold program in refl
program-tokens_all (t ∷ ts) s =
    program-tokens t (tokens_all ts) s
    ∙ ap (λ k. act t s >>= k) (fun_ext (λ a. program-tokens_all ts a))
    ∙ sym (>>=-assoc (act t s) (act_all ts) finalize)
