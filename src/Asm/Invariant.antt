-- ===== src/Asm/Invariant.antt =====
-- Well-formed assembler states: every label names a place in the program, and every unresolved
-- label names an I-type instruction that is there, each instruction once and in order.
use llvm_mipt.Base.{
  ℕ, ◌+◌, ◌^◌, ◌≤◌, ◌<◌, ◌≡◌, refl, sym, ◌∙◌, ap, subst, true, none, some, List, [], ◌∷◌, ◌++◌,
  String, arith, ◌⊎◌, inl, inr, length, get_elem?, get_elem?-append, get_elem?-append_self,
  get_elem?-lt, length-append, Option-cases, ◌%◌,
}
use llvm_mipt.Instr.Opcodes.{get_instr_type, r_type}
use llvm_mipt.Instr.{
  Instr, r1, r2, imm, extend_imm, get_type, get_opcode, is_i, make_i_instr, make_r_instr,
}
use llvm_mipt.Instr.RoundTrip.{
  make_i_instr-fields, make_r_instr-fields, opcode_of_type, is_i-ne-invalid, r_type-ne-invalid,
}
use llvm_mipt.Asm.{
  Assembler, UnresolvedLabel, ok, err, empty, find_label, label_redefined, append_label,
  append_r_instr, append_i_instr, append_i_instr_label, append_word, push_back,
}
use llvm_mipt.Asm.Parser.{Stmt, r_instr, i_instr, i_instr_label, label, word, act}

-- The place holds an instruction that `finalize` can give an immediate.
pub record IsFixup (instrs : List Instr) (idx : ℕ) : Type 0 where
  pub user : Instr
  pub there : get_elem? instrs idx ≡ some user
  pub has_imm : is_i (get_type user) ≡ true

abbrev pub Fixups : List Instr → ℕ → List UnresolvedLabel → Type 0
Fixups instrs lo [] = lo ≤ length instrs
Fixups instrs lo (u ∷ us) =
    (lo ≤ u.instr_idx) × IsFixup instrs u.instr_idx × Fixups instrs (u.instr_idx + 1) us

abbrev pub Words : List Instr → Type 0
Words [] = Unit {0}
Words (i ∷ is) = (i.encoding < 2 ^ 32) × Words is

abbrev pub Within : ℕ → List (String × ℕ) → Type 0
Within n [] = Unit {0}
Within n ((l, t) ∷ m) = (t ≤ n) × Within n m

pub record IsValid (a : Assembler) : Type 0 where
  pub words : Words a.instrs
  pub within : Within (length a.instrs) a.labels
  pub fixups : Fixups a.instrs 0 a.unresolved_labels

Words-append : (is : List Instr) (i : Instr) → Words is → i.encoding < 2 ^ 32 → Words (is ++ i ∷ [])
Words-append [] i w h = (h, tt)
Words-append (j ∷ is) i w h = (w.0, Words-append is i w.1 h)

Within-mono : (m n : ℕ) (ls : List (String × ℕ)) → m ≤ n → Within m ls → Within n ls
Within-mono m n [] h w = tt
Within-mono m n ((l, t) ∷ ls) h w = (omega arith, Within-mono m n ls h w.1)

IsFixup-append : (is : List Instr) (i : Instr) (k : ℕ) → IsFixup is k → IsFixup (is ++ i ∷ []) k
IsFixup-append is i k f = record {
  user = f.user;
  there = get_elem?-append is (i ∷ []) k (get_elem?-lt is k f.user f.there) ∙ f.there;
  has_imm = f.has_imm;
}

Fixups-append :
    (is : List Instr) (i : Instr) (lo : ℕ) (us : List UnresolvedLabel)
    → Fixups is lo us
    → Fixups (is ++ i ∷ []) lo us
Fixups-append is i lo [] f = omega (arith, length-append is (i ∷ []))
Fixups-append is i lo (u ∷ us) f =
    (f.0, IsFixup-append is i u.instr_idx f.1, Fixups-append is i (u.instr_idx + 1) us f.2)

Fixups-append_self :
    (is : List Instr) (i : Instr) (l : String) (lo : ℕ) (us : List UnresolvedLabel)
    → is_i (get_type i) ≡ true
    → Fixups is lo us
    → Fixups (is ++ i ∷ []) lo (us ++ record { label = l; instr_idx = length is } ∷ [])
Fixups-append_self is i l lo [] t f = (
  f,
  record { user = i; there = get_elem?-append_self is i; has_imm = t },
  omega (arith, length-append is (i ∷ [])),
)
Fixups-append_self is i l lo (u ∷ us) t f =
    (f.0, IsFixup-append is i u.instr_idx f.1, Fixups-append_self is i l (u.instr_idx + 1) us t f.2)

pub empty-IsValid : IsValid empty
empty-IsValid = record { words = tt; within = tt; fixups = omega arith }

push_back-IsValid :
    (a : Assembler) (i : Instr) → i.encoding < 2 ^ 32 → IsValid a → IsValid (push_back a i)
push_back-IsValid a i h v = record {
  words = Words-append a.instrs i v.words h;
  within = Within-mono _ _ a.labels (omega (arith, length-append a.instrs (i ∷ []))) v.within;
  fixups = Fixups-append a.instrs i 0 a.unresolved_labels v.fixups;
}

-- What the scanner gives for a statement: registers below 32, an opcode of the token's kind, and a
-- 32-bit word.
abbrev pub IsLexed : Stmt → Type 0
IsLexed (r_instr o a b c) = (get_instr_type o ≡ r_type) × (a < 32) × (b < 32) × (c < 32)
IsLexed (i_instr o a b x) = (is_i (get_instr_type o) ≡ true) × (a < 32) × (b < 32)
IsLexed (i_instr_label o a b l) = (is_i (get_instr_type o) ≡ true) × (a < 32) × (b < 32)
IsLexed (label l) = Unit
IsLexed (word w) = w < 2 ^ 32

pub make_i_instr-lexed :
    (n a b x : ℕ)
    → is_i (get_instr_type n) ≡ true
    → a < 32
    → b < 32
    → (i : Instr) × (make_i_instr n a b x ≡ some i)
      × (i.encoding < 2 ^ 32)
      × (get_opcode i ≡ n)
      × (get_type i ≡ get_instr_type n)
      × (r1 i ≡ a)
      × (r2 i ≡ b)
      × (imm i ≡ extend_imm (get_instr_type n) (x % 2 ^ 16))
unfolding get_type
make_i_instr-lexed n a b x t ha hb =
    let (o, e, ty) = opcode_of_type n (is_i-ne-invalid _ t) in
    let (i, made, lt, op, e1, e2, ei) = make_i_instr-fields o a b x (ap is_i (sym ty) ∙ t) ha hb in
    (
      i,
      subst (λ m. make_i_instr m a b x ≡ some i) e made,
      lt,
      op ∙ e,
      ap get_instr_type (op ∙ e),
      e1,
      e2,
      ei ∙ ap (λ u. extend_imm u (x % 2 ^ 16)) (sym ty),
    )

pub make_r_instr-lexed :
    (n a b c : ℕ)
    → get_instr_type n ≡ r_type
    → a < 32
    → b < 32
    → c < 32
    → (i : Instr) × (make_r_instr n a b c ≡ some i) × (i.encoding < 2 ^ 32)
make_r_instr-lexed n a b c t ha hb hc =
    let (o, e, ty) = opcode_of_type n (λ z. r_type-ne-invalid (sym t ∙ z)) in
    let (i, made, lt, _, _, _, _) = make_r_instr-fields o a b c (sym ty ∙ t) ha hb hc in
    (i, subst (λ m. make_r_instr m a b c ≡ some i) e made, lt)

-- The statement defines no label that is there already.
abbrev pub IsFresh : Stmt → Assembler → Type 0
IsFresh (label l) s = find_label l s.labels ≡ none
IsFresh _ s = Unit

-- Each action of the parser on a well-formed state succeeds, and keeps it well formed, or fails
-- because a label is defined twice: it succeeds only where the statement defines no label or one
-- that is not there yet, and the error names the label of the statement, which is there already.
-- In particular no assert fails.
pub act-IsValid :
    (t : Stmt) (a : Assembler)
    → IsLexed t
    → IsValid a
    → ((b : Assembler) × (act t a ≡ ok b) × IsValid b × IsFresh t a)
      ⊎ ((l : String) × (n : ℕ) × (t ≡ label l)
          × (find_label l a.labels ≡ some n)
          × (act t a ≡ err (label_redefined l)))
unfolding act append_r_instr append_i_instr append_i_instr_label append_label append_word
act-IsValid (r_instr o a b c) s (t, ha, hb, hc) v =
    let (i, made, lt) = make_r_instr-lexed o a b c t ha hb hc in
    inl (push_back s i, rw made, push_back-IsValid s i lt v, tt)
act-IsValid (i_instr o a b x) s (t, ha, hb) v =
    let (i, made, lt, _, _, _, _, _) = make_i_instr-lexed o a b x t ha hb in
    inl (push_back s i, rw made, push_back-IsValid s i lt v, tt)
act-IsValid (i_instr_label o a b l) s (t, ha, hb) v =
    let (i, made, lt, _, ty, _, _, _) = make_i_instr-lexed o a b 0 t ha hb in
    let w : IsValid (push_back s i) = push_back-IsValid s i lt v in
    inl (
      _,
      rw made,
      record {
        words = w.words;
        within = w.within;
        fixups = Fixups-append_self s.instrs i l 0 s.unresolved_labels (ap is_i ty ∙ t) v.fixups;
      },
      tt,
    )
act-IsValid (label l) s h v = elim (Option-cases (find_label l s.labels)) [
  | inl e ↦ inl (
    record s { labels = (l, length s.instrs) ∷ s.labels },
    rw (e, append_label),
    record { words = v.words; within = (omega arith, v.within); fixups = v.fixups },
    e,
  )
  | inr (n, e) ↦ inr (l, n, refl, e, rw (e, append_label))
]
act-IsValid (word w) s h v = inl (_, refl, push_back-IsValid s (record { encoding = w }) h v, tt)
