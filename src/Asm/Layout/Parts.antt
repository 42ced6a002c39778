-- ===== src/Asm/Layout/Parts.antt =====
-- What is said of program texts and of the states of the assembler, asm/src/Assembler.cpp, on them.
use llvm_mipt.Base.{
  length-append, ℕ, suc, ◌+◌, ◌≡◌, refl, ◌∙◌, ap, subst, arith, false, Option, none, some, List, [],
  ◌∷◌, ◌++◌, String, str_eq, if◌then◌else◌, length, inl, inr,
}
use llvm_mipt.Instr.{Instr, make_r_instr, make_i_instr}
use llvm_mipt.Asm.{Assembler, UnresolvedLabel, ok, find_label}
use llvm_mipt.Asm.Parser.{Stmt, r_instr, i_instr, i_instr_label, label, word, act}
use llvm_mipt.Asm.Invariant.{IsValid, IsLexed, act-IsValid}

-- The number of words that the statements stand for: one for each that defines no label.
abbrev pub count_words : List Stmt → ℕ
count_words [] = 0
count_words (label l ∷ ts) = count_words ts
count_words (t ∷ ts) = suc (count_words ts)

-- The number of words before the statement that defines the label, counted from `n`.
abbrev pub position : String → ℕ → List Stmt → Option ℕ
position l n [] = none
position l n (label k ∷ ts) = if str_eq k l then some n else position l n ts
position l n (t ∷ ts) = position l (suc n) ts

abbrev pub AllLexed : List Stmt → Type 0
AllLexed [] = Unit
AllLexed (t ∷ ts) = IsLexed t × AllLexed ts

abbrev pub IsOther : String → List Stmt → Type 0
IsOther k [] = Unit
IsOther k (label l ∷ ts) = (str_eq k l ≡ false) × IsOther k ts
IsOther k (t ∷ ts) = IsOther k ts

-- No label is defined twice.
abbrev pub Distinct : List Stmt → Type 0
Distinct [] = Unit
Distinct (label k ∷ ts) = IsOther k ts × Distinct ts
Distinct (t ∷ ts) = Distinct ts

-- The labels that are used in some statements are defined in the program.
abbrev pub UsesDefined : List Stmt → List Stmt → Type 0
UsesDefined all [] = Unit
UsesDefined all (i_instr_label o a b l ∷ ts) =
    ((n : ℕ) × (position l 0 all ≡ some n)) × UsesDefined all ts
UsesDefined all (t ∷ ts) = UsesDefined all ts

-- The labels that are still to come are not there yet.
abbrev pub Fresh : List (String × ℕ) → List Stmt → Type 0
Fresh labels [] = Unit
Fresh labels (label k ∷ ts) = (find_label k labels ≡ none) × Fresh labels ts
Fresh labels (t ∷ ts) = Fresh labels ts

abbrev pub uses : ℕ → List Stmt → List UnresolvedLabel
uses n [] = []
uses n (i_instr_label o a b l ∷ ts) = record { label = l; instr_idx = n } ∷ uses (suc n) ts
uses n (label l ∷ ts) = uses n ts
uses n (t ∷ ts) = uses (suc n) ts

abbrev pub or_else : Option ℕ → Option ℕ → Option ℕ
or_else none o = o
or_else (some n) o = some n

module _ {ℓ} {A : Type ℓ} where
  pub append_append : (us vs : List A) (u : A) → (us ++ u ∷ []) ++ vs ≡ us ++ u ∷ vs
  append_append [] vs u = refl
  append_append (x ∷ us) vs u = ap (λ ws. x ∷ ws) (append_append us vs u)

  pub append_nil : (us : List A) → us ++ [] ≡ us
  append_nil [] = refl
  append_nil (x ∷ us) = ap (λ ws. x ∷ ws) (append_nil us)

pub or_else-none : (o : Option ℕ) → or_else o none ≡ o
or_else-none none = refl
or_else-none (some n) = refl

pub IsValid-after :
    (t : Stmt) (s b : Assembler) → IsLexed t → IsValid s → act t s ≡ ok b → IsValid b
IsValid-after t s b h v e = elim (act-IsValid t s h v) [
  | inl (c, f, w, _) ↦ let same : c ≡ b = cc in subst IsValid same w
  | inr (l, n, _, _, f) ↦ cc
]

pub Fresh-defined :
    (k : String) (n : ℕ) (labels : List (String × ℕ)) (ts : List Stmt)
    → IsOther k ts
    → Fresh labels ts
    → Fresh ((k, n) ∷ labels) ts
unfolding find_label
Fresh-defined k n labels [] o f = tt
Fresh-defined k n labels (label l ∷ ts) o f =
    (rw (o.0) (f.0), Fresh-defined k n labels ts (o.1) (f.1))
Fresh-defined k n labels (r_instr _ _ _ _ ∷ ts) o f = Fresh-defined k n labels ts o f
Fresh-defined k n labels (i_instr _ _ _ _ ∷ ts) o f = Fresh-defined k n labels ts o f
Fresh-defined k n labels (i_instr_label _ _ _ _ ∷ ts) o f = Fresh-defined k n labels ts o f
Fresh-defined k n labels (word _ ∷ ts) o f = Fresh-defined k n labels ts o f

-- The word that a statement stands for, before the labels are resolved.
abbrev pub Encodes : Stmt → Instr → Type 0
Encodes (r_instr o a b c) i = make_r_instr o a b c ≡ some i
Encodes (i_instr o a b x) i = make_i_instr o a b x ≡ some i
Encodes (i_instr_label o a b l) i = make_i_instr o a b 0 ≡ some i
Encodes (label l) i = ⊥
Encodes (word w) i = i ≡ record { encoding = w }

abbrev pub AllEncoded : List Stmt → List Instr → Type 0
AllEncoded [] is = is ≡ []
AllEncoded (label l ∷ ts) is = AllEncoded ts is
AllEncoded (t ∷ ts) is =
    (i : Instr) × (js : List Instr) × (is ≡ i ∷ js) × Encodes t i × AllEncoded ts js

-- What statements do to a state that stand for `n` words of this form, put the labels at these
-- places, and leave these uses.
pub record Appends (s b : Assembler) (n : ℕ) (place : String → Option ℕ) (us : List UnresolvedLabel)
    (Form : List Instr → Type 0) : Type 0 where
  pub valid : IsValid b
  pub count : length b.instrs ≡ length s.instrs + n
  pub at_label : (l : String) → find_label l b.labels ≡ or_else (find_label l s.labels) (place l)
  pub used : b.unresolved_labels ≡ s.unresolved_labels ++ us
  pub new_words : List Instr
  pub appended : b.instrs ≡ s.instrs ++ new_words
  pub form : Form new_words

abbrev pub Laid : Assembler → Assembler → List Stmt → Type 0
Laid s b ts =
    Appends s b (count_words ts) (λ l. position l (length s.instrs) ts) (uses (length s.instrs) ts)
      (AllEncoded ts)

-- One more word comes first, with the uses that it leaves.
pub word_first :
    (s b : Assembler) (i : Instr) (ts : List Stmt) (new_uses us : List UnresolvedLabel)
    (Form : Instr → Type 0)
    → let s' : Assembler = record {
      instrs = s.instrs ++ i ∷ [];
      labels = s.labels;
      unresolved_labels = new_uses;
    } in
      Form i
      → (new_uses ++ uses (suc (length s.instrs)) ts ≡ s.unresolved_labels ++ us)
      → Laid s' b ts
      → Appends s b
          (suc (count_words ts))
          (λ l. position l (suc (length s.instrs)) ts)
          us
          (λ is. (j : Instr) × (js : List Instr) × (is ≡ j ∷ js) × Form j × AllEncoded ts js)
word_first s b i ts new_uses us Form good same r =
    let len : length (s.instrs ++ i ∷ []) ≡ suc (length s.instrs) =
      omega (arith, length-append s.instrs (i ∷ [])) in
    record {
      valid = r.valid;
      count = omega (arith, r.count, len);
      at_label =
          λ l. r.at_label l ∙ ap (λ n. or_else (find_label l s.labels) (position l n ts)) len;
      used = r.used ∙ ap (λ n. new_uses ++ uses n ts) len ∙ same;
      new_words = i ∷ r.new_words;
      appended = r.appended ∙ append_append s.instrs r.new_words i;
      form = (i, r.new_words, refl, good, r.form);
    }
