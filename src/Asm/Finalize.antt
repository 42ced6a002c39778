-- ===== src/Asm/Finalize.antt =====
-- `Assembler::finalize`: which instructions it changes, what it puts there, and when it stops.
use llvm_mipt.Base.{
  ℕ, ◌+◌, ◌%◌, ◌^◌, ◌<◌, ◌≡◌, ◌≢◌, refl, sym, ◌∙◌, some, List, [], ◌∷◌, zero, suc, String, arith,
  length, get_elem?, set, length-set, get_elem?-set_self, get_elem?-set_ne, get_elem?-lt,
}
use llvm_mipt.Instr.{Instr, r1, r2, imm, extend_imm, get_type, get_opcode, make_i_instr}
use llvm_mipt.Instr.Decode.{r1-lt, r2-lt}
use llvm_mipt.Asm.{
  Assembler, UnresolvedLabel, ok, find_label, label_imm, resolve, resolve_all, finalize,
}
use llvm_mipt.Asm.Invariant.{IsFixup, Fixups, Words, IsValid, make_i_instr-lexed}

-- The instruction that used the label has got the label's distance for its immediate, and nothing
-- else of it has changed.
pub record Patched (labels : List (String × ℕ)) (is js : List Instr) (u : UnresolvedLabel)
    : Type 0 where
  pub user : Instr
  pub target : ℕ
  pub patch : Instr
  pub before : get_elem? is u.instr_idx ≡ some user
  pub defined : find_label u.label labels ≡ some target
  pub after : get_elem? js u.instr_idx ≡ some patch
  pub same_opcode : get_opcode patch ≡ get_opcode user
  pub same_r1 : r1 patch ≡ r1 user
  pub same_r2 : r2 patch ≡ r2 user
  pub new_imm : imm patch ≡ extend_imm (get_type user) (label_imm user target u.instr_idx % 2 ^ 16)
  pub made :
      make_i_instr (get_opcode user) (r1 user) (r2 user) (label_imm user target u.instr_idx)
      ≡ some patch

abbrev pub AllPatched : List (String × ℕ) → List Instr → List Instr → List UnresolvedLabel → Type 0
AllPatched labels is js [] = Unit {0}
AllPatched labels is js (u ∷ us) = Patched labels is js u × AllPatched labels is js us

abbrev pub NotUser : ℕ → List UnresolvedLabel → Type 0
NotUser k [] = Unit {0}
NotUser k (u ∷ us) = (u.instr_idx ≢ k) × NotUser k us

abbrev pub AllDefined : List (String × ℕ) → List UnresolvedLabel → Type 0
AllDefined labels [] = Unit {0}
AllDefined labels (u ∷ us) = ((t : ℕ) × (find_label u.label labels ≡ some t)) × AllDefined labels us

-- What the program of a finalized assembler is.
pub record Resolved (labels : List (String × ℕ)) (us : List UnresolvedLabel) (is js : List Instr)
    : Type 0 where
  pub same_length : length js ≡ length is
  pub words : Words js
  pub patched : AllPatched labels is js us
  pub untouched : (k : ℕ) → NotUser k us → get_elem? js k ≡ get_elem? is k

Words-set :
    (is : List Instr) (k : ℕ) (i : Instr) → Words is → i.encoding < 2 ^ 32 → Words (set is k i)
Words-set [] k i w h = tt
Words-set (j ∷ is) zero i w h = (h, w.1)
Words-set (j ∷ is) (suc k) i w h = (w.0, Words-set is k i w.1 h)

IsFixup-set :
    (is : List Instr) (k j : ℕ) (i : Instr) → k ≢ j → IsFixup is j → IsFixup (set is k i) j
IsFixup-set is k j i ne f = record {
  user = f.user;
  there = get_elem?-set_ne is k j i ne ∙ f.there;
  has_imm = f.has_imm;
}

-- A write below the bound leaves the later places as they were.
pub Fixups-set :
    (is : List Instr) (k : ℕ) (i : Instr) (lo : ℕ) (us : List UnresolvedLabel)
    → k < lo
    → Fixups is lo us
    → Fixups (set is k i) lo us
Fixups-set is k i lo [] h f = omega (arith, length-set is k i)
Fixups-set is k i lo (u ∷ us) h f = (
  f.0,
  IsFixup-set is k u.instr_idx i (omega arith) f.1,
  Fixups-set is k i (u.instr_idx + 1) us (omega arith) f.2,
)

NotUser-below :
    (is : List Instr) (k lo : ℕ) (us : List UnresolvedLabel)
    → k < lo
    → Fixups is lo us
    → NotUser k us
NotUser-below is k lo [] h f = tt
NotUser-below is k lo (u ∷ us) h f =
    (omega arith, NotUser-below is k (u.instr_idx + 1) us (omega arith) f.2)

-- One round of the loop, where the place is a fixup and the label is defined.
pub record Step (labels : List (String × ℕ)) (u : UnresolvedLabel) (is : List Instr) : Type 0 where
  pub user : Instr
  pub target : ℕ
  pub patch : Instr
  pub before : get_elem? is u.instr_idx ≡ some user
  pub defined : find_label u.label labels ≡ some target
  pub word : patch.encoding < 2 ^ 32
  pub same_opcode : get_opcode patch ≡ get_opcode user
  pub same_r1 : r1 patch ≡ r1 user
  pub same_r2 : r2 patch ≡ r2 user
  pub new_imm : imm patch ≡ extend_imm (get_type user) (label_imm user target u.instr_idx % 2 ^ 16)
  pub made :
      make_i_instr (get_opcode user) (r1 user) (r2 user) (label_imm user target u.instr_idx)
      ≡ some patch
  pub result : resolve labels u is ≡ ok (set is u.instr_idx patch)

pub resolve-Step :
    (labels : List (String × ℕ)) (u : UnresolvedLabel) (is : List Instr) (t : ℕ)
    → IsFixup is u.instr_idx
    → find_label u.label labels ≡ some t
    → Step labels u is
unfolding get_type resolve
resolve-Step labels u is t f d =
    let (i, made, lt, op, ty, e1, e2, ei) =
      make_i_instr-lexed (get_opcode f.user) (r1 f.user) (r2 f.user)
        (label_imm f.user t u.instr_idx) f.has_imm (r1-lt f.user) (r2-lt f.user) in
    record {
      user = f.user;
      target = t;
      patch = i;
      before = f.there;
      defined = d;
      word = lt;
      same_opcode = op;
      same_r1 = e1;
      same_r2 = e2;
      new_imm = ei;
      made = made;
      result = rw (f.there, d, made, resolve);
    }

-- A later write elsewhere does not undo a patch, and an earlier one elsewhere is not seen by it.
Patched-set :
    (labels : List (String × ℕ)) (is js : List Instr) (k : ℕ) (i : Instr) (u : UnresolvedLabel)
    → k ≢ u.instr_idx
    → Patched labels (set is k i) js u
    → Patched labels is js u
Patched-set labels is js k i u ne p = record {
  user = p.user;
  target = p.target;
  patch = p.patch;
  before = sym (get_elem?-set_ne is k u.instr_idx i ne) ∙ p.before;
  defined = p.defined;
  after = p.after;
  same_opcode = p.same_opcode;
  same_r1 = p.same_r1;
  same_r2 = p.same_r2;
  new_imm = p.new_imm;
  made = p.made;
}

AllPatched-set :
    (labels : List (String × ℕ)) (is js : List Instr) (k : ℕ) (i : Instr)
    (us : List UnresolvedLabel)
    → NotUser k us
    → AllPatched labels (set is k i) js us
    → AllPatched labels is js us
AllPatched-set labels is js k i [] n p = tt
AllPatched-set labels is js k i (u ∷ us) n p = (
  Patched-set labels is js k i u (λ e. n.0 (sym e)) p.0,
  AllPatched-set labels is js k i us n.1 p.1,
)

resolve_all-Resolved :
    (labels : List (String × ℕ)) (us : List UnresolvedLabel) (lo : ℕ) (is : List Instr)
    → Fixups is lo us
    → Words is
    → AllDefined labels us
    → (js : List Instr) × (resolve_all labels us is ≡ ok js) × Resolved labels us is js
unfolding resolve_all
resolve_all-Resolved labels [] lo is f w d =
    (is, refl, record { same_length = refl; words = w; patched = tt; untouched = λ k n. refl })
resolve_all-Resolved labels (u ∷ us) lo is f w d =
    let s = resolve-Step labels u is d.0.0 f.1 d.0.1 in
    let is' : List Instr = set is u.instr_idx s.patch in
    let later : NotUser u.instr_idx us =
      NotUser-below is u.instr_idx (u.instr_idx + 1) us (omega arith) f.2 in
    let (js, run, r) =
      resolve_all-Resolved labels us (u.instr_idx + 1) is'
        (Fixups-set is u.instr_idx s.patch (u.instr_idx + 1) us (omega arith) f.2)
        (Words-set is u.instr_idx s.patch w s.word) d.1 in
    (
      js,
      rw s.result run,
      record {
        same_length = r.same_length ∙ length-set is u.instr_idx s.patch;
        words = r.words;
        patched = (
          record {
            user = s.user;
            target = s.target;
            patch = s.patch;
            before = s.before;
            defined = s.defined;
            after =
                r.untouched u.instr_idx later
                ∙ get_elem?-set_self is u.instr_idx s.patch (get_elem?-lt is _ s.user s.before);
            same_opcode = s.same_opcode;
            same_r1 = s.same_r1;
            same_r2 = s.same_r2;
            new_imm = s.new_imm;
            made = s.made;
          },
          AllPatched-set labels is js u.instr_idx s.patch us later r.patched,
        );
        untouched = λ k n. r.untouched k n.1 ∙ get_elem?-set_ne is u.instr_idx k s.patch n.0;
      },
    )

-- On a well-formed state whose labels are all defined, `finalize` succeeds: the labels stay, the
-- program keeps its length, each instruction that used a label gets the distance to it, with opcode
-- and registers as they were, and every other instruction stays.
pub finalize-Resolved :
    (a : Assembler)
    → IsValid a
    → AllDefined a.labels a.unresolved_labels
    → (js : List Instr) × (finalize a ≡ ok (record a { instrs = js }))
      × Resolved a.labels a.unresolved_labels a.instrs js
unfolding finalize
finalize-Resolved a v d =
    let (js, run, r) =
      resolve_all-Resolved a.labels a.unresolved_labels 0 a.instrs v.fixups v.words d in
    (js, rw run, r)
