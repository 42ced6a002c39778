-- ===== src/Trace/Whole.antt =====
-- A whole function after the pass of trace/TraceGenPass.cpp.
use llvm_mipt.Base.{
  ℕ, ◌≡◌, refl, sym, ap, ap₂, ◌∙◌, fun_ext, true, Bool-cases, inl, inr, some, if◌then◌else◌, List,
  [], ◌∷◌, ◌++◌, map, String, ◌==◌,
}
use mathlib.Core.List.{append_assoc}
use llvm_mipt.Trace.Pass.{
  Instruction, Item, original, puts, to_string, BasicBlock, Function, begin_text, TraceCall,
  find_non_phi, trace_blocks, join_calls, insert_before, insert_calls, on_code, on_blocks,
  trace_exit, trace_function, run_on_function,
}
use llvm_mipt.Trace.Lines.{
  lines, dumped, render, insert_before-render, render-original, on_blocks-on_blocks,
  insert_calls-render,
}
use llvm_mipt.Trace.Traced.{end_lines, traced_code, traced_code_phi, traced_code_other, at_place}
use llvm_mipt.Trace.Proper.{
  AllApart, AreBlocks, traced_block, IsProper, traced, AllSpare, Apart-Spares, Spares-append,
  AllSpare-append, AllApart-AllSpare, Spares-none,
}
use llvm_mipt.Trace.Exits.{Agree, nothing, Spares, Agree-map, gathered}

-- The calls for the blocks, among others that dump nothing in them.
record Blocks (name : String) (bs : List (BasicBlock Instruction)) : Type 0 where
  calls : List TraceCall
  traces : trace_blocks name bs ≡ some calls
  spares : (is : List Instruction) → AllApart is bs → Spares calls is
  exits :
      (before : List TraceCall)
      → AllSpare before bs
      → map (on_code (λ is. trace_exit name (render (lines (before ++ calls)) is))) bs
        ≡ map (traced_block name) bs

no_place :
    (t : ℕ) (cs : List TraceCall) (is : List Instruction)
    → Spares cs is
    → Agree (lines cs) (at_place t []) is
no_place t cs is = Agree-map (lines cs) nothing (lines cs) (at_place t []) is λ a e. e ∙ blank a
  where
    blank : (a : ℕ) → [] ≡ at_place t [] a
    blank a = elim (Bool-cases (a == t)) [ inl e ↦ rw e refl | inr e ↦ rw e refl ]

traced_blocks : (name : String) (bs : List (BasicBlock Instruction)) → AreBlocks bs → Blocks name bs
unfolding trace_blocks lines
traced_blocks name [] h = record {
  calls = [];
  traces = refl;
  spares = λ is d. Spares-none is;
  exits = λ before s. refl;
}
traced_blocks name (b ∷ bs) h =
    let g = gathered name b.label b.code h.0 in
    let rest = traced_blocks name bs h.2 in
    record {
      calls = g.calls ++ rest.calls;
      traces = ap₂ join_calls g.traces rest.traces;
      spares = λ is d.
          Spares-append g.calls rest.calls is (Apart-Spares g.calls b.code is g.spares d.0.0)
            (rest.spares is d.1);
      exits = λ before s.
          ap₂ (λ c ds. record { label = b.label; code = c } ∷ ds)
            (g.exits before rest.calls [] (no_place g.place.address before b.code s.0)
              (rest.spares b.code h.1))
            (ap (λ cs. map (on_code (λ is. trace_exit name (render (lines cs) is))) bs)
                (sym (append_assoc before g.calls rest.calls))
              ∙ rest.exits (before ++ g.calls) (
                  AllSpare-append before g.calls bs s.1
                    (AllApart-AllSpare g.calls b.code bs g.spares h.1)));
    }

Agree-everywhere :
    (f g : ℕ → List String) (is : List Instruction) → ((a : ℕ) → f a ≡ g a) → Agree f g is
Agree-everywhere f g [] h = tt
Agree-everywhere f g (i ∷ is) h = (h i.address, Agree-everywhere f g is h)

same_place :
    (i place : Instruction) (is : List Instruction)
    → ¬ (i.is_phi ≡ true)
    → find_non_phi (i ∷ is) ≡ some place
    → i ≡ place
unfolding find_non_phi
same_place i place is h e = elim (Bool-cases i.is_phi) [
  | inl phi ↦ absurd (h phi)
  | inr other ↦
      let found : find_non_phi (i ∷ is) ≡ some i =
        ap (λ b. if b then find_non_phi is else some i) other in
      let both : some i ≡ some place = sym found ∙ e in cc
]

-- After the call for the function.
started :
    (a : ℕ) (s : String) (f : Function Instruction)
    → on_blocks (insert_before a s) (on_blocks (map original) f)
      ≡ on_blocks (render (lines ((a, s) ∷ []))) f
started a s f =
    on_blocks-on_blocks (insert_before a s) (map original) f
    ∙ ap (λ g. on_blocks g f)
        (fun_ext
          λ is. ap (insert_before a s) (sym (render-original is)) ∙ insert_before-render a s [] is)

run_on :
    (name label : String) (is : List Instruction) (bs : List (BasicBlock Instruction))
    → let f : Function Instruction = record {
      name = name;
      entry = record { label = label; code = is };
      others = bs;
    } in
      IsProper f → run_on_function f ≡ some (traced f)
unfolding run_on_function trace_blocks lines traced
run_on name label [] bs h = absurd (h.starts tt)
run_on name label (i ∷ is) bs h =
    let f : Function Instruction = record {
      name = name;
      entry = record { label = label; code = i ∷ is };
      others = bs;
    } in
    let g = gathered name label (i ∷ is) h.blocks.0 in
    let rest = traced_blocks name bs h.blocks.2 in
    let begin = (i.address, begin_text name) ∷ [] in
    let cs = g.calls ++ rest.calls in
    let here = same_place i g.place is h.starts g.finds in
    ap (λ o. trace_function f o (i ∷ is)) (ap₂ join_calls g.traces rest.traces)
    ∙ ap some (
        ap (λ q. on_blocks (trace_exit name) q)
          (ap (insert_calls cs) (started i.address (begin_text name) f)
            ∙ insert_calls-render cs begin f)
        ∙ on_blocks-on_blocks (trace_exit name) (render (lines (begin ++ cs))) f
        ∙ ap₂
            (λ c ds. record {
              name = name;
              entry = record { label = label; code = c };
              others = ds;
            })
            (g.exits begin rest.calls (begin_text name ∷ [])
              (Agree-everywhere (lines begin) (at_place g.place.address (begin_text name ∷ []))
                (i ∷ is)
                (λ a. ap (λ (j : Instruction). at_place j.address (begin_text name ∷ []) a) here))
              (rest.spares (i ∷ is) h.blocks.1))
            (ap (λ ds. map (on_code (λ js. trace_exit name (render (lines ds) js))) bs)
                (sym (append_assoc begin g.calls rest.calls))
              ∙ rest.exits (begin ++ g.calls) (
                  AllSpare-append begin g.calls bs
                    (AllApart-AllSpare begin (i ∷ is) bs (λ a n. rw n.0 refl) h.blocks.1)
                    (AllApart-AllSpare g.calls (i ∷ is) bs g.spares h.blocks.1))))

-- The instructions without the calls.
pub originals : List Item → List Instruction
originals [] = []
originals (original i ∷ is) = i ∷ originals is
originals (puts s ∷ is) = originals is

originals-dumped : (ss : List String) (is : List Item) → originals (dumped ss is) ≡ originals is
unfolding originals dumped
originals-dumped [] is = refl
originals-dumped (s ∷ ss) is = originals-dumped ss is

originals-traced_code :
    (name : String) (waiting : List String) (is : List Instruction)
    → originals (traced_code name waiting is) ≡ is
unfolding originals traced_code
originals-traced_code name waiting [] = refl
originals-traced_code name waiting (i ∷ []) =
    originals-dumped (waiting ++ to_string i ∷ end_lines name i) (original i ∷ [])
originals-traced_code name waiting (i ∷ j ∷ is) =
    let later = originals-traced_code name (waiting ++ to_string i ∷ []) (j ∷ is) in
    let rest = originals-traced_code name [] (j ∷ is) in
    elim (Bool-cases i.is_phi) [
      | inl phi ↦ ap originals (traced_code_phi name waiting i j is phi) ∙ ap (◌∷◌ i) later
      | inr other ↦
          ap originals (traced_code_other name waiting i j is other)
          ∙ originals-dumped (waiting ++ to_string i ∷ []) _
          ∙ ap (◌∷◌ i) rest
    ]

on_blocks-originals-traced : (f : Function Instruction) → on_blocks originals (traced f) ≡ f
unfolding traced
on_blocks-originals-traced f =
    ap₂
      (λ c bs. record {
        name = f.name;
        entry = record { label = f.entry.label; code = c };
        others = bs;
      })
      (originals-traced_code f.name _ f.entry.code) (blocks f.others)
  where
    blocks :
        (bs : List (BasicBlock Instruction))
        → map (on_code originals) (map (traced_block f.name) bs) ≡ bs
    blocks [] = refl
    blocks (b ∷ bs) =
        ap₂ (λ c ds. record { label = b.label; code = c } ∷ ds)
          (originals-traced_code f.name _ b.code) (blocks bs)

-- For a function whose blocks are not empty, do not end in a PHI and, the entry block, do not start
-- with one, and whose instructions have each their own address, the pass succeeds. Its three loops
-- leave what one walk over each block makes: the texts of the instructions are dumped one after the
-- other, each right before its instruction, where the name of the block and the PHIs wait for the
-- next instruction that is no PHI, with the name of the function at the start of the entry block
-- and before each return. Without the inserted calls it is the function as it was.
pub run_on_function-traced :
    (f : Function Instruction)
    → IsProper f
    → (run_on_function f ≡ some (traced f)) × (on_blocks originals (traced f) ≡ f)
run_on_function-traced f h =
    (run_on f.name f.entry.label f.entry.code f.others h, on_blocks-originals-traced f)
