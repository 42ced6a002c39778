-- ===== src/Trace/Traced.antt =====
-- A direct description of what trace/TraceGenPass.cpp makes of a block.
use llvm_mipt.Base.{
  ℕ, ◌≡◌, refl, sym, ap, ap₂, ◌∙◌, fun_ext, arith, true, false, Bool-cases, inl, inr, some, List,
  [], ◌∷◌, ◌++◌, String, ◌==◌, if◌then◌else◌,
}
use mathlib.Core.List.{append_assoc}
use llvm_mipt.Trace.Pass.{
  Instruction, Item, original, to_string, end_text, add_call, TraceCall, find_non_phi,
  trace_instructions,
}
use llvm_mipt.Trace.Lines.{lines, dumped, render}

-- The last text of a return.
abbrev pub end_lines : String → Instruction → List String
end_lines name i = if i.is_return then end_text name ∷ [] else []

-- The block with each text before its instruction, those of PHIs and the ones that wait before the
-- next instruction that is none.
unfoldable pub traced_code : String → List String → List Instruction → List Item
traced_code name waiting [] = []
traced_code name waiting (i ∷ []) =
    dumped (waiting ++ to_string i ∷ end_lines name i) (original i ∷ [])
traced_code name waiting (i ∷ j ∷ is) = elim i.is_phi [
  | true ↦ original i ∷ traced_code name (waiting ++ to_string i ∷ []) (j ∷ is)
  | false ↦ dumped (waiting ++ to_string i ∷ []) (original i ∷ traced_code name [] (j ∷ is))
]

-- No instruction has the address.
abbrev pub NotIn : ℕ → List Instruction → Type 0
NotIn a [] = Unit
NotIn a (i ∷ is) = ((a == i.address) ≡ false) × NotIn a is

abbrev pub IsDistinct : List Instruction → Type 0
IsDistinct [] = Unit
IsDistinct (i ∷ is) = NotIn i.address is × IsDistinct is

abbrev pub last : Instruction → List Instruction → Instruction
last i [] = i
last i (j ∷ is) = last j is

abbrev pub at_place : ℕ → List String → ℕ → List String
at_place t ss a = if a == t then ss else []

-- The texts of a block by address: some at the place `t`, those of the calls, and the last one.
abbrev pub texts : String → Instruction → ℕ → List String → List TraceCall → ℕ → List String
texts name l t ss cs a = at_place t ss a ++ (lines cs a ++ at_place l.address (end_lines name l) a)

pub render_same :
    (f g : ℕ → List String) (a : ℕ) (is : List Instruction)
    → ((b : ℕ) → (a == b) ≡ false → f b ≡ g b)
    → NotIn a is
    → render f is ≡ render g is
unfolding render
render_same f g a [] h n = refl
render_same f g a (i ∷ is) h n =
    ap₂ (λ l r. dumped l (original i ∷ r)) (h i.address n.0) (render_same f g a is h n.1)

-- What the calls for a block come to.
pub record Places (name : String) (i : Instruction) (is : List Instruction) : Type 0 where
  pub place : Instruction
  pub calls : List TraceCall
  pub finds : find_non_phi (i ∷ is) ≡ some place
  pub traces : trace_instructions (i ∷ is) ≡ some calls
  pub apart :
      (a : ℕ)
      → NotIn a (i ∷ is)
      → (lines calls a ≡ []) × ((a == place.address) ≡ false) × ((a == (last i is).address) ≡ false)
  pub renders :
      (waiting : List String)
      → render (texts name (last i is) place.address waiting calls) (i ∷ is)
        ≡ traced_code name waiting (i ∷ is)

pub one-Places : (name : String) (i : Instruction) → i.is_phi ≡ false → Places name i []
unfolding find_non_phi trace_instructions lines render traced_code
one-Places name i e = record {
  place = i;
  calls = (i.address, to_string i) ∷ [];
  finds = rw e refl;
  traces = rw e refl;
  apart = λ a n. (rw n.0 refl, n.0, n.0);
  renders = λ waiting. ap (λ l. dumped l (original i ∷ [])) (rw (self i.address) refl);
}
  where
    self : (a : ℕ) → (a == a) ≡ true
    self a = ground arith

pub texts_later :
    (name : String) (l : Instruction) (t a : ℕ) (ss : List String) (s : String)
    (cs : List TraceCall)
    → texts name l t ss ((t, s) ∷ cs) a ≡ texts name l t (ss ++ s ∷ []) cs a
unfolding lines
texts_later name l t a ss s cs = elim (Bool-cases (a == t)) [
  | inl e ↦
      rw e (sym (append_assoc ss (s ∷ []) (lines cs a ++ at_place l.address (end_lines name l) a)))
  | inr e ↦ rw e refl
]

texts_elsewhere :
    (name : String) (l : Instruction) (t u a : ℕ) (ss : List String) (s : String)
    (cs : List TraceCall)
    → (t == a) ≡ false
    → texts name l t ss ((t, s) ∷ cs) a ≡ texts name l u [] cs a
unfolding lines
texts_elsewhere name l t u a ss s cs d =
    let d' : (a == t) ≡ false = ground (arith, d) in
    elim (Bool-cases (a == u)) [ inl e ↦ rw (d', e) refl | inr e ↦ rw (d', e) refl ]

pub traced_code_phi :
    (name : String) (waiting : List String) (i j : Instruction) (is : List Instruction)
    → i.is_phi ≡ true
    → traced_code name waiting (i ∷ j ∷ is)
      ≡ original i ∷ traced_code name (waiting ++ to_string i ∷ []) (j ∷ is)
unfolding traced_code
traced_code_phi name waiting i j is e =
    ap
      (λ b. elim b [
        | true ↦ original i ∷ traced_code name (waiting ++ to_string i ∷ []) (j ∷ is)
        | false ↦ dumped (waiting ++ to_string i ∷ []) (original i ∷ traced_code name [] (j ∷ is))
      ])
      e

pub traced_code_other :
    (name : String) (waiting : List String) (i j : Instruction) (is : List Instruction)
    → i.is_phi ≡ false
    → traced_code name waiting (i ∷ j ∷ is)
      ≡ dumped (waiting ++ to_string i ∷ []) (original i ∷ traced_code name [] (j ∷ is))
unfolding traced_code
traced_code_other name waiting i j is e =
    ap
      (λ b. elim b [
        | true ↦ original i ∷ traced_code name (waiting ++ to_string i ∷ []) (j ∷ is)
        | false ↦ dumped (waiting ++ to_string i ∷ []) (original i ∷ traced_code name [] (j ∷ is))
      ])
      e

-- A PHI waits for the place of the others.
pub phi-Places :
    (name : String) (i j : Instruction) (is : List Instruction)
    → i.is_phi ≡ true
    → NotIn i.address (j ∷ is)
    → Places name j is
    → Places name i (j ∷ is)
unfolding find_non_phi trace_instructions lines render dumped
phi-Places name i j is e n p = record {
  place = p.place;
  calls = (p.place.address, to_string i) ∷ p.calls;
  finds = rw e p.finds;
  traces = rw e (ap₂ (λ q c. add_call q (to_string i) c) p.finds p.traces);
  apart = λ a m. (let (u, v, w) = p.apart a m.1 in (rw (v, u) refl, v, w));
  renders = λ waiting.
      ap₂ (λ l r. dumped l (original i ∷ r)) (texts_absent waiting)
        (ap (λ g. render g (j ∷ is))
            (fun_ext
              λ a. texts_later name (last j is) p.place.address a waiting (to_string i) p.calls)
          ∙ p.renders (waiting ++ to_string i ∷ []))
      ∙ sym (traced_code_phi name waiting i j is e);
}
  where
    texts_absent :
        (waiting : List String)
        → texts name
            (last j is)
            p.place.address
            waiting
            ((p.place.address, to_string i) ∷ p.calls)
            i.address
          ≡ []
    texts_absent waiting = let (u, v, w) = p.apart i.address n in rw (v, u, w) refl

pub other-Places :
    (name : String) (i j : Instruction) (is : List Instruction)
    → i.is_phi ≡ false
    → NotIn i.address (j ∷ is)
    → Places name j is
    → Places name i (j ∷ is)
unfolding find_non_phi trace_instructions lines render dumped
other-Places name i j is e n p = record {
  place = i;
  calls = (i.address, to_string i) ∷ p.calls;
  finds = rw e refl;
  traces = rw e (ap (add_call (some i) (to_string i)) p.traces);
  apart = λ a m. (let (u, v, w) = p.apart a m.1 in (rw (m.0, u) refl, m.0, w));
  renders = λ waiting.
      ap₂ (λ l r. dumped l (original i ∷ r)) (texts_here waiting)
        (render_same (texts name (last j is) i.address waiting ((i.address, to_string i) ∷ p.calls))
            (texts name (last j is) p.place.address [] p.calls) i.address (j ∷ is)
            (λ b d.
              texts_elsewhere name (last j is) i.address p.place.address b waiting (to_string i)
                p.calls d)
            n
          ∙ p.renders [])
      ∙ sym (traced_code_other name waiting i j is e);
}
  where
    self : (i.address == i.address) ≡ true
    self = ground arith

    texts_here :
        (waiting : List String)
        → texts name (last j is) i.address waiting ((i.address, to_string i) ∷ p.calls) i.address
          ≡ waiting ++ to_string i ∷ []
    texts_here waiting = let (u, v, w) = p.apart i.address n in rw (self, u, w) refl
