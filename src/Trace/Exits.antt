-- ===== src/Trace/Exits.antt =====
-- One block after the three loops of trace/TraceGenPass.cpp.
use llvm_mipt.Base.{
  ℕ, ◌≡◌, refl, sym, ap, ap₂, ◌∙◌, fun_ext, Bool, true, false, Bool-cases, inl, inr, some, List, [],
  ◌∷◌, ◌++◌, String, ◌==◌, if◌then◌else◌,
}
use mathlib.Core.List.{append_assoc, append-nil}
use llvm_mipt.Trace.Pass.{
  Instruction, Item, original, block_text, end_text, TraceCall, find_non_phi, trace_block, add_call,
  insert_before, back, trace_return, trace_exit,
}
use llvm_mipt.Trace.Lines.{lines, lines-append, dumped, render, insert_before-render}
use llvm_mipt.Trace.Traced.{
  end_lines, traced_code, NotIn, IsDistinct, last, at_place, texts, texts_later, Places, one-Places,
  phi-Places, other-Places,
}

pub places :
    (name : String) (i : Instruction) (is : List Instruction)
    → (last i is).is_phi ≡ false
    → IsDistinct (i ∷ is)
    → Places name i is
places name i [] e d = one-Places name i e
places name i (j ∷ is) e d =
    let rest = places name j is e d.1 in
    elim (Bool-cases i.is_phi) [
      | inl phi ↦ phi-Places name i j is phi d.0 rest
      | inr other ↦ other-Places name i j is other d.0 rest
    ]

back-dumped :
    (ss : List String) (i : Item) (is : List Item) → back (dumped ss (i ∷ is)) ≡ back (i ∷ is)
unfolding dumped back
back-dumped [] i is = refl
back-dumped (s ∷ []) i is = refl
back-dumped (s ∷ t ∷ ss) i is = back-dumped (t ∷ ss) i is

back-cons :
    (i : Item) (ss : List String) (j : Item) (is : List Item)
    → back (i ∷ dumped ss (j ∷ is)) ≡ back (dumped ss (j ∷ is))
unfolding dumped back
back-cons i [] j is = refl
back-cons i (s ∷ ss) j is = refl

back-render :
    (f : ℕ → List String) (i : Instruction) (is : List Instruction)
    → back (render f (i ∷ is)) ≡ some (original (last i is))
unfolding render back
back-render f i [] = back-dumped (f i.address) (original i) [] ∙ only (original i)
  where
    only : (i : Item) → back (i ∷ []) ≡ some i
    only i = refl
back-render f i (j ∷ is) =
    back-dumped (f i.address) (original i) (render f (j ∷ is))
    ∙ back-cons (original i) (f j.address) (original j) (render f is)
    ∙ back-render f j is

exit_cases :
    (b : Bool) (a : ℕ) (s : String) (cs : List TraceCall) (is : List Instruction)
    → (if b then insert_before a s (render (lines cs) is) else render (lines cs) is)
      ≡ render (λ c. lines cs c ++ at_place a (if b then s ∷ [] else []) c) is
unfolding lines
exit_cases true a s cs is =
    insert_before-render a s cs is
    ∙ ap (λ f. render f is) (fun_ext λ c. lines-append cs ((a, s) ∷ []) c)
exit_cases false a s cs is = ap (λ f. render f is) (fun_ext λ c. nothing c)
  where
    nothing : (c : ℕ) → lines cs c ≡ lines cs c ++ at_place a [] c
    nothing c = elim (Bool-cases (c == a)) [
      | inl e ↦ rw e (sym (append-nil (lines cs c)))
      | inr e ↦ rw e (sym (append-nil (lines cs c)))
    ]

trace_exit-render :
    (name : String) (cs : List TraceCall) (i : Instruction) (is : List Instruction)
    → trace_exit name (render (lines cs) (i ∷ is))
      ≡ render
          (λ c. lines cs c ++ at_place (last i is).address (end_lines name (last i is)) c)
          (i ∷ is)
unfolding trace_exit
trace_exit-render name cs i is =
    ap (λ b. trace_return name b (render (lines cs) (i ∷ is))) (back-render (lines cs) i is)
    ∙ exit_cases (last i is).is_return (last i is).address (end_text name) cs (i ∷ is)

abbrev pub Agree : (ℕ → List String) → (ℕ → List String) → List Instruction → Type 0
Agree f g [] = Unit
Agree f g (i ∷ is) = (f i.address ≡ g i.address) × Agree f g is

abbrev pub nothing : ℕ → List String
nothing a = []

-- The calls dump nothing in the code.
abbrev pub Spares : List TraceCall → List Instruction → Type 0
Spares cs is = Agree (lines cs) nothing is

render-Agree :
    (f g : ℕ → List String) (is : List Instruction) → Agree f g is → render f is ≡ render g is
unfolding render
render-Agree f g [] h = refl
render-Agree f g (i ∷ is) h = ap₂ (λ l r. dumped l (original i ∷ r)) h.0 (render-Agree f g is h.1)

pub Agree-map :
    (f g u v : ℕ → List String) (is : List Instruction)
    → ((a : ℕ) → f a ≡ g a → u a ≡ v a)
    → Agree f g is
    → Agree u v is
Agree-map f g u v [] k h = tt
Agree-map f g u v (i ∷ is) k h = (k i.address h.0, Agree-map f g u v is k h.1)

Agree-both :
    (f g f' g' u v : ℕ → List String) (is : List Instruction)
    → ((a : ℕ) → f a ≡ g a → f' a ≡ g' a → u a ≡ v a)
    → Agree f g is
    → Agree f' g' is
    → Agree u v is
Agree-both f g f' g' u v [] k h h' = tt
Agree-both f g f' g' u v (i ∷ is) k h h' =
    (k i.address h.0 h'.0, Agree-both f g f' g' u v is k h.1 h'.1)

-- Code with a last instruction that is no PHI.
abbrev pub IsCode : List Instruction → Type 0
IsCode [] = ⊥
IsCode (i ∷ is) = ((last i is).is_phi ≡ false) × IsDistinct (i ∷ is)

-- What the calls for a block come to, among others, when those before it dump `first` at its place
-- and those after it nothing in it.
pub record Gathered (name label : String) (is : List Instruction) : Type 0 where
  pub place : Instruction
  pub calls : List TraceCall
  pub finds : find_non_phi is ≡ some place
  pub traces : trace_block name (record { label = label; code = is }) ≡ some calls
  pub spares : (a : ℕ) → NotIn a is → lines calls a ≡ []
  pub exits :
      (before after : List TraceCall) (first : List String)
      → Agree (lines before) (at_place place.address first) is
      → Spares after is
      → trace_exit name (render (lines (before ++ (calls ++ after))) is)
        ≡ traced_code name (first ++ block_text name label ∷ []) is

texts_among :
    (name : String) (l : Instruction) (t a : ℕ) (first : List String) (bt : String)
    (cs before after : List TraceCall)
    → lines before a ≡ at_place t first a
    → lines after a ≡ []
    → lines (before ++ ((t, bt) ∷ cs ++ after)) a ++ at_place l.address (end_lines name l) a
      ≡ texts name l t (first ++ bt ∷ []) cs a
texts_among name l t a first bt cs before after b c =
    let end = at_place l.address (end_lines name l) a in
    let own = (t, bt) ∷ cs in
    ap (λ q. q ++ end)
      (lines-append before (own ++ after) a
        ∙ ap₂ (λ q r. q ++ r) b
            (lines-append own after a ∙ ap (λ q. lines own a ++ q) c ∙ append-nil (lines own a)))
    ∙ append_assoc (at_place t first a) (lines own a) end
    ∙ texts_later name l t a first bt cs

pub gathered : (name label : String) (is : List Instruction) → IsCode is → Gathered name label is
unfolding trace_block lines
gathered name label [] h = absurd h
gathered name label (i ∷ is) h =
    let p = places name i is h.0 h.1 in
    let bt = block_text name label in
    let cs = (p.place.address, bt) ∷ p.calls in
    record {
      place = p.place;
      calls = cs;
      finds = p.finds;
      traces = ap₂ (λ q c. add_call q bt c) p.finds p.traces;
      spares = λ a n. (let (u, v, w) = p.apart a n in rw (v, u) refl);
      exits = λ before after first b c.
          trace_exit-render name (before ++ (cs ++ after)) i is
          ∙ render-Agree _ (texts name (last i is) p.place.address (first ++ bt ∷ []) p.calls)
              (i ∷ is)
              (Agree-both (lines before) (at_place p.place.address first) (lines after) nothing _ _
                (i ∷ is)
                (λ a. texts_among name (last i is) p.place.address a first bt p.calls before after)
                b c)
          ∙ p.renders (first ++ bt ∷ []);
    }
