-- ===== src/Trace/Lines.antt =====
-- Code in which each instruction has the texts that are dumped before it.
use llvm_mipt.Base.{
  ℕ, ◌≡◌, refl, fun_ext, sym, ap, ◌∙◌, true, false, Bool-cases, inl, inr, List, [], ◌∷◌, ◌++◌, map,
  String, ◌==◌, if◌then◌else◌,
}
use mathlib.Core.List.{append_assoc, append-nil}
use llvm_mipt.Trace.Pass.{
  Instruction, Item, original, puts, Function, on_code, on_blocks, TraceCall, insert_before,
  insert_calls,
}

-- The texts of the calls for an address, in their order.
unfoldable pub lines : List TraceCall → ℕ → List String
lines [] a = []
lines (c ∷ cs) a = let rest = lines cs a in if a == c.0 then c.1 ∷ rest else rest

pub lines-append : (cs ds : List TraceCall) (a : ℕ) → lines (cs ++ ds) a ≡ lines cs a ++ lines ds a
unfolding lines
lines-append [] ds a = refl
lines-append (c ∷ cs) ds a = elim (Bool-cases (a == c.0)) [
  | inl e ↦ rw e (ap (◌∷◌ c.1) (lines-append cs ds a))
  | inr e ↦ rw e (lines-append cs ds a)
]

lines_here :
    (cs : List TraceCall) (a b : ℕ) (s : String)
    → (b == a) ≡ true
    → lines (cs ++ (a, s) ∷ []) b ≡ lines cs b ++ s ∷ []
unfolding lines
lines_here cs a b s e = lines-append cs ((a, s) ∷ []) b ∙ rw e refl

lines_elsewhere :
    (cs : List TraceCall) (a b : ℕ) (s : String)
    → (b == a) ≡ false
    → lines (cs ++ (a, s) ∷ []) b ≡ lines cs b
unfolding lines
lines_elsewhere cs a b s e = lines-append cs ((a, s) ∷ []) b ∙ rw e (append-nil (lines cs b))

-- The calls of some texts, before other items.
unfoldable pub dumped : List String → List Item → List Item
dumped [] is = is
dumped (s ∷ ss) is = puts s ∷ dumped ss is

-- The code with the calls of the texts by address.
unfoldable pub render : (ℕ → List String) → List Instruction → List Item
render f [] = []
render f (i ∷ is) = dumped (f i.address) (original i ∷ render f is)

insert_before-dumped :
    (a : ℕ) (s : String) (ss : List String) (is : List Item)
    → insert_before a s (dumped ss is) ≡ dumped ss (insert_before a s is)
unfolding insert_before dumped
insert_before-dumped a s [] is = refl
insert_before-dumped a s (t ∷ ss) is = ap (◌∷◌ (puts t)) (insert_before-dumped a s ss is)

pub dumped-append :
    (ss ts : List String) (is : List Item) → dumped ss (dumped ts is) ≡ dumped (ss ++ ts) is
unfolding dumped
dumped-append [] ts is = refl
dumped-append (s ∷ ss) ts is = ap (◌∷◌ (puts s)) (dumped-append ss ts is)

-- A call that is inserted comes after those that are there.
pub insert_before-render :
    (a : ℕ) (s : String) (cs : List TraceCall) (is : List Instruction)
    → insert_before a s (render (lines cs) is) ≡ render (lines (cs ++ (a, s) ∷ [])) is
unfolding insert_before render dumped
insert_before-render a s cs [] = refl
insert_before-render a s cs (i ∷ is) =
    let after = render (lines (cs ++ (a, s) ∷ [])) is in
    let rest : insert_before a s (render (lines cs) is) ≡ after = insert_before-render a s cs is in
    insert_before-dumped a s (lines cs i.address) (original i ∷ render (lines cs) is)
    ∙ elim (Bool-cases (i.address == a)) [
      | inl e ↦
          rw e (ap (λ r. dumped (lines cs i.address) (puts s ∷ original i ∷ r)) rest)
          ∙ dumped-append (lines cs i.address) (s ∷ []) (original i ∷ after)
          ∙ ap (λ l. dumped l (original i ∷ after)) (sym (lines_here cs a i.address s e))
      | inr e ↦
          rw e (ap (λ r. dumped (lines cs i.address) (original i ∷ r)) rest)
          ∙ ap (λ l. dumped l (original i ∷ after)) (sym (lines_elsewhere cs a i.address s e))
    ]

pub render-original : (is : List Instruction) → render (lines []) is ≡ map original is
unfolding render lines dumped
render-original [] = refl
render-original (i ∷ is) = ap (◌∷◌ (original i)) (render-original is)

map-map :
    {A B C : Type 0} (g : B → C) (h : A → B) (xs : List A)
    → map g (map h xs) ≡ map (λ x. g (h x)) xs
map-map g h [] = refl
map-map g h (x ∷ xs) = ap (◌∷◌ (g (h x))) (map-map g h xs)

pub on_blocks-on_blocks :
    {A B C : Type 0} (g : List B → List C) (h : List A → List B) (f : Function A)
    → on_blocks g (on_blocks h f) ≡ on_blocks (λ is. g (h is)) f
on_blocks-on_blocks g h f =
    ap (λ bs. record { name = f.name; entry = on_code g (on_code h f.entry); others = bs })
      (map-map (on_code g) (on_code h) f.others)

-- The second loop dumps the texts of the calls in their order.
pub insert_calls-render :
    (ds cs : List TraceCall) (f : Function Instruction)
    → insert_calls ds (on_blocks (render (lines cs)) f) ≡ on_blocks (render (lines (cs ++ ds))) f
unfolding insert_calls
insert_calls-render [] cs f = ap (λ l. on_blocks (render (lines l)) f) (sym (append-nil cs))
insert_calls-render (d ∷ ds) cs f =
    ap (insert_calls ds) (
      on_blocks-on_blocks (insert_before d.0 d.1) (render (lines cs)) f
      ∙ ap (λ g. on_blocks g f) (fun_ext (insert_before-render d.0 d.1 cs)))
    ∙ insert_calls-render ds (cs ++ d ∷ []) f
    ∙ ap (λ l. on_blocks (render (lines l)) f) (append_assoc cs (d ∷ []) ds)
