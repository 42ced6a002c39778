-- ===== src/Mercy/Sema/Lookup.antt =====
-- Declaring and looking up names: `insertDecl` and `findDecl` of mercy/src/Sema.cpp.
use llvm_mipt.Base.{
  ◌≡◌, refl, sym, ap, ◌∙◌, ◌⊎◌, inl, inr, false, Option, none, some, List, ◌∷◌, String, str_eq,
  eq_iff, Option-cases,
}
use llvm_mipt.Mercy.Sema.State.{
  ok, error, Decl, Scope, State, find, find_in, insert, find_decl_recursive, insert_decl,
  insert_new, redefinition,
}

abbrev pub in_scopes : Scope → List Scope → State → State
in_scopes s ss st = record st { scopes = s ∷ ss }

abbrev or_outer : Option Decl → Option Decl → Option Decl
or_outer none outer = outer
or_outer (some d) outer = some d

recursive_step :
    (id : String) (s : Scope) (ss : List Scope)
    → find_decl_recursive id (s ∷ ss) ≡ or_outer (find id s) (find_decl_recursive id ss)
unfolding find_decl_recursive
recursive_step id s ss = elim (Option-cases (find id s)) [
  | inl e ↦ rw (e, find_decl_recursive) refl
  | inr (d, e) ↦ rw (e, find_decl_recursive) refl
]

find-insert : (id : String) (d : Decl) (s : Scope) → find id (insert id d s) ≡ some d
unfolding find insert find_in
find-insert id d s = rw ((eq_iff id id).1 refl) refl

find-insert_other :
    (id k : String) (d : Decl) (s : Scope) → str_eq id k ≡ false → find k (insert id d s) ≡ find k s
unfolding find insert find_in
find-insert_other id k d s h = rw h refl

-- A name is refused exactly if the current scope, the innermost, has it already. Otherwise it then
-- stands for the new declaration, whatever the outer scopes hold, and any other name stands for
-- what it did.
pub insert_decl-find :
    (id k : String) (d : Decl) (s : Scope) (ss : List Scope) (st : State)
    → str_eq id k ≡ false
    → ((e : Decl) × (find id s ≡ some e)
        × (insert_decl id d (in_scopes s ss st) ≡ error (redefinition id)))
      ⊎ ((find id s ≡ none)
          × (insert_decl id d (in_scopes s ss st) ≡ ok (in_scopes (insert id d s) ss st))
          × (find_decl_recursive id (insert id d s ∷ ss) ≡ some d)
          × (find_decl_recursive k (insert id d s ∷ ss) ≡ find_decl_recursive k (s ∷ ss)))
unfolding insert_decl
insert_decl-find id k d s ss st h = elim (Option-cases (find id s)) [
  | inl e ↦ inr (
    e,
    ap (λ o. insert_new id d o (in_scopes s ss st)) e,
    recursive_step id (insert id d s) ss
        ∙ ap (λ o. or_outer o (find_decl_recursive id ss)) (find-insert id d s),
    recursive_step k (insert id d s) ss
        ∙ ap (λ o. or_outer o (find_decl_recursive k ss)) (find-insert_other id k d s h)
        ∙ sym (recursive_step k s ss),
  )
  | inr (e, g) ↦ inl (e, g, ap (λ o. insert_new id d o (in_scopes s ss st)) g)
]
