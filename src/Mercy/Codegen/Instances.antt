-- ===== src/Mercy/Codegen/Instances.antt =====
-- The code of a function instance that mercy/src/Sema.cpp has typed.
use Prim.Native.String.{◌++◌ as str_append}
use llvm_mipt.Base.{ℕ, ◌+◌, ◌≡◌, false, some, List, String, get_elem?}
use llvm_mipt.Mercy.Codegen.Api.{Llvm, made}
use llvm_mipt.Mercy.Codegen.Tree.{Instance}
use llvm_mipt.Mercy.Codegen.Types.{get_llvm_type, get_llvm_types}
use llvm_mipt.Mercy.Codegen.Documented.{Documented, DocumentedFunctions}

module _ (l : Llvm) where
  -- The types of the parameters from number `k` on, among those of the function.
  abbrev From : List l.Typ → ℕ → List l.Typ → Type 0
  From ts k us = (j : ℕ) → get_elem? us j ≡ get_elem? ts (k + j)

module _ (l : Llvm) (d : Documented l) (fd : DocumentedFunctions l d) where
  open l use {Value, Code}

  -- What an existing function with the name of the instance is.
  abbrev pub IsDeclared : Instance → Code → Type 0
  IsDeclared i c =
      (f : Value) (r : l.Typ) (ts : List l.Typ)
      → l.get_function i.id c ≡ some f
      → get_llvm_type l i.return_ty ≡ made r
      → get_llvm_types l i.param_tys ≡ made ts
      → d.HasType f (l.get_function_ty r ts false)
