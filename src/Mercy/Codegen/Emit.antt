-- ===== src/Mercy/Codegen/Emit.antt =====
-- The functions of mercy/src/Codegen.cpp that emit an expression. A value is `none` where the source
-- gives a null pointer.
use llvm_mipt.Base.{ℕ, ◌==◌, Bool, not, Option, none, some, List, [], ◌∷◌, String, if◌then◌else◌}
use llvm_mipt.Base.Word.{to_u32}
use llvm_mipt.Mercy.Types.{Ty, void_ty}
use llvm_mipt.Mercy.Types.Equality.{ty_eq}
use llvm_mipt.Mercy.Codegen.Api.{Llvm, Emission, made, ◌>>=◌, require, deref}
use llvm_mipt.Mercy.Codegen.Tree.{
  Typed, integral, text, type_expr, binary, unary, named, call, subscript, Args, no_args, more_args,
  get_ty,
}
use llvm_mipt.Mercy.Codegen.Values.{
  is_assign, Result, value, as_rvalue, emit_operator, emit_subscript,
}
use llvm_mipt.Mercy.Codegen.Calls.{emit_call}

module _ (l : Llvm) where
  open l use {Typ, Value, Code}

  -- The addresses that `setAddr` has given to the declarations.
  module _ (addr : ℕ → Option Value) where
    unfoldable mutual
      -- `codegen`
      pub emit : Typed → Code → Result l
      emit (integral n) c = made (some (l.get_int32 (to_u32 n)), c)
      emit (text s) c = value l (l.create_global_string_ptr s "" c)
      emit (type_expr t) c = made (none, c)
      emit (binary op t x y) c = do
        a ← emit x c
        lhs ← (if is_assign op then made a else as_rvalue l x a)
        b ← emit y lhs.1
        rhs ← as_rvalue l y b
        emit_operator l op t (get_ty x) lhs.0 rhs.0 rhs.1
      emit (unary op t e) c = do
        a ← emit e c
        x ← as_rvalue l e a
        v ← deref x.0
        value l (l.create_not v x.1)
      emit (named name t d) c = deref d >>= λ i. made (addr i, c)
      emit (call t v f args i) c = emit_args args c >>= λ vs. emit_call l f t v args i vs.0 vs.1
      emit (subscript t x i) c = do
        a ← emit x c
        arr ← as_rvalue l x a
        b ← emit i arr.1
        idx ← as_rvalue l i b
        emit_subscript l t arr.0 idx.0 idx.1

      -- The values of the arguments.
      pub emit_args : Args → Code → Emission (List (Option Value) × Code)
      emit_args no_args c = made ([], c)
      emit_args (more_args e es) c = do
        a ← emit e c
        x ← as_rvalue l e a
        xs ← emit_args es x.1
        made (x.0 ∷ xs.0, xs.1)

    abbrev pub set_addr : ℕ → Value → ℕ → Option Value
    set_addr i v j = if j == i then some v else addr j

    -- `emitVariableDecl` of the declaration with number `i`: the addresses after it.
    unfoldable pub emit_variable_decl :
        Bool → String → ℕ → Typed → Code → Emission ((ℕ → Option Value) × Code)
    emit_variable_decl is_ref id i init c = do
      _ ← require (not is_ref)
      a ← emit init c
      x ← as_rvalue l init a
      v ← deref x.0
      let slot = l.create_alloca (l.get_type v) none id x.1
      made (set_addr i slot.0, l.create_store v slot.0 slot.1)

    -- `emitReturnStmt`, with the type that the function returns.
    unfoldable pub emit_return_stmt : Ty → Typed → Code → Result l
    emit_return_stmt ret_ty e c = do
      a ← emit e c
      x ← as_rvalue l e a
      if ty_eq ret_ty void_ty
          then value l (l.create_ret_void x.1)
          else (deref x.0 >>= λ v. value l (l.create_ret v x.1))
