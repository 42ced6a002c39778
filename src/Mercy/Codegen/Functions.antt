-- ===== src/Mercy/Codegen/Functions.antt =====
-- The code of function instances and of a whole file: `emitTemplateInstance` and `run` of
-- mercy/src/Codegen.cpp. The names that are given to arguments are left out.
use Prim.Native.String.{◌++◌ as str_append}
use llvm_mipt.Base.{
  ℕ, suc, Bool, true, false, Option, none, some, List, [], ◌∷◌, String, ◌==◌, if◌then◌else◌,
}
use llvm_mipt.Mercy.Types.{Ty, builtin_type}
use llvm_mipt.Mercy.Codegen.Api.{
  Llvm, Emission, made, refused, ◌>>=◌, require, deref, failed_assert, past_the_end,
}
use llvm_mipt.Mercy.Codegen.Tree.{Typed, Instance}
use llvm_mipt.Mercy.Codegen.Types.{get_llvm_type}
use llvm_mipt.Mercy.Codegen.Values.{as_rvalue}
use llvm_mipt.Mercy.Codegen.Calls.{get_or_insert_instance_decl}
use llvm_mipt.Mercy.Codegen.Emit.{emit, set_addr, emit_variable_decl, emit_return_stmt}

-- The statements of a body: an expression, a variable with the number of its declaration, and a
-- return with the type that the function returns.
pub data TypedStmt : Type 0 where
  expr_stmt : Typed → TypedStmt
  var_stmt : Bool → String → ℕ → Typed → TypedStmt
  ret_stmt : Ty → Typed → TypedStmt

pub data TypedDomain : Type 0 where
  on_all on_rest : TypedDomain
  on_custom : Typed → TypedDomain

pub record TypedParam : Type 0 where
  pub id : String
  pub ty : Ty
  pub decl : ℕ

pub record TypedFragment : Type 0 where
  pub params : List TypedParam
  pub domain : TypedDomain
  pub body : List TypedStmt

-- The declaration of an instance, which has a fragment at least.
pub record TypedFunction : Type 0 where
  pub instance_of : Instance
  pub front : TypedFragment
  pub more : List TypedFragment

-- A `VariableDecl` of the file.
pub record GlobalVariable : Type 0 where
  pub id : String
  pub ty : Ty
  pub decl : ℕ
  pub init : Typed

abbrev pub is_custom : TypedDomain → Bool
is_custom (on_custom e) = true
is_custom d = false

abbrev pub last_fragment : TypedFragment → List TypedFragment → TypedFragment
last_fragment f [] = f
last_fragment f (g ∷ gs) = last_fragment g gs

abbrev pub is_builtin : Ty → Bool
is_builtin (builtin_type k) = true
is_builtin t = false

-- A pointer that an assert checks.
abbrev or_assert : {A : Type 0} → Option A → Emission A
or_assert none = refused failed_assert
or_assert (some a) = made a

module _ (l : Llvm) where
  open l use {Value, Code}

  -- What `setAddr` has stored, by the number of the declaration.
  abbrev Addresses : Type 0
  Addresses = ℕ → Option Value

  -- An `alloca` for each parameter, with the number of the parameter.
  unfoldable pub emit_params :
      Value → ℕ → List TypedParam → Addresses → Code → Emission (Addresses × Code)
  emit_params func k [] addr c = made (addr, c)
  emit_params func k (p ∷ ps) addr c = do
    t ← get_llvm_type l p.ty
    let slot = l.create_alloca t none (str_append p.id ".copy") c
    emit_params func (suc k) ps (set_addr l addr p.decl slot.0)
        (l.create_store (l.get_arg func k) slot.0 slot.1)

  -- The parameters of a fragment have the addresses of those of the first.
  unfoldable pub bind_params : List TypedParam → List TypedParam → Addresses → Emission Addresses
  bind_params [] ps addr = made addr
  bind_params (f ∷ fs) [] addr = refused past_the_end
  bind_params (f ∷ fs) (p ∷ ps) addr =
      bind_params fs ps (λ j. if j == p.decl then addr f.decl else addr j)

  -- The statements up to the first return.
  unfoldable pub emit_body : List TypedStmt → Addresses → Code → Emission Code
  emit_body [] addr c = made (l.create_ret_void c).1
  emit_body (expr_stmt e ∷ ss) addr c = do r ← emit l addr e c; emit_body ss addr r.1
  emit_body (var_stmt is_ref id i e ∷ ss) addr c = do
    r ← emit_variable_decl l addr is_ref id i e c
    emit_body ss r.0 r.1
  emit_body (ret_stmt t e ∷ ss) addr c = do r ← emit_return_stmt l addr t e c; made r.1

  -- A fragment with a `when` expression branches past its body.
  unfoldable pub emit_domain :
      Value → TypedDomain → List TypedStmt → Addresses → Code → Emission Code
  emit_domain func (on_custom e) body addr c = do
    a ← emit l addr e c
    r ← as_rvalue l e a
    cond ← deref r.0
    let true_bb = l.create_block func "domain" r.1
    let next_bb = l.create_block func "next" true_bb.1
    let d = l.create_cond_br cond true_bb.0 next_bb.0 next_bb.1
    b ← emit_body body addr (l.set_insert_point true_bb.0 d)
    made (l.set_insert_point next_bb.0 b)
  emit_domain func d body addr c = emit_body body addr c

  unfoldable pub emit_fragments :
      Value → List TypedParam → List TypedFragment → Addresses → Code → Emission Code
  emit_fragments func front [] addr c = made c
  emit_fragments func front (f ∷ fs) addr c = do
    bound ← bind_params front f.params addr
    d ← emit_domain func f.domain f.body bound c
    emit_fragments func front fs bound d

  -- The message at the end of a function whose last domain is custom.
  unfoldable pub emit_domain_error : Instance → Code → Emission Code
  emit_domain_error inst c = do
    let char_ptr = l.get_pointer_to (l.get_int_ty 8)
    let puts =
        l.get_or_insert_function "puts" (l.get_function_ty (l.get_int_ty 32) (char_ptr ∷ []) false)
          c
    let exit =
        l.get_or_insert_function "exit"
          (l.get_function_ty l.get_void_ty (l.get_int_ty 32 ∷ []) false) puts.1
    let text : String = str_append "Error: domain error in function '" (str_append inst.id "'")
    let s = l.create_global_string_ptr text "" exit.1
    let told = l.create_call puts.0 (s.0 ∷ []) s.1
    let left = l.create_call exit.0 (l.get_int32 1 ∷ []) told.1
    _ ← require (is_builtin inst.return_ty)
    made (l.create_unreachable left.1)

  -- `emitTemplateInstance`, with the addresses of the global variables.
  unfoldable pub emit_template_instance : TypedFunction → Addresses → Code → Emission Code
  emit_template_instance f addr c = do
    func ← get_or_insert_instance_decl l f.instance_of c
    let entry = l.create_block func.0 "" func.1
    params ← emit_params func.0 0 f.front.params addr (l.set_insert_point entry.0 entry.1)
    d ← emit_fragments func.0 f.front.params (f.front ∷ f.more) params.0 params.1
    if is_custom (last_fragment f.front f.more).domain
        then emit_domain_error f.instance_of d
        else made d

  -- The first loop of `run`.
  unfoldable pub emit_globals : List GlobalVariable → Addresses → Code → Emission (Addresses × Code)
  emit_globals [] addr c = made (addr, c)
  emit_globals (g ∷ gs) addr c = do
    t ← get_llvm_type l g.ty
    let made_global = l.get_or_insert_global g.id t c
    v ← deref (l.get_named_global g.id made_global.1)
    emit_globals gs (set_addr l addr g.decl v) (l.set_private_poison v t made_global.1)

  unfoldable pub emit_instances : List TypedFunction → Addresses → Code → Emission Code
  emit_instances [] addr c = made c
  emit_instances (f ∷ fs) addr c = emit_template_instance f addr c >>= emit_instances fs addr

  -- The last loop of `run`.
  unfoldable pub init_globals : List GlobalVariable → Addresses → Code → Emission Code
  init_globals [] addr c = made c
  init_globals (g ∷ gs) addr c = do
    global ← deref (l.get_named_global g.id c)
    a ← emit l addr g.init c
    r ← as_rvalue l g.init a
    v ← deref r.0
    init_globals gs addr (l.create_store v global r.1)

  -- `run`, with the variables of the file, the instances, and the id of the entry point.
  unfoldable pub run : List GlobalVariable → List TypedFunction → String → Emission Code
  run globals fs entry_point = do
    r ← emit_globals globals (λ i. none) l.new_module
    c ← emit_instances fs r.0 r.1
    let main = l.create_function "main" (l.get_function_ty (l.get_int_ty 32) [] false) c
    let entry = l.create_block main.0 "" main.1
    let d = l.set_insert_point entry.0 entry.1
    f ← or_assert (l.get_function entry_point d)
    e ← init_globals globals r.0 d
    made (l.create_ret (l.get_int32 0) (l.create_call f [] e).1).1
