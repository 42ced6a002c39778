-- ===== src/Irgen/Record.antt =====
-- The calls of LLVM that irgen/main.cpp makes, recorded as they are made: a module is the list of
-- its functions, a function the list of its blocks, and a block the list of its instructions. The
-- names of values and blocks are left out: they change nothing that runs.
use llvm_mipt.Base.{
  ℕ, zero, suc, ◌+◌, Option, none, some, List, [], ◌∷◌, ◌++◌, String, str_eq, if◌then◌else◌,
}

-- A number that is a constant or the result of an instruction, with its width in bits.
pub data Operand : Type 0 where
  const : ℕ → Operand
  result : ℕ → Operand

pub record Number : Type 0 where
  pub width : ℕ
  pub operand : Operand

-- `address` is the result of an instruction that gives a pointer.
pub data Pointer : Type 0 where
  argument : ℕ → Pointer
  address : ℕ → Pointer
  global : String → Pointer

pub data Arg : Type 0 where
  by_value : Number → Arg
  by_pointer : Pointer → Arg

pub data Ty : Type 0 where
  void_ty : Ty
  int_ty : ℕ → Ty
  map_struct_ty : Ty
  map_pointer_ty : Ty

pub data BinaryOp : Type 0 where
  add_bin urem_bin srem_bin and_bin or_bin : BinaryOp

pub data Predicate : Type 0 where
  slt_pred eq_pred ne_pred : Predicate

-- The first number of an instruction with a result is the number of the result.
pub data Inst : Type 0 where
  alloca : ℕ → Ty → Inst
  load : ℕ → ℕ → Pointer → Inst
  store : Number → Pointer → Inst
  in_bounds_gep : ℕ → Pointer → List Number → Inst
  binary : ℕ → BinaryOp → Number → Number → Inst
  bit_not : ℕ → Number → Inst
  icmp : ℕ → Predicate → Number → Number → Inst
  zext : ℕ → Number → ℕ → Inst
  call : ℕ → String → List Arg → Inst
  br : ℕ → Inst
  cond_br : Number → ℕ → ℕ → Inst
  ret_void : Inst

-- A function that is only declared has no blocks.
pub record Fn : Type 0 where
  pub name : String
  pub return_ty : Ty
  pub params : List Ty
  pub blocks : List (List Inst)

-- `globals` holds the arrays of `i32`.
pub record Module : Type 0 where
  pub functions : List Fn
  pub globals : List (String × List ℕ)

abbrev pub find_fn : String → List Fn → Option Fn
find_fn name [] = none
find_fn name (f ∷ fs) = let rest = find_fn name fs in if str_eq f.name name then some f else rest

-- `Module::getOrInsertFunction`, where no function is declared at two types.
abbrev pub get_or_insert_function : String → Ty → List Ty → Module → Module
get_or_insert_function name ret params m = elim (find_fn name m.functions) [
  | some f ↦ m
  | none ↦
      let f : Fn = record { name = name; return_ty = ret; params = params; blocks = [] } in
      record m { functions = m.functions ++ (f ∷ []) }
]

-- The module with a builder: the blocks of the function that is being written, the number of the
-- block of the insertion point, and the number of instructions so far.
pub record Code : Type 0 where
  pub top : Module
  pub written : List (List Inst)
  pub here : ℕ
  pub count : ℕ

-- `none` where the source uses a null pointer.
abbrev pub Build : Type 0 → Type 0
Build A = Code → Option (A × Code)

infixl 5 ◌>>=◌
abbrev pub ◌>>=◌ : {A B : Type 0} → Build A → (A → Build B) → Build B
(m >>= f) c = elim (m c) [ none ↦ none | some r ↦ f r.0 r.1 ]

abbrev pub give : {A : Type 0} → A → Build A
give a c = some (a, c)

-- The instruction at the end of block `b`.
abbrev pub append_at : ℕ → Inst → List (List Inst) → List (List Inst)
append_at b i [] = []
append_at zero i (is ∷ bs) = (is ++ (i ∷ [])) ∷ bs
append_at (suc b) i (is ∷ bs) = is ∷ append_at b i bs

abbrev pub insert : Inst → Code → Code
insert i c = record c { written = append_at c.here i c.written; count = c.count + 1 }

abbrev pub emit : Inst → Build Unit
emit i c = some (tt, insert i c)

abbrev pub number : ℕ → (ℕ → Inst) → Build Number
number w i c = some (record { width = w; operand = result c.count }, insert (i c.count) c)

abbrev pub pointer : (ℕ → Inst) → Build Pointer
pointer i c = some (address c.count, insert (i c.count) c)

-- `BasicBlock::Create`
abbrev pub create_block : Build ℕ
create_block c = some (count_of c.written, record c { written = c.written ++ ([] ∷ []) })
  where
    count_of : List (List Inst) → ℕ
    count_of [] = 0
    count_of (b ∷ bs) = suc (count_of bs)

abbrev pub set_insert_point : ℕ → Build Unit
set_insert_point b c = some (tt, record c { here = b })

abbrev pub get_int : ℕ → ℕ → Number
get_int w n = record { width = w; operand = const n }

abbrev pub create_alloca : Ty → Build Pointer
create_alloca t = pointer (λ k. alloca k t)

abbrev pub create_load : ℕ → Pointer → Build Number
create_load w p = number w (λ k. load k w p)

abbrev pub create_store : Number → Pointer → Build Unit
create_store v p = emit (store v p)

abbrev pub create_in_bounds_gep : Pointer → List Number → Build Pointer
create_in_bounds_gep p is = pointer (λ k. in_bounds_gep k p is)

abbrev pub create_binary : BinaryOp → Number → Number → Build Number
create_binary op a b = number a.width (λ k. binary k op a b)

abbrev pub create_not : Number → Build Number
create_not a = number a.width (λ k. bit_not k a)

abbrev pub create_icmp : Predicate → Number → Number → Build Number
create_icmp pred a b = number 1 (λ k. icmp k pred a b)

abbrev pub create_zext : Number → ℕ → Build Number
create_zext a w = number w (λ k. zext k a w)

abbrev pub create_br : ℕ → Build Unit
create_br b = emit (br b)

abbrev pub create_cond_br : Number → ℕ → ℕ → Build Unit
create_cond_br v b c = emit (cond_br v b c)

abbrev pub create_ret_void : Build Unit
create_ret_void = emit ret_void

-- `Module::getFunction`
abbrev pub get_function : String → Build Fn
get_function name c = elim (find_fn name c.top.functions) [ none ↦ none | some f ↦ some (f, c) ]

-- A call of a function that gives no value, and of one that gives an `i32`.
abbrev pub create_call : Fn → List Arg → Build Unit
create_call f args c = some (tt, insert (call c.count f.name args) c)

abbrev pub create_call_value : Fn → List Arg → Build Number
create_call_value f args = number 32 (λ k. call k f.name args)

-- `Module::getNamedGlobal`
abbrev pub get_named_global : String → Build Pointer
get_named_global name c = find name c.top.globals c
  where
    find : String → List (String × List ℕ) → Build Pointer
    find name [] c = none
    find name (g ∷ gs) c =
        let rest = find name gs c in if str_eq g.0 name then some (global name, c) else rest

-- The function with these blocks.
abbrev pub set_blocks : String → List (List Inst) → List Fn → List Fn
set_blocks name bs [] = []
set_blocks name bs (f ∷ fs) =
    let rest = set_blocks name bs fs in
    if str_eq f.name name then record f { blocks = bs } ∷ rest else f ∷ rest

-- The module after a builder has written the body of a function.
abbrev pub write_function : String → Build Unit → Module → Option Module
write_function name body m = elim (body (record { top = m; written = []; here = 0; count = 0 })) [
  | none ↦ none
  | some r ↦ some (record m { functions = set_blocks name r.1.written m.functions })
]
