-- ===== src/Mercy/Ast.antt =====
-- mercy/src/AST.h: the syntax tree that the parser of Mercy builds. What `Sema` writes into the
-- nodes (types, declarations, instances) is not part of the tree here, and the `Location` of a node,
-- which only messages read, is not either.
pub mod Print
use llvm_mipt.Base.{Bool, true, false, List, String}
use llvm_mipt.Base.Word.{ℤ}
use llvm_mipt.Mercy.Types.{Ty}

pub data BinOpKind : Type 0 where
  assign_op lor_op land_op or_op xor_op and_op : BinOpKind
  eq_op ne_op lt_op gt_op le_op ge_op lshift_op rshift_op : BinOpKind
  add_op sub_op mul_op div_op rem_op : BinOpKind

pub data UnaryOpKind : Type 0 where
  not_op : UnaryOpKind

-- `Exprs` is the `NodeList` of arguments.
mutual
  pub data Expr : Type 0 where
    integral_literal : ℤ → Expr
    string_literal : String → Expr
    type_expr : Ty → Expr
    binary_operator : BinOpKind → Expr → Expr → Expr
    unary_operator : UnaryOpKind → Expr → Expr
    identifier : String → Expr
    function_call : Expr → Exprs → Expr
    array_subscript_expr : Expr → Expr → Expr

  pub data Exprs : Type 0 where
    no_exprs : Exprs
    more_exprs : Expr → Exprs → Exprs

-- `FuncParamDecl`
pub record Param : Type 0 where
  pub id : String
  pub is_ref : Bool

pub data FunctionDomain : Type 0 where
  global otherwise : FunctionDomain
  custom : Expr → FunctionDomain

-- The nodes that stand in the bodies of functions and in the file. A fragment has its name, its
-- parameters, its body and its domain.
mutual
  pub data Node : Type 0 where
    expression : Expr → Node
    variable_decl : String → Expr → Bool → Node
    return_stmt : Expr → Node
    function_fragment : String → List Param → Nodes → FunctionDomain → Node

  pub data Nodes : Type 0 where
    no_nodes : Nodes
    more_nodes : Node → Nodes → Nodes

-- `Expression::isLValue`
unfoldable pub is_lvalue : Expr → Bool
is_lvalue (identifier name) = true
is_lvalue (array_subscript_expr a i) = true
is_lvalue _ = false
