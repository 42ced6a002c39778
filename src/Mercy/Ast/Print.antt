-- ===== src/Mercy/Ast/Print.antt =====
-- The methods `print` of mercy/src/AST.cpp. The text is a list of lines, each with its indentation
-- and its pieces; `none` is the `llvm_unreachable` of `getBuiltinTypeName`.
use llvm_mipt.Base.{
  ℕ, ◌+◌, Bool, true, false, List, [], ◌∷◌, ◌++◌, String, Option, none, some, if◌then◌else◌,
}
use llvm_mipt.Base.Word.{ℤ}
use llvm_mipt.Mercy.Types.Names.{print as print_type}
use llvm_mipt.Mercy.Ast.{
  BinOpKind, assign_op, lor_op, land_op, or_op, xor_op, and_op, eq_op, ne_op, lt_op, gt_op, le_op,
  ge_op, lshift_op, rshift_op, add_op, sub_op, mul_op, div_op, rem_op, UnaryOpKind, not_op, Expr,
  integral_literal, string_literal, type_expr, binary_operator, unary_operator, identifier,
  function_call, array_subscript_expr, Exprs, no_exprs, more_exprs, Param, FunctionDomain, global,
  otherwise, custom, Node, expression, variable_decl, return_stmt, function_fragment, Nodes,
  no_nodes, more_nodes,
}

unfoldable pub get_binary_op_kind_str : BinOpKind → String
get_binary_op_kind_str assign_op = "="
get_binary_op_kind_str lor_op = "||"
get_binary_op_kind_str land_op = "&&"
get_binary_op_kind_str or_op = "|"
get_binary_op_kind_str xor_op = "^"
get_binary_op_kind_str and_op = "&"
get_binary_op_kind_str eq_op = "=="
get_binary_op_kind_str ne_op = "!="
get_binary_op_kind_str lt_op = "<"
get_binary_op_kind_str gt_op = ">"
get_binary_op_kind_str le_op = "<="
get_binary_op_kind_str ge_op = ">="
get_binary_op_kind_str lshift_op = "<<"
get_binary_op_kind_str rshift_op = ">>"
get_binary_op_kind_str add_op = "+"
get_binary_op_kind_str sub_op = "-"
get_binary_op_kind_str mul_op = "*"
get_binary_op_kind_str div_op = "/"
get_binary_op_kind_str rem_op = "%"

unfoldable pub get_unary_op_kind_str : UnaryOpKind → String
get_unary_op_kind_str not_op = "!"

pub data Piece : Type 0 where
  text : String → Piece
  number : ℤ → Piece

-- A line and its `tabulate(Shift)`.
pub record Line : Type 0 where
  pub shift : ℕ
  pub pieces : List Piece

abbrev pub line : ℕ → List Piece → List Line
line shift ps = record { shift = shift; pieces = ps } ∷ []

abbrev quoted : String → String → List Piece
quoted title s = text title ∷ text s ∷ text "'" ∷ []

abbrev texts : List String → List Piece
texts [] = []
texts (s ∷ ss) = text s ∷ texts ss

abbrev pub then_lines : Option (List Line) → Option (List Line) → Option (List Line)
then_lines none q = none
then_lines (some a) none = none
then_lines (some a) (some b) = some (a ++ b)

abbrev pub type_line : ℕ → Option (List String) → Option (List Line)
type_line shift none = none
type_line shift (some ss) = some (line shift (text "TypeExpr '" ∷ texts ss ++ text "'" ∷ []))

-- The arguments are printed if there are any.
abbrev pub if_any : Exprs → Option (List Line) → Option (List Line)
if_any no_exprs q = some []
if_any (more_exprs e es) q = q

abbrev pub call_name : Expr → ℕ → Option (List Line) → Option (List Line)
call_name (identifier name) shift q = some (line shift (quoted "FunctionCall '" name))
call_name _ shift q = q

unfoldable mutual
  pub print_expr : Expr → ℕ → Option (List Line)
  print_expr (integral_literal v) shift =
      some (line shift (text "IntegralLiteral " ∷ number v ∷ []))
  print_expr (string_literal s) shift = some (line shift (quoted "StringLiteral '" s))
  print_expr (type_expr t) shift = type_line shift (print_type t)
  print_expr (binary_operator k l r) shift =
      then_lines (some (line shift (quoted "BinaryOperator '" (get_binary_op_kind_str k))))
        (then_lines (print_expr l (shift + 1)) (print_expr r (shift + 1)))
  print_expr (unary_operator k e) shift =
      then_lines (some (line shift (quoted "UnaryOperator '" (get_unary_op_kind_str k))))
        (print_expr e (shift + 1))
  print_expr (identifier name) shift = some (line shift (quoted "Identifier '" name))
  print_expr (function_call callee args) shift =
      then_lines (call_name callee shift (print_expr callee (shift + 1))) (
        if_any args (
          then_lines (some (line (shift + 1) (text "NodeList" ∷ [])))
            (print_exprs args (shift + 1 + 1))))
  print_expr (array_subscript_expr a i) shift =
      then_lines (some (line shift (text "ArraySubscriptExpr" ∷ [])))
        (then_lines (print_expr a (shift + 1)) (print_expr i (shift + 1)))

  pub print_exprs : Exprs → ℕ → Option (List Line)
  print_exprs no_exprs shift = some []
  print_exprs (more_exprs e es) shift = then_lines (print_expr e shift) (print_exprs es shift)

abbrev ref_mark : Bool → String
ref_mark is_ref = if is_ref then "& " else ""

unfoldable pub print_param : Param → ℕ → List Line
print_param p shift =
    line shift (text "FuncParamDecl " ∷ text (ref_mark p.is_ref) ∷ quoted "'" p.id)

unfoldable pub print_params : List Param → ℕ → List Line
print_params [] shift = []
print_params (p ∷ ps) shift = print_param p shift ++ print_params ps shift

-- The first line of a `NodeList`.
abbrev list_line : Bool → ℕ → List Line
list_line is_empty shift = line shift (text (if is_empty then "NodeList: {}" else "NodeList") ∷ [])

unfoldable pub print_param_list : List Param → ℕ → List Line
print_param_list [] shift = list_line true shift
print_param_list (p ∷ ps) shift = list_line false shift ++ print_params (p ∷ ps) (shift + 1)

unfoldable pub print_domain : FunctionDomain → ℕ → Option (List Line)
print_domain global shift = some (line shift (text "FunctionDomain" ∷ text ": global" ∷ []))
print_domain otherwise shift = some (line shift (text "FunctionDomain" ∷ text ": otherwise" ∷ []))
print_domain (custom e) shift =
    then_lines (some (line shift (text "FunctionDomain" ∷ []))) (print_expr e (shift + 1))

unfoldable mutual
  pub print_node : Node → ℕ → Option (List Line)
  print_node (expression e) shift = print_expr e shift
  print_node (variable_decl id init is_ref) shift =
      then_lines (some (line shift (text "VariableDecl " ∷ text (ref_mark is_ref) ∷ quoted "'" id)))
        (print_expr init (shift + 1))
  print_node (return_stmt e) shift =
      then_lines (some (line shift (text "ReturnStmt" ∷ []))) (print_expr e (shift + 1))
  print_node (function_fragment id params body domain) shift =
      then_lines (some (line shift (quoted "FunctionFragment '" id))) (
        then_lines (print_domain domain (shift + 1)) (
          then_lines (some (print_param_list params (shift + 1)))
            (print_node_list body (shift + 1))))

  pub print_nodes : Nodes → ℕ → Option (List Line)
  print_nodes no_nodes shift = some []
  print_nodes (more_nodes n ns) shift = then_lines (print_node n shift) (print_nodes ns shift)

  pub print_node_list : Nodes → ℕ → Option (List Line)
  print_node_list no_nodes shift = some (list_line true shift)
  print_node_list (more_nodes n ns) shift =
      then_lines (some (list_line false shift))
        (then_lines (print_node n (shift + 1)) (print_nodes ns (shift + 1)))

-- `TranslationUnit::print`
unfoldable pub print_translation_unit : Nodes → ℕ → Option (List Line)
print_translation_unit decls shift =
    then_lines (some (line shift (text "TranslationUnit" ∷ []))) (print_node_list decls (shift + 1))
