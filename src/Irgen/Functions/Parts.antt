-- ===== src/Irgen/Functions/Parts.antt =====
-- What the functions of irgen/main.cpp that write the functions over the map have in common: two
-- nested loops over the rows and the columns, with the same lines around the body.
use llvm_mipt.Base.{ℕ, List, [], ◌∷◌}
use llvm_mipt.Life.{map_width, map_height}
use llvm_mipt.Irgen.Record.{
  Number, Pointer, argument, by_pointer, Ty, int_ty, add_bin, slt_pred, Build, ◌>>=◌, give,
  create_block, set_insert_point, get_int, create_alloca, create_load, create_store,
  create_in_bounds_gep, create_binary, create_icmp, create_br, create_cond_br, create_ret_void,
  get_function, create_call,
}

abbrev pub int32_ty : Ty
int32_ty = int_ty 32

abbrev pub get_int32 : ℕ → Number
get_int32 n = get_int 32 n

abbrev pub get_int8 : ℕ → Number
get_int8 n = get_int 8 n

abbrev pub map_struct : Pointer
map_struct = argument 0

-- `{0, field, i, j}`, the path to a cell of a plane of the map.
abbrev pub idx_list : ℕ → Number → Number → List Number
idx_list field i j = get_int32 0 ∷ get_int32 field ∷ i ∷ j ∷ []

-- The blocks of the loops, by their names.
abbrev pub bb_entry : ℕ
bb_entry = 0

abbrev pub bb_cond_i : ℕ
bb_cond_i = 1

abbrev pub bb_cond_j : ℕ
bb_cond_j = 2

abbrev pub bb_loop_i : ℕ
bb_loop_i = 3

abbrev pub bb_loop_j : ℕ
bb_loop_j = 4

abbrev pub bb_exit_i : ℕ
bb_exit_i = 5

abbrev pub bb_exit_j : ℕ
bb_exit_j = 6

abbrev pub bb_inc_j : ℕ
bb_inc_j = 7

abbrev pub bb_draw : ℕ
bb_draw = 8

-- The variables of the loops, and their values in the body.
pub record Counters : Type 0 where
  pub i : Pointer
  pub j : Pointer
  pub i_val : Number
  pub j_val : Number

-- The blocks of the loops, in the order of their numbers.
abbrev pub create_loop_blocks : Build Unit
create_loop_blocks = do
  _ ← create_block
  _ ← create_block
  _ ← create_block
  _ ← create_block
  _ ← create_block
  _ ← create_block
  _ ← create_block
  give tt

-- All that comes before the body.
abbrev pub create_loop_head : Build Counters
create_loop_head = do
  _ ← set_insert_point bb_entry
  i ← create_alloca int32_ty
  j ← create_alloca int32_ty
  _ ← create_store (get_int32 0) i
  _ ← create_br bb_cond_i
  _ ← set_insert_point bb_cond_i
  i_val ← create_load 32 i
  i_cmp ← create_icmp slt_pred i_val (get_int32 map_height)
  _ ← create_cond_br i_cmp bb_loop_i bb_exit_i
  _ ← set_insert_point bb_loop_i
  _ ← create_store (get_int32 0) j
  _ ← create_br bb_cond_j
  _ ← set_insert_point bb_cond_j
  j_val ← create_load 32 j
  j_cmp ← create_icmp slt_pred j_val (get_int32 map_width)
  _ ← create_cond_br j_cmp bb_loop_j bb_exit_j
  let cs : Counters = record { i = i; j = j; i_val = i_val; j_val = j_val }
  give cs

-- The end of a turn of the inner loop.
abbrev pub create_inc_j : Counters → Build Unit
create_inc_j v = do
  j_val_inc ← create_binary add_bin v.j_val (get_int32 1)
  _ ← create_store j_val_inc v.j
  create_br bb_cond_j

-- The end of a turn of the outer loop.
abbrev pub create_exit_j : Counters → Build Unit
create_exit_j v = do
  _ ← set_insert_point bb_exit_j
  i_val_inc ← create_binary add_bin v.i_val (get_int32 1)
  _ ← create_store i_val_inc v.i
  create_br bb_cond_i

-- The end of the functions that count the neighbours last.
abbrev pub create_exit_i : Build Unit
create_exit_i = do
  _ ← set_insert_point bb_exit_i
  update_neighbour_count ← get_function "update_neighbour_count"
  _ ← create_call update_neighbour_count (by_pointer map_struct ∷ [])
  create_ret_void

-- The value of a cell of the map.
abbrev pub create_load_cell : ℕ → Number → Number → Build Number
create_load_cell field i j = do
  p ← create_in_bounds_gep map_struct (idx_list field i j)
  create_load 8 p
