-- ===== src/Irgen/Functions.antt =====
-- The functions of irgen/main.cpp that write the functions of the module over the map. Each builds
-- two nested loops over the rows and the columns, with the same lines around its own.
mod Parts
pub use Parts.*
use llvm_mipt.Base.{ℕ, ◌-◌, Option, List, [], ◌∷◌}
use llvm_mipt.Life.{map_width, map_height, pixel_shape}
use llvm_mipt.Irgen.Record.{
  Number, Pointer, argument, by_value, by_pointer, Ty, int_ty, add_bin, urem_bin, srem_bin, and_bin,
  or_bin, slt_pred, eq_pred, ne_pred, Module, Build, ◌>>=◌, give, create_block, set_insert_point,
  get_int, create_alloca, create_load, create_store, create_in_bounds_gep, create_binary,
  create_not, create_icmp, create_zext, create_br, create_cond_br, create_ret_void, get_function,
  create_call, create_call_value, get_named_global, write_function,
}
use llvm_mipt.Irgen.Functions.Parts.{
  int32_ty, get_int32, get_int8, map_struct, idx_list, bb_entry, bb_cond_i, bb_cond_j, bb_loop_i,
  bb_loop_j, bb_exit_i, bb_exit_j, bb_inc_j, bb_draw, Counters, create_loop_blocks,
  create_loop_head, create_inc_j, create_exit_j, create_exit_i, create_load_cell,
}

abbrev pub update_neighbour_count_body : Counters → Build Unit
update_neighbour_count_body v = do
  left ← create_binary add_bin v.j_val (get_int32 (map_width - 1))
  left_idx ← create_binary urem_bin left (get_int32 map_width)
  right ← create_binary add_bin v.j_val (get_int32 1)
  right_idx ← create_binary urem_bin right (get_int32 map_width)
  top ← create_binary add_bin v.i_val (get_int32 (map_height - 1))
  top_idx ← create_binary urem_bin top (get_int32 map_height)
  bottom ← create_binary add_bin v.i_val (get_int32 1)
  bottom_idx ← create_binary urem_bin bottom (get_int32 map_height)
  val_top_left ← create_load_cell 0 top_idx left_idx
  val_top ← create_load_cell 0 top_idx v.j_val
  val_top_right ← create_load_cell 0 top_idx right_idx
  val_left ← create_load_cell 0 v.i_val left_idx
  val_right ← create_load_cell 0 v.i_val right_idx
  val_bottom_left ← create_load_cell 0 bottom_idx left_idx
  val_bottom ← create_load_cell 0 bottom_idx v.j_val
  val_bottom_right ← create_load_cell 0 bottom_idx right_idx
  tmp1 ← create_binary add_bin val_top_left val_top
  tmp2 ← create_binary add_bin val_top_right val_left
  tmp12 ← create_binary add_bin tmp1 tmp2
  tmp3 ← create_binary add_bin val_right val_bottom_left
  tmp4 ← create_binary add_bin val_bottom val_bottom_right
  tmp34 ← create_binary add_bin tmp3 tmp4
  n_count ← create_binary add_bin tmp12 tmp34
  n_count_ptr ← create_in_bounds_gep map_struct (idx_list 1 v.i_val v.j_val)
  _ ← create_store n_count n_count_ptr
  create_inc_j v

unfoldable pub create_update_neighbour_count_func : Module → Option Module
create_update_neighbour_count_func = write_function "update_neighbour_count" do
  _ ← create_loop_blocks
  v ← create_loop_head
  _ ← set_insert_point bb_loop_j
  _ ← update_neighbour_count_body v
  _ ← create_exit_j v
  _ ← set_insert_point bb_exit_i
  create_ret_void

abbrev pub update_map_body : Counters → Build Unit
update_map_body v = do
  is_alive_ptr ← create_in_bounds_gep map_struct (idx_list 0 v.i_val v.j_val)
  is_alive ← create_load 8 is_alive_ptr
  alive_bit ← create_icmp ne_pred is_alive (get_int8 0)
  not_alive_bit ← create_not alive_bit
  n_count_ptr ← create_in_bounds_gep map_struct (idx_list 1 v.i_val v.j_val)
  n_count ← create_load 8 n_count_ptr
  n_count_eq2 ← create_icmp eq_pred n_count (get_int8 2)
  n_count_eq3 ← create_icmp eq_pred n_count (get_int8 3)
  cond1 ← create_binary and_bin alive_bit n_count_eq2
  cond2 ← create_binary and_bin alive_bit n_count_eq3
  cond3 ← create_binary and_bin not_alive_bit n_count_eq3
  cond_tmp ← create_binary or_bin cond1 cond2
  cond ← create_binary or_bin cond_tmp cond3
  set_alive ← create_zext cond 8
  _ ← create_store set_alive is_alive_ptr
  create_inc_j v

unfoldable pub create_update_map_func : Module → Option Module
create_update_map_func = write_function "update_map" do
  _ ← create_loop_blocks
  v ← create_loop_head
  _ ← set_insert_point bb_loop_j
  _ ← update_map_body v
  _ ← create_exit_j v
  create_exit_i

abbrev pub init_map_body : Counters → Build Unit
init_map_body v = do
  sim_rand ← get_function "sim_rand"
  rand ← create_call_value sim_rand []
  s_rem ← create_binary srem_bin rand (get_int32 5)
  cmp ← create_icmp eq_pred s_rem (get_int32 0)
  is_alive ← create_zext cmp 8
  elem ← create_in_bounds_gep map_struct (idx_list 0 v.i_val v.j_val)
  _ ← create_store is_alive elem
  create_inc_j v

unfoldable pub create_init_map_func : Module → Option Module
create_init_map_func = write_function "init_map" do
  _ ← create_loop_blocks
  v ← create_loop_head
  _ ← set_insert_point bb_loop_j
  _ ← init_map_body v
  _ ← create_exit_j v
  create_exit_i

-- The test of a cell, and the block that draws it.
abbrev pub draw_map_body : Counters → Build Unit
draw_map_body v = do
  is_alive_ptr ← create_in_bounds_gep map_struct (idx_list 0 v.i_val v.j_val)
  is_alive ← create_load 8 is_alive_ptr
  cmp ← create_icmp ne_pred is_alive (get_int8 0)
  _ ← create_cond_br cmp bb_draw bb_inc_j
  _ ← set_insert_point bb_draw
  n_count_ptr ← create_in_bounds_gep map_struct (idx_list 1 v.i_val v.j_val)
  n_count ← create_load 8 n_count_ptr
  cs ← get_named_global "color_scheme"
  color_ptr ← create_in_bounds_gep cs (get_int32 0 ∷ n_count ∷ [])
  color ← create_load 32 color_ptr
  sim_set_pixel ← get_function "sim_set_pixel"
  _ ←
      create_call sim_set_pixel (
        by_value v.j_val
        ∷ by_value v.i_val
        ∷ by_value color
        ∷ by_value (get_int32 pixel_shape)
        ∷ [])
  _ ← create_br bb_inc_j
  _ ← set_insert_point bb_inc_j
  create_inc_j v

unfoldable pub create_draw_map_func : Module → Option Module
create_draw_map_func = write_function "draw_map" do
  _ ← create_loop_blocks
  _ ← create_block
  _ ← create_block
  v ← create_loop_head
  _ ← set_insert_point bb_loop_j
  _ ← draw_map_body v
  _ ← create_exit_j v
  create_exit_i
