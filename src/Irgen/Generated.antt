-- ===== src/Irgen/Generated.antt =====
-- The bodies of the functions that irgen/main.cpp generates, and where they stand in the module.
use llvm_mipt.Base.{ℕ, ◌≡◌, refl, arith, some, List, [], ◌∷◌, get_elem?}
use llvm_mipt.Life.{color_scheme}
use llvm_mipt.Irgen.Record.{
  result, Number, argument, address, global, by_value, by_pointer, map_struct_ty, add_bin, urem_bin,
  srem_bin, and_bin, or_bin, eq_pred, ne_pred, Inst, alloca, load, store, in_bounds_gep, binary,
  bit_not, icmp, zext, call, br, cond_br, ret_void,
}
use llvm_mipt.Irgen.Functions.{
  get_int32, get_int8, create_update_neighbour_count_func, create_draw_map_func,
  create_update_map_func, create_init_map_func,
}
use llvm_mipt.Irgen.Generator.{create_main_func, create_module, generated}
use llvm_mipt.Irgen.Semantics.{blocks_of, array_of}
use llvm_mipt.Irgen.Blocks.{word, bit, HasLoops}

abbrev pub byte : ℕ → Number
byte k = record { width = 8; operand = result k }

abbrev pub return_block : List Inst
return_block = ret_void ∷ []

-- The block that counts the neighbours, by the number of the call.
abbrev pub count_block : ℕ → List Inst
count_block k = call k "update_neighbour_count" (by_pointer (argument 0) ∷ []) ∷ ret_void ∷ []

abbrev pub count_turn : List Inst
count_turn =
    binary 12 add_bin (word 9) (get_int32 199)
    ∷ binary 13 urem_bin (word 12) (get_int32 200)
    ∷ binary 14 add_bin (word 9) (get_int32 1)
    ∷ binary 15 urem_bin (word 14) (get_int32 200)
    ∷ binary 16 add_bin (word 4) (get_int32 99)
    ∷ binary 17 urem_bin (word 16) (get_int32 100)
    ∷ binary 18 add_bin (word 4) (get_int32 1)
    ∷ binary 19 urem_bin (word 18) (get_int32 100)
    ∷ in_bounds_gep 20 (argument 0) ((get_int32 0) ∷ (get_int32 0) ∷ (word 17) ∷ (word 13) ∷ [])
    ∷ load 21 8 (address 20)
    ∷ in_bounds_gep 22 (argument 0) ((get_int32 0) ∷ (get_int32 0) ∷ (word 17) ∷ (word 9) ∷ [])
    ∷ load 23 8 (address 22)
    ∷ in_bounds_gep 24 (argument 0) ((get_int32 0) ∷ (get_int32 0) ∷ (word 17) ∷ (word 15) ∷ [])
    ∷ load 25 8 (address 24)
    ∷ in_bounds_gep 26 (argument 0) ((get_int32 0) ∷ (get_int32 0) ∷ (word 4) ∷ (word 13) ∷ [])
    ∷ load 27 8 (address 26)
    ∷ in_bounds_gep 28 (argument 0) ((get_int32 0) ∷ (get_int32 0) ∷ (word 4) ∷ (word 15) ∷ [])
    ∷ load 29 8 (address 28)
    ∷ in_bounds_gep 30 (argument 0) ((get_int32 0) ∷ (get_int32 0) ∷ (word 19) ∷ (word 13) ∷ [])
    ∷ load 31 8 (address 30)
    ∷ in_bounds_gep 32 (argument 0) ((get_int32 0) ∷ (get_int32 0) ∷ (word 19) ∷ (word 9) ∷ [])
    ∷ load 33 8 (address 32)
    ∷ in_bounds_gep 34 (argument 0) ((get_int32 0) ∷ (get_int32 0) ∷ (word 19) ∷ (word 15) ∷ [])
    ∷ load 35 8 (address 34)
    ∷ binary 36 add_bin (byte 21) (byte 23)
    ∷ binary 37 add_bin (byte 25) (byte 27)
    ∷ binary 38 add_bin (byte 36) (byte 37)
    ∷ binary 39 add_bin (byte 29) (byte 31)
    ∷ binary 40 add_bin (byte 33) (byte 35)
    ∷ binary 41 add_bin (byte 39) (byte 40)
    ∷ binary 42 add_bin (byte 38) (byte 41)
    ∷ in_bounds_gep 43 (argument 0) ((get_int32 0) ∷ (get_int32 1) ∷ (word 4) ∷ (word 9) ∷ [])
    ∷ store (byte 42) (address 43)
    ∷ binary 45 add_bin (word 9) (get_int32 1)
    ∷ store (word 45) (address 1)
    ∷ br 2
    ∷ []

abbrev pub update_turn : List Inst
update_turn =
    in_bounds_gep 12 (argument 0) ((get_int32 0) ∷ (get_int32 0) ∷ (word 4) ∷ (word 9) ∷ [])
    ∷ load 13 8 (address 12)
    ∷ icmp 14 ne_pred (byte 13) (get_int8 0)
    ∷ bit_not 15 (bit 14)
    ∷ in_bounds_gep 16 (argument 0) ((get_int32 0) ∷ (get_int32 1) ∷ (word 4) ∷ (word 9) ∷ [])
    ∷ load 17 8 (address 16)
    ∷ icmp 18 eq_pred (byte 17) (get_int8 2)
    ∷ icmp 19 eq_pred (byte 17) (get_int8 3)
    ∷ binary 20 and_bin (bit 14) (bit 18)
    ∷ binary 21 and_bin (bit 14) (bit 19)
    ∷ binary 22 and_bin (bit 15) (bit 19)
    ∷ binary 23 or_bin (bit 20) (bit 21)
    ∷ binary 24 or_bin (bit 23) (bit 22)
    ∷ zext 25 (bit 24) 8
    ∷ store (byte 25) (address 12)
    ∷ binary 27 add_bin (word 9) (get_int32 1)
    ∷ store (word 27) (address 1)
    ∷ br 2
    ∷ []

abbrev pub init_turn : List Inst
init_turn =
    call 12 "sim_rand" []
    ∷ binary 13 srem_bin (word 12) (get_int32 5)
    ∷ icmp 14 eq_pred (word 13) (get_int32 0)
    ∷ zext 15 (bit 14) 8
    ∷ in_bounds_gep 16 (argument 0) ((get_int32 0) ∷ (get_int32 0) ∷ (word 4) ∷ (word 9) ∷ [])
    ∷ store (byte 15) (address 16)
    ∷ binary 18 add_bin (word 9) (get_int32 1)
    ∷ store (word 18) (address 1)
    ∷ br 2
    ∷ []

abbrev pub draw_test : List Inst
draw_test =
    in_bounds_gep 12 (argument 0) ((get_int32 0) ∷ (get_int32 0) ∷ (word 4) ∷ (word 9) ∷ [])
    ∷ load 13 8 (address 12)
    ∷ icmp 14 ne_pred (byte 13) (get_int8 0)
    ∷ cond_br (bit 14) 8 7
    ∷ []

abbrev pub draw_inc : List Inst
draw_inc = binary 22 add_bin (word 9) (get_int32 1) ∷ store (word 22) (address 1) ∷ br 2 ∷ []

abbrev pub draw_pixel : List Inst
draw_pixel =
    in_bounds_gep 16 (argument 0) ((get_int32 0) ∷ (get_int32 1) ∷ (word 4) ∷ (word 9) ∷ [])
    ∷ load 17 8 (address 16)
    ∷ in_bounds_gep 18 (global "color_scheme") ((get_int32 0) ∷ (byte 17) ∷ [])
    ∷ load 19 32 (address 18)
    ∷ call 20 "sim_set_pixel"
        (by_value (word 9) ∷ by_value (word 4) ∷ by_value (word 19) ∷ by_value (get_int32 32) ∷ [])
    ∷ br 7
    ∷ []

abbrev pub main_entry : List Inst
main_entry = alloca 0 map_struct_ty ∷ call 1 "init_map" (by_pointer (address 0) ∷ []) ∷ br 1 ∷ []

abbrev pub main_loop : List Inst
main_loop =
    call 3 "sim_clear" (by_value (get_int32 2155905279) ∷ [])
    ∷ call 4 "draw_map" (by_pointer (address 0) ∷ [])
    ∷ call 5 "sim_display" []
    ∷ call 6 "update_map" (by_pointer (address 0) ∷ [])
    ∷ br 1
    ∷ []

pub update_neighbour_count-HasLoops :
    HasLoops (blocks_of "update_neighbour_count" generated) count_turn return_block 48
unfolding generated create_module create_update_neighbour_count_func create_draw_map_func
    create_update_map_func create_init_map_func create_main_func
update_neighbour_count-HasLoops = record {
  entry = refl;
  cond_i = refl;
  cond_j = refl;
  loop_i = refl;
  loop_j = refl;
  exit_i = refl;
  exit_j = refl;
  later = omega arith;
}

pub update_map-HasLoops :
    HasLoops (blocks_of "update_map" generated) update_turn (count_block 33) 30
unfolding generated create_module create_update_neighbour_count_func create_draw_map_func
    create_update_map_func create_init_map_func create_main_func
update_map-HasLoops = record {
  entry = refl;
  cond_i = refl;
  cond_j = refl;
  loop_i = refl;
  loop_j = refl;
  exit_i = refl;
  exit_j = refl;
  later = omega arith;
}

pub init_map-HasLoops : HasLoops (blocks_of "init_map" generated) init_turn (count_block 24) 21
unfolding generated create_module create_update_neighbour_count_func create_draw_map_func
    create_update_map_func create_init_map_func create_main_func
init_map-HasLoops = record {
  entry = refl;
  cond_i = refl;
  cond_j = refl;
  loop_i = refl;
  loop_j = refl;
  exit_i = refl;
  exit_j = refl;
  later = omega arith;
}

pub draw_map-HasLoops : HasLoops (blocks_of "draw_map" generated) draw_test (count_block 28) 25
unfolding generated create_module create_update_neighbour_count_func create_draw_map_func
    create_update_map_func create_init_map_func create_main_func
draw_map-HasLoops = record {
  entry = refl;
  cond_i = refl;
  cond_j = refl;
  loop_i = refl;
  loop_j = refl;
  exit_i = refl;
  exit_j = refl;
  later = omega arith;
}

pub draw_map_block_inc_j : get_elem? (blocks_of "draw_map" generated) 7 ≡ some draw_inc
unfolding generated create_module create_update_neighbour_count_func create_draw_map_func
    create_update_map_func create_init_map_func create_main_func
draw_map_block_inc_j = refl

pub draw_map_block_draw : get_elem? (blocks_of "draw_map" generated) 8 ≡ some draw_pixel
unfolding generated create_module create_update_neighbour_count_func create_draw_map_func
    create_update_map_func create_init_map_func create_main_func
draw_map_block_draw = refl

pub main_block_entry : get_elem? (blocks_of "main" generated) 0 ≡ some main_entry
unfolding generated create_module create_update_neighbour_count_func create_draw_map_func
    create_update_map_func create_init_map_func create_main_func
main_block_entry = refl

pub main_block_loop : get_elem? (blocks_of "main" generated) 1 ≡ some main_loop
unfolding generated create_module create_update_neighbour_count_func create_draw_map_func
    create_update_map_func create_init_map_func create_main_func
main_block_loop = refl

pub generated_color_scheme : array_of "color_scheme" generated.globals ≡ color_scheme
unfolding generated create_module create_update_neighbour_count_func create_draw_map_func
    create_update_map_func create_init_map_func create_main_func
generated_color_scheme = refl
