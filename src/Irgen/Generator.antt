-- ===== src/Irgen/Generator.antt =====
-- The functions of irgen/main.cpp that declare what the module uses, `CreateMainFunc`, and `main` up
-- to the finished module. Printing, verifying and running the module is LLVM's.
use llvm_mipt.Base.{Bool, true, Option, none, some, [], ◌∷◌, ◌++◌, String, str_eq, if◌then◌else◌}
use llvm_mipt.Life.{sim_rgb}
use llvm_mipt.Irgen.Record.{
  by_value, by_pointer, void_ty, map_struct_ty, map_pointer_ty, Module, get_or_insert_function,
  ◌>>=◌, create_block, set_insert_point, create_alloca, create_br, get_function, create_call,
  write_function,
}
use llvm_mipt.Irgen.Functions.{
  get_int32, int32_ty, create_update_neighbour_count_func, create_draw_map_func,
  create_update_map_func, create_init_map_func,
}

-- `CreateColorScheme`, whose colors are those of life_game/src/life.c.
abbrev pub create_color_scheme : Module → Module
create_color_scheme m = record m {
  globals =
      m.globals
      ++ ((
        "color_scheme",
        sim_rgb 240 223 36
            ∷ sim_rgb 98 240 36
            ∷ sim_rgb 36 240 214
            ∷ sim_rgb 36 194 240
            ∷ sim_rgb 36 50 240
            ∷ sim_rgb 194 236 240
            ∷ sim_rgb 240 36 28
            ∷ sim_rgb 240 60 36
            ∷ sim_rgb 240 122 36
            ∷ [],
      )
          ∷ []);
}

abbrev pub declare_builtins : Module → Module
declare_builtins m =
    let a = get_or_insert_function "sim_clear" void_ty (int32_ty ∷ []) m in
    let b = get_or_insert_function "sim_display" void_ty [] a in
    let c =
      get_or_insert_function "sim_set_pixel" void_ty
        (int32_ty ∷ int32_ty ∷ int32_ty ∷ int32_ty ∷ []) b in
    get_or_insert_function "sim_rand" int32_ty [] c

abbrev pub declare_functions : Module → Module
declare_functions m =
    let a = get_or_insert_function "update_neighbour_count" void_ty (map_pointer_ty ∷ []) m in
    let b = get_or_insert_function "init_map" void_ty (map_pointer_ty ∷ []) a in
    let c = get_or_insert_function "draw_map" void_ty (map_pointer_ty ∷ []) b in
    get_or_insert_function "update_map" void_ty (map_pointer_ty ∷ []) c

unfoldable pub create_main_func : Module → Option Module
create_main_func m =
    write_function "main"
      (do
        _ ← create_block
        _ ← create_block
        _ ← set_insert_point 0
        map_struct ← create_alloca map_struct_ty
        init_map ← get_function "init_map"
        _ ← create_call init_map (by_pointer map_struct ∷ [])
        _ ← create_br 1
        _ ← set_insert_point 1
        sim_clear ← get_function "sim_clear"
        _ ← create_call sim_clear (by_value (get_int32 (sim_rgb 128 128 128)) ∷ [])
        draw_map ← get_function "draw_map"
        _ ← create_call draw_map (by_pointer map_struct ∷ [])
        sim_display ← get_function "sim_display"
        _ ← create_call sim_display []
        update_map ← get_function "update_map"
        _ ← create_call update_map (by_pointer map_struct ∷ [])
        create_br 1)
      (get_or_insert_function "main" int32_ty [] m)

-- One of the functions that write to the module, after the others.
abbrev then_create : Option Module → (Module → Option Module) → Option Module
then_create none f = none
then_create (some m) f = f m

abbrev pub empty_module : Module
empty_module = record { functions = []; globals = [] }

-- `main` up to the finished module.
unfoldable pub create_module : Option Module
unfolding create_update_neighbour_count_func create_draw_map_func create_update_map_func
    create_init_map_func create_main_func
create_module =
    let declared = create_color_scheme (declare_functions (declare_builtins empty_module)) in
    let a = create_update_neighbour_count_func declared in
    let b = then_create a create_draw_map_func in
    let c = then_create b create_update_map_func in
    let d = then_create c create_init_map_func in then_create d create_main_func

-- `LazyFunctionCreator`: the names that it finds an address for.
abbrev pub lazy_function_creator : String → Bool
lazy_function_creator name =
    if str_eq name "sim_clear"
    then true
    else if str_eq name "sim_display"
    then true
    else if str_eq name "sim_set_pixel"
    then true
    else str_eq name "sim_rand"

abbrev module_or_empty : Option Module → Module
module_or_empty none = empty_module
module_or_empty (some m) = m

-- The module that `main` has built.
unfoldable pub generated : Module
generated = module_or_empty create_module
