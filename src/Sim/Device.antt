-- ===== src/Sim/Device.antt =====
-- The memory-mapped devices: `handleLoad` and `handleStore` of asm/src/qrisc-sim.cpp, and
-- `sim_rand` of life_game/sim/sim.cpp. The window of sim.cpp is seen through the calls that reach
-- it. The messages of the tracing options are left out: they change no state.
use llvm_mipt.Base.{ℕ, ◌+◌, ◌*◌, ◌%◌, ◌^◌, Bool, not, [], ◌∷◌, ◌==◌, leb, bit_and, if◌then◌else◌}
use llvm_mipt.Base.Word.{add32, shr}
use llvm_mipt.Instr.{Instr, r1, r2, imm}
use llvm_mipt.Sim.State.{
  Machine, Event, put_char, sim_clear, sim_display, sim_set_pixel, Outcome, ok, stop, ◌>>=◌, trap,
  read_illegal_address, read_illegal_mmio, write_illegal_address, write_illegal_mmio, or_assert,
  write_reg, read_uint_from_memory, write_uint_to_memory,
}

abbrev pub mmio_io_stdin : ℕ
mmio_io_stdin = 0xffffff00

abbrev pub mmio_io_stdout : ℕ
mmio_io_stdout = 0xffffff01

abbrev pub mmio_sim_clear : ℕ
mmio_sim_clear = 0xffffff10

abbrev pub mmio_sim_display : ℕ
mmio_sim_display = 0xffffff11

abbrev pub mmio_sim_pixel_color : ℕ
mmio_sim_pixel_color = 0xffffff12

abbrev pub mmio_sim_pixel_shape : ℕ
mmio_sim_pixel_shape = 0xffffff13

abbrev pub mmio_sim_set_pixel : ℕ
mmio_sim_set_pixel = 0xffffff14

abbrev pub mmio_sim_rand : ℕ
mmio_sim_rand = 0xffffff15

abbrev pub mmio_mask : ℕ
mmio_mask = 0xffffff00

unfoldable pub is_mmio : ℕ → Bool
is_mmio addr = bit_and addr mmio_mask == mmio_mask

-- The end of the input reads as `EOF`, -1.
unfoldable pub getchar : Machine → ℕ × Machine
getchar m = elim m.input [
  | [] ↦ (0xffffffff, m)
  | c ∷ rest ↦ (c % 2 ^ 8, record m { input = rest })
]

-- `seed = (1103515245 * seed + 12345) % (1 << 31)` over the pattern of an `int`. The product is
-- taken to wrap and `1 << 31` to be the least `int`, whose only multiples are itself and 0.
unfoldable pub next_seed : ℕ → ℕ
next_seed seed = let sum = (1103515245 * seed + 12345) % 2 ^ 32 in if sum == 2 ^ 31 then 0 else sum

unfoldable pub sim_rand : Machine → ℕ × Machine
sim_rand m = let seed = next_seed m.seed in (seed, record m { seed = seed })

abbrev pub emit : Event → Machine → Machine
emit e m = record m { events = e ∷ m.events }

-- The part of `handleLoad` that finds the value.
unfoldable pub load_value : ℕ → Machine → Outcome (ℕ × Machine)
load_value addr m =
    if not (is_mmio addr)
    then (if leb m.mem_size addr
        then stop (trap (read_illegal_address addr))
        else (read_uint_from_memory addr m >>= λ v. ok (v, m)))
    else if addr == mmio_io_stdin
    then ok (getchar m)
    else if addr == mmio_sim_pixel_color
    then ok (m.pixel_color, m)
    else if addr == mmio_sim_pixel_shape
    then ok (m.pixel_shape, m)
    else if addr == mmio_sim_rand
    then ok (sim_rand m)
    else stop (trap (read_illegal_mmio addr))

unfoldable pub handle_load : Instr → Machine → Outcome Machine
handle_load ins m = do
  i ← or_assert (imm ins)
  r ← load_value (add32 (m.reg (r2 ins)) i) m
  write_reg (r1 ins) r.0 r.1

unfoldable pub store_value : ℕ → ℕ → Machine → Outcome Machine
store_value addr value m =
    if not (is_mmio addr)
    then (if leb m.mem_size addr
        then stop (trap (write_illegal_address addr))
        else write_uint_to_memory addr value m)
    else if addr == mmio_io_stdout
    then ok (emit (put_char (value % 2 ^ 8)) m)
    else if addr == mmio_sim_clear
    then ok (emit (sim_clear value) m)
    else if addr == mmio_sim_display
    then ok (emit sim_display m)
    else if addr == mmio_sim_pixel_color
    then ok (record m { pixel_color = value })
    else if addr == mmio_sim_pixel_shape
    then ok (record m { pixel_shape = value })
    else if addr == mmio_sim_set_pixel
    then ok (
        emit
          (sim_set_pixel (bit_and (shr value 16) 0xffff) (bit_and value 0xffff) m.pixel_color
            m.pixel_shape)
          m)
    else stop (trap (write_illegal_mmio addr))

unfoldable pub handle_store : Instr → Machine → Outcome Machine
handle_store ins m = do
  i ← or_assert (imm ins)
  store_value (add32 (m.reg (r2 ins)) i) (m.reg (r1 ins)) m
