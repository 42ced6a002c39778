-- ===== src/Jit/Devices.antt =====
-- `handleStore` and `handleLoad` of asm/src/qrisc-llvm-sim.cpp, which the compiled code calls. The
-- state is the one of the interpreter: `SimMemory`, `SimPixelColor` and the rest.
use llvm_mipt.Base.{ℕ, ◌%◌, ◌^◌, not, ◌==◌, leb, bit_and, if◌then◌else◌}
use llvm_mipt.Base.Word.{shr}
use llvm_mipt.Sim.State.{
  Machine, Outcome, ok, stop, ◌>>=◌, trap, read_illegal_address, read_illegal_mmio,
  write_illegal_address, write_illegal_mmio, put_char, sim_clear, sim_display, sim_set_pixel,
  read_uint_from_memory, write_uint_to_memory,
}
use llvm_mipt.Sim.Device.{
  is_mmio, getchar, sim_rand, emit, mmio_io_stdin, mmio_io_stdout, mmio_sim_clear, mmio_sim_display,
  mmio_sim_pixel_color, mmio_sim_pixel_shape, mmio_sim_set_pixel, mmio_sim_rand,
}

unfoldable pub handle_store : ℕ → ℕ → Machine → Outcome Machine
handle_store value addr m =
    if not (is_mmio addr)
    then (if leb m.mem_size addr
        then stop (trap (write_illegal_address addr))
        else write_uint_to_memory addr value m)
    else if addr == mmio_io_stdout
    then ok (emit (put_char (value % 2 ^ 8)) m)
    else if addr == mmio_sim_clear
    then ok (emit (sim_clear value) m)
    else if addr == mmio_sim_display
    then ok (emit sim_display m)
    else if addr == mmio_sim_pixel_color
    then ok (record m { pixel_color = value })
    else if addr == mmio_sim_pixel_shape
    then ok (record m { pixel_shape = value })
    else if addr == mmio_sim_set_pixel
    then ok (
        emit
          (sim_set_pixel (bit_and (shr value 16) 0xffff) (bit_and value 0xffff) m.pixel_color
            m.pixel_shape)
          m)
    else stop (trap (write_illegal_mmio addr))

-- The value and the state after it.
unfoldable pub handle_load : ℕ → Machine → Outcome (ℕ × Machine)
handle_load addr m =
    if not (is_mmio addr)
    then (if leb m.mem_size addr
        then stop (trap (read_illegal_address addr))
        else (read_uint_from_memory addr m >>= λ v. ok (v, m)))
    else if addr == mmio_io_stdin
    then ok (getchar m)
    else if addr == mmio_sim_pixel_color
    then ok (m.pixel_color, m)
    else if addr == mmio_sim_pixel_shape
    then ok (m.pixel_shape, m)
    else if addr == mmio_sim_rand
    then ok (sim_rand m)
    else stop (trap (read_illegal_mmio addr))
