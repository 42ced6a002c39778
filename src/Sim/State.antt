-- ===== src/Sim/State.antt =====
-- The state of `Simulator` in asm/src/qrisc-sim.cpp, and reads and writes of registers and memory.
-- Registers and bytes are functions of their index; a write of a register checks the index, as the
-- source asserts, and every index that is read is a masked field of the word. Memory is little-endian, as on the hosts that
-- the build targets. A read or write that leaves `Memory` is undefined behaviour, and stops.
use llvm_mipt.Base.{
  ℕ, ◌+◌, ◌*◌, ◌/◌, ◌%◌, ◌^◌, Option, none, some, List, ◌==◌, ltb, leb, if◌then◌else◌,
}
use llvm_mipt.Instr.{reg_zero, reg_pc, reg_count}

-- What the program did to the display and to the standard output, the newest first.
pub data Event : Type 0 where
  put_char : ℕ → Event
  sim_clear : ℕ → Event
  sim_display : Event
  sim_set_pixel : ℕ → ℕ → ℕ → ℕ → Event

-- `input` is what `getchar` has still to give; `seed` is the variable of `sim_rand`.
pub record Machine : Type 0 where
  pub reg : ℕ → ℕ
  pub byte : ℕ → ℕ
  pub mem_size : ℕ
  pub pixel_color : ℕ
  pub pixel_shape : ℕ
  pub input : List ℕ
  pub seed : ℕ
  pub events : List Event

pub data Trap : Type 0 where
  write_to_rpc memory_too_small : Trap
  read_illegal_address read_illegal_mmio write_illegal_address write_illegal_mmio : ℕ → Trap
  illegal_opcode illegal_jump : ℕ → Trap

pub data Stop : Type 0 where
  trap : Trap → Stop
  assert_failed : Stop
  outside_memory : ℕ → Stop
  division_by_zero : Stop

pub data Outcome {ℓ} (A : Type ℓ) : Type ℓ where
  ok : A → Outcome A
  stop : Stop → Outcome A

infixl 5 ◌>>=◌
abbrev pub ◌>>=◌ {ℓ κ} : {A : Type ℓ} {B : Type κ} → Outcome A → (A → Outcome B) → Outcome B
ok a >>= f = f a
stop e >>= f = stop e

abbrev pub or_assert {ℓ} : {A : Type ℓ} → Option A → Outcome A
or_assert none = stop assert_failed
or_assert (some a) = ok a

abbrev pub update : (ℕ → ℕ) → ℕ → ℕ → ℕ → ℕ
update f i v k = if k == i then v else f k

abbrev pub get_pc : Machine → ℕ
get_pc m = m.reg reg_pc

unfoldable pub write_reg : ℕ → ℕ → Machine → Outcome Machine
write_reg idx value m =
    if ltb idx reg_count
    then if idx == reg_pc
      then stop (trap write_to_rpc)
      else if idx == reg_zero
      then ok m
      else ok (record m { reg = update m.reg idx value })
    else stop assert_failed

unfoldable pub read_uint_from_memory : ℕ → Machine → Outcome ℕ
read_uint_from_memory addr m =
    if leb (addr + 4) m.mem_size
    then ok (
        m.byte addr
        + m.byte (addr + 1) * 2 ^ 8
        + m.byte (addr + 2) * 2 ^ 16
        + m.byte (addr + 3) * 2 ^ 24)
    else stop (outside_memory addr)

-- The bytes of a word, as `memcpy` lays them out.
abbrev pub byte_of : ℕ → ℕ → ℕ
byte_of value k = value / 2 ^ (8 * k) % 2 ^ 8

unfoldable pub write_uint_to_memory : ℕ → ℕ → Machine → Outcome Machine
write_uint_to_memory addr value m =
    if leb (addr + 4) m.mem_size
    then ok (record m {
      byte =
          update
            (update (update (update m.byte addr (byte_of value 0)) (addr + 1) (byte_of value 1))
              (addr + 2) (byte_of value 2))
            (addr + 3) (byte_of value 3);
    })
    else stop (outside_memory addr)
