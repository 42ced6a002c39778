-- ===== src/Jit/Semantics.antt =====
-- What asm/src/qrisc-llvm-sim.cpp relies on of LLVM for code without branches: the documented
-- behaviour of the instructions that it builds, as hypotheses on the parameter `Builder`.
use llvm_mipt.Base.{ℕ, ◌^◌, ◌<◌, ◌≡◌, bit_and, bit_or, bit_xor, String}
use llvm_mipt.Base.Word.{add32, sub32, mul32, shl32}
use llvm_mipt.Sim.State.{Machine, Outcome, ok, update}
use llvm_mipt.Sim.Exec.{pure, divu, remu}
use llvm_mipt.Jit.Builder.{
  Builder, BinaryOp, add_bin, and_bin, or_bin, xor_bin, sub_bin, mul_bin, udiv_bin, urem_bin,
}
use llvm_mipt.Jit.Devices.{handle_load, handle_store}

-- The binary instructions on i32; a division by 0 is undefined.
abbrev pub meaning : BinaryOp → ℕ → ℕ → Outcome ℕ
meaning add_bin = pure add32
meaning and_bin = pure bit_and
meaning or_bin = pure bit_or
meaning xor_bin = pure bit_xor
meaning sub_bin = pure sub32
meaning mul_bin = pure mul32
meaning udiv_bin = divu
meaning urem_bin = remu

-- `Runs c m0 m`: the code up to the insertion point, run from `m0`, comes there in `m`; the
-- registers of `m` are `__reg_file`. `Gives m0 v n`: in a run from `m0` the value is `n`. Code is
-- only appended, so that a value stays what it is.
pub record Semantics (b : Builder) : Type 1 where
  pub Runs : Builder.Code b → Machine → Machine → Type 0
  pub Gives : Machine → Builder.Value b → ℕ → Type 0
  pub start_runs :
      (name : String) (m : Machine)
      → let x = b.create_block name b.start in Runs (b.set_insert_point x.0 x.1) m m
  pub ret_runs : (c : b.Code) (m0 m : Machine) → Runs c m0 m → Runs (b.create_ret_void c) m0 m
  pub int32_gives : (m0 : Machine) (n : ℕ) → n < 2 ^ 32 → Gives m0 (b.get_int32 n) n
  pub load_runs :
      (idx : ℕ) (c : b.Code) (m0 m : Machine)
      → Runs c m0 m
      → let x = b.create_load idx c in Gives m0 x.0 (m.reg idx) × Runs x.1 m0 m
  pub store_runs :
      (v : b.Value) (n idx : ℕ) (c : b.Code) (m0 m : Machine)
      → Gives m0 v n
      → Runs c m0 m
      → Runs (b.create_store v idx c) m0 (record m { reg = update m.reg idx n })
  pub binary_runs :
      (op : BinaryOp) (u v : b.Value) (i j n : ℕ) (c : b.Code) (m0 m : Machine)
      → Gives m0 u i
      → Gives m0 v j
      → meaning op i j ≡ ok n
      → Runs c m0 m
      → let x = b.create_binary op u v c in Gives m0 x.0 n × Runs x.1 m0 m
  -- A shift by 32 or more is undefined.
  pub shl_runs :
      (u v : b.Value) (i j : ℕ) (c : b.Code) (m0 m : Machine)
      → Gives m0 u i
      → Gives m0 v j
      → j < 32
      → Runs c m0 m
      → let x = b.create_shl u v c in Gives m0 x.0 (shl32 i j) × Runs x.1 m0 m
  pub call_load_runs :
      (a : b.Value) (addr n : ℕ) (c : b.Code) (m0 m m1 : Machine)
      → Gives m0 a addr
      → Runs c m0 m
      → handle_load addr m ≡ ok (n, m1)
      → let x = b.call_load a c in Gives m0 x.0 n × Runs x.1 m0 m1
  pub call_store_runs :
      (v a : b.Value) (n addr : ℕ) (c : b.Code) (m0 m m1 : Machine)
      → Gives m0 v n
      → Gives m0 a addr
      → Runs c m0 m
      → handle_store n addr m ≡ ok m1
      → Runs (b.call_store v a c) m0 m1
