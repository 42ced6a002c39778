-- ===== src/Trace/Tests.antt =====
-- The trace pass on a function with a loop.
use llvm_mipt.Base.{◌≡◌, refl, true, false, some, [], ◌∷◌}
use llvm_mipt.Trace.Pass.{Instruction, Function, on_blocks, run_on_function}
use llvm_mipt.Trace.Proper.{IsProper, traced}
use llvm_mipt.Trace.Whole.{originals, run_on_function-traced}

-- A block that counts, and its exit.
abbrev counting : Function Instruction
counting = record {
  name = "count";
  entry = record {
    label = "%entry";
    code =
        record { address = 1; is_phi = false; is_return = false; text = "  br label %loop" } ∷ [];
  };
  others =
      record {
        label = "%loop";
        code =
            record {
              address = 2;
              is_phi = true;
              is_return = false;
              text = "  %i = phi i32 [ 0, %entry ], [ %j, %loop ]";
            }
            ∷ record {
              address = 3;
              is_phi = false;
              is_return = false;
              text = "  %j = add i32 %i, 1";
            }
            ∷ record { address = 4; is_phi = false; is_return = true; text = "  ret i32 %j" }
            ∷ [];
      }
      ∷ [];
}

counting-IsProper : IsProper counting
counting-IsProper = record {
  blocks = (
    (refl, (tt, tt)),
    ((((refl, (refl, (refl, tt))), tt), ((refl, tt), ((refl, tt), ((refl, tt), tt)))), tt),
    ((refl, ((refl, (refl, tt)), ((refl, tt), (tt, tt)))), tt, tt),
  );
  starts = λ e. cc;
}

run_on_function-traced_example :
    (run_on_function counting ≡ some (traced counting))
    × (on_blocks originals (traced counting) ≡ counting)
run_on_function-traced_example = run_on_function-traced counting counting-IsProper
