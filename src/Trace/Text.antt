-- ===== src/Trace/Text.antt =====
-- The texts of trace/TraceGenPass.cpp.
use Prim.Native.Char.{code}
use Prim.Native.String.{String, [], ◌∷◌}
use llvm_mipt.Base.{ℕ, Bool, ◌||◌, ◌&&◌, ◌==◌, leb, if◌then◌else◌}

-- `std::isspace`: a tab, a line feed, a vertical tab, a form feed, a carriage return, or a space.
abbrev is_space : ℕ → Bool
is_space n = (n == 32) || (leb 9 n && leb n 13)

unfoldable pub ltrim : String → String
ltrim [] = []
ltrim (c ∷ s) = let rest = ltrim s in if is_space (code c) then rest else c ∷ s
