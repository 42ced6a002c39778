-- ===== src/Trace/Pass.antt =====
-- The functions of trace/TraceGenPass.cpp. What LLVM prints for an instruction and for a block are
-- parts of the model of these; an instruction is known by its address, which no other one has.
use Prim.Native.String.{◌++◌ as str_append}
use llvm_mipt.Base.{
  ℕ, Bool, Option, none, some, List, [], ◌∷◌, ◌++◌, map, String, ◌==◌, if◌then◌else◌,
}
use llvm_mipt.Trace.Text.{ltrim}

-- `text` is what LLVM prints.
pub record Instruction : Type 0 where
  pub address : ℕ
  pub is_phi : Bool
  pub is_return : Bool
  pub text : String

-- An instruction of the function, or a call of `puts` on a text that the pass has inserted.
pub data Item : Type 0 where
  original : Instruction → Item
  puts : String → Item

-- `label` is what LLVM prints as the operand.
pub record BasicBlock (A : Type 0) : Type 0 where
  pub label : String
  pub code : List A

pub record Function (A : Type 0) : Type 0 where
  pub name : String
  pub entry : BasicBlock A
  pub others : List (BasicBlock A)

abbrev pub to_string : Instruction → String
to_string i = ltrim i.text

abbrev quote : String → String → String → String
quote before name after = str_append before (str_append name after)

abbrev pub begin_text : String → String
begin_text name = quote "; begin function '" name "'"

abbrev pub end_text : String → String
end_text name = quote "; end function '" name "'"

abbrev pub block_text : String → String → String
block_text name label = str_append (quote "; function '" name "' BB '") (str_append label "'")

-- The first instruction that is not a PHI; `none` is the end of the block.
unfoldable pub find_non_phi : List Instruction → Option Instruction
find_non_phi [] = none
find_non_phi (i ∷ is) = let rest = find_non_phi is in if i.is_phi then rest else some i

-- An insertion place with the text to dump.
abbrev pub TraceCall : Type 0
TraceCall = ℕ × String

abbrev pub add_call :
    Option Instruction → String → Option (List TraceCall) → Option (List TraceCall)
add_call none s cs = none
add_call (some i) s none = none
add_call (some i) s (some cs) = some ((i.address, s) ∷ cs)

-- The calls for the instructions of a block; `none` where the end is dereferenced.
unfoldable pub trace_instructions : List Instruction → Option (List TraceCall)
trace_instructions [] = some []
trace_instructions (i ∷ is) = add_call (find_non_phi (i ∷ is)) (to_string i) (trace_instructions is)

unfoldable pub trace_block : String → BasicBlock Instruction → Option (List TraceCall)
trace_block name b =
    add_call (find_non_phi b.code) (block_text name b.label) (trace_instructions b.code)

abbrev pub join_calls : Option (List TraceCall) → Option (List TraceCall) → Option (List TraceCall)
join_calls none ds = none
join_calls (some cs) none = none
join_calls (some cs) (some ds) = some (cs ++ ds)

-- The first loop over the blocks.
unfoldable pub trace_blocks : String → List (BasicBlock Instruction) → Option (List TraceCall)
trace_blocks name [] = some []
trace_blocks name (b ∷ bs) = join_calls (trace_block name b) (trace_blocks name bs)

-- A call inserted before the instruction at an address.
unfoldable pub insert_before : ℕ → String → List Item → List Item
insert_before a s [] = []
insert_before a s (puts t ∷ is) = puts t ∷ insert_before a s is
insert_before a s (original i ∷ is) =
    let rest = insert_before a s is in
    if i.address == a then puts s ∷ original i ∷ rest else original i ∷ rest

abbrev pub on_code : {A B : Type 0} → (List A → List B) → BasicBlock A → BasicBlock B
on_code f b = record { label = b.label; code = f b.code }

abbrev pub on_blocks : {A B : Type 0} → (List A → List B) → Function A → Function B
on_blocks f g = record {
  name = g.name;
  entry = on_code f g.entry;
  others = map (on_code f) g.others;
}

-- The second loop, over the prepared calls.
unfoldable pub insert_calls : List TraceCall → Function Item → Function Item
insert_calls [] f = f
insert_calls (c ∷ cs) f = insert_calls cs (on_blocks (insert_before c.0 c.1) f)

-- `BB.back()`
unfoldable pub back : List Item → Option Item
back [] = none
back (i ∷ []) = some i
back (i ∷ j ∷ is) = back (j ∷ is)

abbrev pub trace_return : String → Option Item → List Item → List Item
trace_return name (some (original i)) is =
    if i.is_return then insert_before i.address (end_text name) is else is
trace_return name (some (puts s)) is = is
trace_return name none is = is

-- The third loop, on one block.
unfoldable pub trace_exit : String → List Item → List Item
trace_exit name is = trace_return name (back is) is

-- The calls, and the address of the first instruction of the entry block.
abbrev pub trace_function :
    Function Instruction → Option (List TraceCall) → List Instruction → Option (Function Item)
trace_function f none front = none
trace_function f (some cs) [] = none
trace_function f (some cs) (i ∷ is) =
    let start =
      on_blocks (insert_before i.address (begin_text f.name)) (on_blocks (map original) f) in
    some (on_blocks (trace_exit f.name) (insert_calls cs start))

-- `runOnFunction`
unfoldable pub run_on_function : Function Instruction → Option (Function Item)
run_on_function f = trace_function f (trace_blocks f.name (f.entry ∷ f.others)) f.entry.code
