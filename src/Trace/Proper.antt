-- ===== src/Trace/Proper.antt =====
-- The functions that trace/TraceGenPass.cpp is given, and what it makes of them in one walk.
use llvm_mipt.Base.{ℕ, ◌≡◌, refl, ap₂, ◌∙◌, true, List, [], ◌∷◌, ◌++◌, map, String}
use llvm_mipt.Trace.Pass.{
  Instruction, Item, BasicBlock, Function, begin_text, block_text, TraceCall,
}
use llvm_mipt.Trace.Lines.{lines, lines-append}
use llvm_mipt.Trace.Traced.{traced_code, NotIn}
use llvm_mipt.Trace.Exits.{Spares, IsCode}

-- No instruction of the first has an address of the second.
abbrev pub Apart : List Instruction → List Instruction → Type 0
Apart [] is = Unit
Apart (i ∷ js) is = NotIn i.address is × Apart js is

abbrev pub AllApart : List Instruction → List (BasicBlock Instruction) → Type 0
AllApart is [] = Unit
AllApart is (b ∷ bs) = (Apart is b.code × Apart b.code is) × AllApart is bs

-- Blocks that are never empty, end in no PHI, and whose instructions all have their own address.
abbrev pub AreBlocks : List (BasicBlock Instruction) → Type 0
AreBlocks [] = Unit
AreBlocks (b ∷ bs) = IsCode b.code × AllApart b.code bs × AreBlocks bs

abbrev pub StartsWithPhi : List Instruction → Type 0
StartsWithPhi [] = Unit
StartsWithPhi (i ∷ is) = i.is_phi ≡ true

-- What LLVM grants of a function that has a body.
pub record IsProper (f : Function Instruction) : Type 0 where
  pub blocks : AreBlocks (f.entry ∷ f.others)
  pub starts : ¬ StartsWithPhi f.entry.code

abbrev pub traced_block : String → BasicBlock Instruction → BasicBlock Item
traced_block name b = record {
  label = b.label;
  code = traced_code name (block_text name b.label ∷ []) b.code;
}

-- Each block says its name first, and the entry block that of the function before.
unfoldable pub traced : Function Instruction → Function Item
traced f = record {
  name = f.name;
  entry = record {
    label = f.entry.label;
    code =
        traced_code f.name (begin_text f.name ∷ block_text f.name f.entry.label ∷ []) f.entry.code;
  };
  others = map (traced_block f.name) f.others;
}

pub Apart-Spares :
    (cs : List TraceCall) (is js : List Instruction)
    → ((a : ℕ) → NotIn a is → lines cs a ≡ [])
    → Apart js is
    → Spares cs js
Apart-Spares cs is [] h d = tt
Apart-Spares cs is (j ∷ js) h d = (h j.address d.0, Apart-Spares cs is js h d.1)

pub Spares-append :
    (cs ds : List TraceCall) (is : List Instruction)
    → Spares cs is
    → Spares ds is
    → Spares (cs ++ ds) is
Spares-append cs ds [] h k = tt
Spares-append cs ds (i ∷ is) h k =
    (lines-append cs ds i.address ∙ ap₂ (λ a b. a ++ b) h.0 k.0, Spares-append cs ds is h.1 k.1)

abbrev pub AllSpare : List TraceCall → List (BasicBlock Instruction) → Type 0
AllSpare cs [] = Unit
AllSpare cs (b ∷ bs) = Spares cs b.code × AllSpare cs bs

pub AllSpare-append :
    (cs ds : List TraceCall) (bs : List (BasicBlock Instruction))
    → AllSpare cs bs
    → AllSpare ds bs
    → AllSpare (cs ++ ds) bs
AllSpare-append cs ds [] h k = tt
AllSpare-append cs ds (b ∷ bs) h k =
    (Spares-append cs ds b.code h.0 k.0, AllSpare-append cs ds bs h.1 k.1)

pub AllApart-AllSpare :
    (cs : List TraceCall) (is : List Instruction) (bs : List (BasicBlock Instruction))
    → ((a : ℕ) → NotIn a is → lines cs a ≡ [])
    → AllApart is bs
    → AllSpare cs bs
AllApart-AllSpare cs is [] h d = tt
AllApart-AllSpare cs is (b ∷ bs) h d =
    (Apart-Spares cs is b.code h d.0.1, AllApart-AllSpare cs is bs h d.1)

pub Spares-none : (is : List Instruction) → Spares [] is
unfolding lines
Spares-none [] = tt
Spares-none (i ∷ is) = (refl, Spares-none is)
