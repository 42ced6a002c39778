-- ===== src/Irgen/Semantics.antt =====
-- What irgen/main.cpp relies on of LLVM when its module is run: the documented behaviour of the
-- instructions that it builds, as hypotheses on the parameter `step`. The variables of a function
-- are `int`s that only it uses, and the one map is that of `main`.
mod Values
pub use Values.*
use llvm_mipt.Base.{
  ℕ, zero, suc, ◌+◌, ◌-◌, ◌%◌, ◌^◌, ◌≡◌, Bool, not, ◌&&◌, Option, none, some, List, [], ◌∷◌, ◌==◌,
  ltb, bit_and, bit_or, get_elem?, String, str_eq, map, if◌then◌else◌,
}
use llvm_mipt.Base.Word.{ℤ, pos, negsuc, int32, slt}
use llvm_mipt.Sim.State.{Event, sim_clear, sim_display, sim_set_pixel, update}
use llvm_mipt.Sim.Device.{next_seed}
use llvm_mipt.Life.{Map, Plane, put, map_width, map_height, of_bool}
use llvm_mipt.Irgen.Record.{
  Operand, const, result, Number, Pointer, argument, address, global, by_value, by_pointer, Ty,
  int_ty, map_struct_ty, BinaryOp, add_bin, urem_bin, srem_bin, and_bin, or_bin, Predicate,
  slt_pred, eq_pred, ne_pred, Inst, alloca, load, store, in_bounds_gep, binary, bit_not, icmp, zext,
  call, br, cond_br, ret_void, find_fn, Module,
}
use llvm_mipt.Irgen.Semantics.Values.{
  Address, Activation, World, Callers, Config, running, value_of, number_of, address_of,
  set_address, when, signed_rem, srem, meaning, compare_at, indexed, plane, set_plane, array_of,
  loaded, allocated, set_cell, blocks_of, emit_event, with_seed, variable, whole_map, cell, array,
  element, at,
}

-- `unset_number` and `nowhere` are what a call finds before its instructions have set anything.
pub record Semantics (p : Module) : Type 0 where
  pub step : Config → Option Config
  pub unset_number : ℕ → ℕ
  pub nowhere : ℕ → Address
  pub alloca_step :
      {k : ℕ} {t : Ty} (a : Address) {is : List Inst} {code : List (List Inst)} {par : Address}
      {ns : ℕ → ℕ} {ads : ℕ → Address} {vs : ℕ → ℕ} {cs : Callers} {s : World}
      → allocated k t ≡ some a
      → step (at (alloca k t ∷ is) code par ns ads vs cs s)
        ≡ some (at is code par ns (set_address ads k a) vs cs s)
  pub load_step :
      {k w : ℕ} {x : Pointer} (n : ℕ) {is : List Inst} {code : List (List Inst)} {par : Address}
      {ns : ℕ → ℕ} {ads : ℕ → Address} {vs : ℕ → ℕ} {cs : Callers} {s : World}
      → loaded p w (address_of x par ads) vs s ≡ some n
      → step (at (load k w x ∷ is) code par ns ads vs cs s)
        ≡ some (at is code par (update ns k n) ads vs cs s)
  pub store_variable_step :
      {v : Number} {x : Pointer} {k : ℕ} (n : ℕ) {is : List Inst} {code : List (List Inst)}
      {par : Address} {ns : ℕ → ℕ} {ads : ℕ → Address} {vs : ℕ → ℕ} {cs : Callers} {s : World}
      → v.width ≡ 32
      → number_of v ns ≡ n
      → address_of x par ads ≡ variable k
      → step (at (store v x ∷ is) code par ns ads vs cs s)
        ≡ some (at is code par ns ads (update vs k n) cs s)
  pub store_cell_step :
      {v : Number} {x : Pointer} {f r c : ℕ} (n : ℕ) {is : List Inst} {code : List (List Inst)}
      {par : Address} {ns : ℕ → ℕ} {ads : ℕ → Address} {vs : ℕ → ℕ} {cs : Callers} {s : World}
      → v.width ≡ 8
      → number_of v ns ≡ n
      → address_of x par ads ≡ cell f r c
      → step (at (store v x ∷ is) code par ns ads vs cs s)
        ≡ some (at is code par ns ads vs cs (set_cell f r c n s))
  pub gep_step :
      {k : ℕ} {x : Pointer} {idx : List Number} (a : Address) {is : List Inst}
      {code : List (List Inst)} {par : Address} {ns : ℕ → ℕ} {ads : ℕ → Address} {vs : ℕ → ℕ}
      {cs : Callers} {s : World}
      → indexed (address_of x par ads) (map (λ v. number_of v ns) idx) ≡ some a
      → step (at (in_bounds_gep k x idx ∷ is) code par ns ads vs cs s)
        ≡ some (at is code par ns (set_address ads k a) vs cs s)
  pub binary_step :
      {k : ℕ} {op : BinaryOp} {x y : Number} (n : ℕ) {is : List Inst} {code : List (List Inst)}
      {par : Address} {ns : ℕ → ℕ} {ads : ℕ → Address} {vs : ℕ → ℕ} {cs : Callers} {s : World}
      → meaning op x.width (number_of x ns) (number_of y ns) ≡ some n
      → step (at (binary k op x y ∷ is) code par ns ads vs cs s)
        ≡ some (at is code par (update ns k n) ads vs cs s)
  pub not_step :
      {k : ℕ} {x : Number} (n : ℕ) {is : List Inst} {code : List (List Inst)} {par : Address}
      {ns : ℕ → ℕ} {ads : ℕ → Address} {vs : ℕ → ℕ} {cs : Callers} {s : World}
      → 2 ^ x.width - 1 - number_of x ns ≡ n
      → step (at (bit_not k x ∷ is) code par ns ads vs cs s)
        ≡ some (at is code par (update ns k n) ads vs cs s)
  pub icmp_step :
      {k : ℕ} {pred : Predicate} {x y : Number} (b : Bool) {is : List Inst}
      {code : List (List Inst)} {par : Address} {ns : ℕ → ℕ} {ads : ℕ → Address} {vs : ℕ → ℕ}
      {cs : Callers} {s : World}
      → compare_at pred x.width (number_of x ns) (number_of y ns) ≡ some b
      → step (at (icmp k pred x y ∷ is) code par ns ads vs cs s)
        ≡ some (at is code par (update ns k (of_bool b)) ads vs cs s)
  pub zext_step :
      {k w : ℕ} {x : Number} (n : ℕ) {is : List Inst} {code : List (List Inst)} {par : Address}
      {ns : ℕ → ℕ} {ads : ℕ → Address} {vs : ℕ → ℕ} {cs : Callers} {s : World}
      → number_of x ns ≡ n
      → step (at (zext k x w ∷ is) code par ns ads vs cs s)
        ≡ some (at is code par (update ns k n) ads vs cs s)
  pub br_step :
      {b : ℕ} {js : List Inst} {is : List Inst} {code : List (List Inst)} {par : Address}
      {ns : ℕ → ℕ} {ads : ℕ → Address} {vs : ℕ → ℕ} {cs : Callers} {s : World}
      → get_elem? code b ≡ some js
      → step (at (br b ∷ is) code par ns ads vs cs s) ≡ some (at js code par ns ads vs cs s)
  pub cond_br_step :
      {x : Number} {b c : ℕ} {js : List Inst} (t : Bool) {is : List Inst} {code : List (List Inst)}
      {par : Address} {ns : ℕ → ℕ} {ads : ℕ → Address} {vs : ℕ → ℕ} {cs : Callers} {s : World}
      → number_of x ns ≡ of_bool t
      → get_elem? code (if t then b else c) ≡ some js
      → step (at (cond_br x b c ∷ is) code par ns ads vs cs s)
        ≡ some (at js code par ns ads vs cs s)
  pub call_step :
      {k : ℕ} {name : String} {x : Pointer} {js : List Inst} (a : Address) {is : List Inst}
      {code : List (List Inst)} {par : Address} {ns : ℕ → ℕ} {ads : ℕ → Address} {vs : ℕ → ℕ}
      {cs : Callers} {s : World}
      → address_of x par ads ≡ a
      → get_elem? (blocks_of name p) 0 ≡ some js
      → step (at (call k name (by_pointer x ∷ []) ∷ is) code par ns ads vs cs s)
        ≡ some (
            at js
              (blocks_of name p)
              a
              unset_number
              nowhere
              unset_number
              ((
                is,
                record {
                  code = code;
                  parameter = par;
                  numbers = ns;
                  addresses = ads;
                  variables = vs;
                },
              )
                ∷ cs)
              s)
  pub ret_step :
      {is js : List Inst} {code : List (List Inst)} {par : Address} {ns : ℕ → ℕ} {ads : ℕ → Address}
      {vs : ℕ → ℕ} {act : Activation} {cs : Callers} {s : World}
      → step (at (ret_void ∷ is) code par ns ads vs ((js, act) ∷ cs) s) ≡ some (running js act cs s)
  pub clear_step :
      {k : ℕ} {x : Number} (c : ℕ) {is : List Inst} {code : List (List Inst)} {par : Address}
      {ns : ℕ → ℕ} {ads : ℕ → Address} {vs : ℕ → ℕ} {cs : Callers} {s : World}
      → number_of x ns ≡ c
      → step (at (call k "sim_clear" (by_value x ∷ []) ∷ is) code par ns ads vs cs s)
        ≡ some (at is code par ns ads vs cs (emit_event (sim_clear c) s))
  pub display_step :
      {k : ℕ} {is : List Inst} {code : List (List Inst)} {par : Address} {ns : ℕ → ℕ}
      {ads : ℕ → Address} {vs : ℕ → ℕ} {cs : Callers} {s : World}
      → step (at (call k "sim_display" [] ∷ is) code par ns ads vs cs s)
        ≡ some (at is code par ns ads vs cs (emit_event sim_display s))
  pub set_pixel_step :
      {k : ℕ} {x y z u : Number} (a b c d : ℕ) {is : List Inst} {code : List (List Inst)}
      {par : Address} {ns : ℕ → ℕ} {ads : ℕ → Address} {vs : ℕ → ℕ} {cs : Callers} {s : World}
      → number_of x ns ≡ a
      → number_of y ns ≡ b
      → number_of z ns ≡ c
      → number_of u ns ≡ d
      → step (
          at
            (call k "sim_set_pixel" (by_value x ∷ by_value y ∷ by_value z ∷ by_value u ∷ []) ∷ is)
            code
            par
            ns
            ads
            vs
            cs
            s)
        ≡ some (at is code par ns ads vs cs (emit_event (sim_set_pixel a b c d) s))
  pub rand_step :
      {k : ℕ} {is : List Inst} {code : List (List Inst)} {par : Address} {ns : ℕ → ℕ}
      {ads : ℕ → Address} {vs : ℕ → ℕ} {cs : Callers} {s : World}
      → step (at (call k "sim_rand" [] ∷ is) code par ns ads vs cs s)
        ≡ some (
            at is code par
              (update ns k (next_seed s.seed))
              ads
              vs
              cs
              (with_seed (next_seed s.seed) s))

-- `Reaches d c`: the steps lead from `c` to `d`.
pub data Reaches {p : Module} (sem : Semantics p) (d : Config) : Config → Type 0 where
  done : Reaches sem d d
  next : {b c : Config} → sem.step c ≡ some b → Reaches sem d b → Reaches sem d c

pub Reaches-trans :
    {p : Module} (sem : Semantics p) {d e c : Config}
    → Reaches sem d c
    → Reaches sem e d
    → Reaches sem e c
Reaches-trans sem done r = r
Reaches-trans sem (next h q) r = next h (Reaches-trans sem q r)

-- One step before others.
infixr 5 ◌▸◌
abbrev pub ◌▸◌ :
    {p : Module} {sem : Semantics p} {b c d : Config}
    → sem.step c ≡ some b
    → Reaches sem d b
    → Reaches sem d c
h ▸ r = next h r
