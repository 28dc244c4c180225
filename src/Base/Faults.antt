-- ===== src/Base/Faults.antt =====
-- What a run of C code ends in: a value, undefined behaviour, or the program's own exit.

-- A read through NULL, a write past an object's end, and a `free` or a read of a pointer that was
-- never set; `log_critical`, `exit(EXIT_FAILURE)` and a failed assertion; and, in the model alone,
-- a loop that has used up its fuel.
pub data Fault : Type 0 where
  null_deref overflow garbage_ptr critical exit_failure assertion out_of_fuel : Fault

pub data Result {ℓ} (Value : Type ℓ) : Type ℓ where
  fault : Fault → Result Value
  ok : Value → Result Value

-- A fault ends the run; the rest of the code is not reached.
abbrev pub ◌>>=◌ {ℓ₁ ℓ₂} : {V : Type ℓ₁} {W : Type ℓ₂} → Result V → (V → Result W) → Result W
fault why >>= rest = fault why
ok v >>= rest = rest v

abbrev pub ◌>>◌ {ℓ₁} : {W : Type ℓ₁} → Result (Unit {0}) → Result W → Result W
fault why >> rest = fault why
ok _ >> rest = rest

infixl 5 ◌>>=◌ ◌>>◌
