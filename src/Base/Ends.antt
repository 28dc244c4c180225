-- ===== src/Base/Ends.antt =====
-- A run that does not use up its fuel.
use mathlib.Core.Path.{◌≡◌, refl, ap}
use mathlib.Core.Logic.{◌≢◌}
use mathlib.Core.Bool.{Bool, true, false}
use mathlib.Core.Option.{Option, none, some}
use nagios_snmp.Base.Tests.{if◌then◌else◌}
use nagios_snmp.Base.Text.{CString, deref}
use nagios_snmp.Base.Faults.{Result, ok, fault, out_of_fuel, ◌>>=◌, ◌>>◌}

-- It may end in a value, or in any fault of the program itself.
abbrev pub Ends {ℓ} : {A : Type ℓ} → Result A → Type ℓ
Ends m = m ≢ fault out_of_fuel

pub Ends-ok {ℓ} : {A : Type ℓ} (a : A) → Ends (ok a)
Ends-ok a e = cc

pub Ends-bind {ℓ κ} :
    {A : Type ℓ} {B : Type κ} (m : Result A) (f : A → Result B)
    → Ends m
    → ((a : A) → m ≡ ok a → Ends (f a))
    → Ends (m >>= f)
Ends-bind (ok a) f h k = k a refl
Ends-bind (fault e) f h k = λ p. let q : e ≡ out_of_fuel = cc in h (ap fault q)

pub Ends-elim {ℓ κ} :
    {A : Type ℓ} {B : Type κ} (o : Option A) (m : Result B) (f : A → Result B)
    → Ends m
    → ((a : A) → Ends (f a))
    → Ends (elim o [ none ↦ m | some a ↦ f a ])
Ends-elim none m f h k = h
Ends-elim (some a) m f h k = k a

pub Ends-if {ℓ} :
    {A : Type ℓ} (b : Bool) (m n : Result A) → Ends m → Ends n → Ends (if b then m else n)
Ends-if true m n h k = h
Ends-if false m n h k = k

pub Ends-deref : (s : CString) → Ends (deref s)
Ends-deref none e = cc
Ends-deref (some s) e = cc

pub Ends-then {ℓ} :
    {A : Type ℓ} (m : Result (Unit {0})) (n : Result A) → Ends m → Ends n → Ends (m >> n)
Ends-then (ok a) n h k = k
Ends-then (fault e) n h k = λ p. let q : e ≡ out_of_fuel = cc in h (ap fault q)
