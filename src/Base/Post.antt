-- ===== src/Base/Post.antt =====
-- What holds of the value of a run, where it has one.
use mathlib.Core.Path.{refl, ◌≡◌, sym}
use mathlib.Core.Bool.{Bool, true, false}
use mathlib.Core.Option.{Option, none, some}
use nagios_snmp.Base.Tests.{if◌then◌else◌}
use nagios_snmp.Base.Faults.{Result, ok, fault, ◌>>=◌}

-- What a run that ends in a value leaves behind.
abbrev pub Post {ℓ} : {A : Type ℓ} → (A → Type 0) → Result A → Type 0
Post P (ok a) = P a
Post P (fault e) = Unit

pub Post-elim {ℓ κ} :
    {A : Type ℓ} {B : Type κ} (P : B → Type 0) (o : Option A) (m : Result B) (f : A → Result B)
    → Post P m
    → ((a : A) → Post P (f a))
    → Post P (elim o [ none ↦ m | some a ↦ f a ])
Post-elim P none m f h k = h
Post-elim P (some a) m f h k = k a

pub Post-bind {ℓ κ} :
    {A : Type ℓ} {B : Type κ} (P : B → Type 0) (m : Result A) (f : A → Result B)
    → ((a : A) → Post P (f a))
    → Post P (m >>= f)
Post-bind P (ok a) f h = h a
Post-bind P (fault e) f h = tt

-- The same, of what the first run leaves behind.
pub Post-then {ℓ κ} :
    {A : Type ℓ} {B : Type κ} (Q : A → Type 0) (P : B → Type 0) (m : Result A) (f : A → Result B)
    → Post Q m
    → ((a : A) → Q a → Post P (f a))
    → Post P (m >>= f)
Post-then Q P (ok a) f h k = k a h
Post-then Q P (fault e) f h k = tt

pub Post-ok {ℓ} : {A : Type ℓ} (P : A → Type 0) (m : Result A) (a : A) → m ≡ ok a → Post P m → P a
Post-ok P (ok b) a e h = let f : b ≡ a = cc in rw (sym f) h
Post-ok P (fault x) a e h = cc

pub Post-if {ℓ} :
    {A : Type ℓ} (P : A → Type 0) (b : Bool) (m n : Result A)
    → Post P m
    → Post P n
    → Post P (if b then m else n)
Post-if P true m n h k = h
Post-if P false m n h k = k

pub Post-mono {ℓ} :
    {A : Type ℓ} (P Q : A → Type 0) (m : Result A) → ((a : A) → P a → Q a) → Post P m → Post Q m
Post-mono P Q (ok a) f h = f a h
Post-mono P Q (fault e) f h = tt

-- The value of the first run is known with the equation that it comes from.
pub Post-from {ℓ κ} :
    {A : Type ℓ} {B : Type κ} (P : B → Type 0) (m : Result A) (f : A → Result B)
    → ((a : A) → m ≡ ok a → Post P (f a))
    → Post P (m >>= f)
Post-from P (ok a) f h = h a refl
Post-from P (fault e) f h = tt
