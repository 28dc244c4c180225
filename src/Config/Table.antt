-- ===== src/Config/Table.antt =====
-- What a client reads of the table behind each way to change it.
use nagios_snmp.Base.{
  true, false, [], ◌∷◌, Option, none, some, Bytes, CString, equal, equal_iff, Result, ok, fault,
  critical, if◌then◌else◌, All, ◌≡◌, refl, arith,
}
use nagios_snmp.Util.{xstrdup}
use nagios_snmp.Config.{Options, options, set_from, config_get_option_value}

-- The table as a map.
abbrev pub find : Bytes → Options → Option CString
find key [] = none
find key (o ∷ os) = if equal o.key key then some o.value else find key os

abbrev pub reads : Option CString → Result CString
reads none = fault critical
reads (some v) = ok v

pub config_get_option_value-find :
    (key : Bytes) (os : Options) → config_get_option_value key os ≡ reads (find key os)
unfolding config_get_option_value
config_get_option_value-find key [] = refl
config_get_option_value-find key (o ∷ os) = ground (arith, config_get_option_value-find key os)

-- No option is mandatory: so it is in the table of the program.
abbrev pub IsOptional : Options → Type 0
IsOptional os = All (λ o. o.mandatory ≡ false) os

pub options-IsOptional : IsOptional options
unfolding options
options-IsOptional = ground arith

abbrev pub replaced : Bytes → CString → Bytes → Option CString → Option CString
replaced key value k none = none
replaced key value k (some old) = some (if equal key k then xstrdup value else old)

pub set_from_done :
    (key : Bytes) (value : CString) (os : Options)
    → IsOptional os
    → (set_from key value os).0 ≡ true
unfolding set_from
set_from_done key value [] h = refl
set_from_done key value (o ∷ os) h = ground (arith, set_from_done key value os h.1)

pub set_from-IsOptional :
    (key : Bytes) (value : CString) (os : Options)
    → IsOptional os
    → IsOptional (set_from key value os).1
unfolding set_from
set_from-IsOptional key value [] h = tt
set_from-IsOptional key value (o ∷ os) h = ground (arith, set_from-IsOptional key value os h.1)

pub find-set_from :
    (key : Bytes) (value : CString) (k : Bytes) (os : Options)
    → IsOptional os
    → find k (set_from key value os).1 ≡ replaced key value k (find k os)
unfolding set_from
find-set_from key value k [] h = refl
find-set_from key value k (o ∷ os) h = ground (
  arith,
  find-set_from key value k os h.1,
  equal_iff o.key key,
  equal_iff o.key k,
  equal_iff key k,
)
