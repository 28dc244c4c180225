-- ===== src/Util/Permissions.antt =====
-- src/util.c, `set_permissions`. The mode that `stat` gives, if it gives one, and what `chmod`
-- answers, are arguments.
use mathlib.Core.Path.{subst}
use nagios_snmp.Base.{
  ℕ, ◌+◌, ◌/◌, ◌%◌, Bool, true, false, ◌||◌, Option, none, some, ◌==◌, if◌then◌else◌, ◌≡◌, refl,
  arith, Bool-cases, inl, inr, sym, ap,
}

-- `st.st_mode & PERM_MASK`: an execute bit of the owner, the group or the others.
unfoldable pub is_executable : ℕ → Bool
is_executable mode = mode % 2 == 1 || (mode / 8 % 2 == 1 || mode / 64 % 2 == 1)

-- `st.st_mode | PERM_MASK`, where none of the three bits is set.
abbrev pub with_execute : ℕ → ℕ
with_execute mode = mode + 0x49

-- What is returned, and the mode that is left.
unfoldable pub set_permissions : Option ℕ → (ℕ → Bool) → Bool × Option ℕ
unfolding is_executable
set_permissions none chmod = (false, none)
set_permissions (some mode) chmod =
    if is_executable mode
    then (true, some mode)
    else if chmod (with_execute mode)
    then (true, some (with_execute mode))
    else (false, some mode)

execute_bits :
    (mode : ℕ)
    → is_executable mode ≡ false
    → (is_executable (with_execute mode) ≡ true)
      × (with_execute mode / 128 ≡ mode / 128)
      × (with_execute mode / 2 % 4 ≡ mode / 2 % 4)
      × (with_execute mode / 16 % 4 ≡ mode / 16 % 4)
unfolding is_executable
execute_bits mode e =
    let low : mode % 2 ≡ 0 = ground arith in
    let group : mode / 8 % 2 ≡ 0 = ground arith in
    let owner : mode / 64 % 2 ≡ 0 = ground arith in
    (
      (let one : (mode + 0x49) % 2 ≡ 1 = omega arith in rw one refl),
      omega arith,
      omega arith,
      omega arith,
    )

-- A file that is accepted can be executed by somebody, and no other bit of its mode has changed.
pub set_permissions-executable :
    (mode left : ℕ) (chmod : ℕ → Bool)
    → set_permissions (some mode) chmod ≡ (true, some left)
    → (is_executable left ≡ true)
      × (left / 128 ≡ mode / 128)
      × (left / 2 % 4 ≡ mode / 2 % 4)
      × (left / 16 % 4 ≡ mode / 16 % 4)
unfolding set_permissions
set_permissions-executable mode left chmod e = elim (Bool-cases (is_executable mode)) [
  | inl as_is ↦
      let same : mode ≡ left = ground (arith, as_is, e) in
      (
        rw (sym same) as_is,
        ap (λ m. m / 128) (sym same),
        ap (λ m. m / 2 % 4) (sym same),
        ap (λ m. m / 16 % 4) (sym same),
      )
  | inr closed ↦
      let same : with_execute mode ≡ left = ground (arith, closed, e) in
      subst
        (λ m.
          (is_executable m ≡ true)
          × (m / 128 ≡ mode / 128)
          × (m / 2 % 4 ≡ mode / 2 % 4)
          × (m / 16 % 4 ≡ mode / 16 % 4))
        same (execute_bits mode closed)
]
