-- ===== src/Main/Sane.antt =====
-- Which of its modes the program comes to, and with what.
use nagios_snmp.Base.{
  ℕ, Bool, true, false, ◌||◌, List, [], ◌∷◌, Option, none, some, Bytes, CString, Result, ok, fault,
  exit_failure, ◌>>=◌, if◌then◌else◌, ◌≡◌, refl, ap, arith, ◌∙◌, Bool-cases, inl, inr,
}
use nagios_snmp.Util.{is_empty}
use nagios_snmp.Config.{Options}
use nagios_snmp.Config.Load.{Ini, System, config_load}
use nagios_snmp.Log.{Log}
use nagios_snmp.Standalone.{standalone_init}
use nagios_snmp.Main.{
  Argument, Args, fresh_args, parse_arguments, id_of, Ending, started_daemon, started_standalone,
  check_mode, start_log, start, configure, main,
}

-- The id of a named user or group, and 0 where none is named.
abbrev pub named : (Bytes → Option ℕ) → CString → Result ℕ
named find none = ok 0
named find (some []) = ok 0
named find (some (c ∷ name)) = elim (find (c ∷ name)) [
  | none ↦ fault exit_failure
  | some id ↦ ok id
]

id_of-named : (find : Bytes → Option ℕ) (name : CString) → id_of find true name ≡ named find name
unfolding id_of is_empty
id_of-named find none = refl
id_of-named find (some []) = refl
id_of-named find (some (c ∷ name)) = refl

id_of-standalone : (find : Bytes → Option ℕ) (name : CString) → id_of find false name ≡ ok 0
unfolding id_of is_empty
id_of-standalone find none = refl
id_of-standalone find (some []) = refl
id_of-standalone find (some (c ∷ name)) = refl

-- What is left of the assertion's failure where the program has ended before.
abbrev pub refused : Result (Unit {0}) → Result (Unit {0})
refused (ok u) = ok u
refused (fault e) = fault exit_failure

check_mode-standalone :
    (a : Args) → a.is_daemon ≡ false → check_mode a ≡ refused (standalone_init a.oid a.command)
unfolding check_mode standalone_init
check_mode-standalone a e = elim (Bool-cases (is_empty a.command)) [
  | inl gone ↦
      rw e (rw gone (elim (Bool-cases (is_empty a.oid)) [ inl f ↦ rw f refl | inr f ↦ rw f refl ]))
  | inr here ↦
      rw e (rw here (elim (Bool-cases (is_empty a.oid)) [ inl f ↦ rw f refl | inr f ↦ rw f refl ]))
]

check_mode-daemon : (a : Args) → a.is_daemon ≡ true → check_mode a ≡ ok tt
unfolding check_mode
check_mode-daemon a e = rw e refl

module _ (I : Ini) (sys : System) (getpwnam getgrnam : Bytes → Option ℕ)
    (opens_log : CString → Bool) (options : Options) where
  abbrev pub run : List Argument → Result Ending
  run arguments = main I sys getpwnam getgrnam opens_log options arguments

  -- Where neither the version, nor help, nor the diagnostics, nor a dump is asked for, and the options
  -- and the log can be loaded: in standalone mode the program starts just if the assertion of
  -- `standalone_init` holds of its OID and command, and otherwise has ended with a failure before;
  -- and as a daemon it starts with the ids of the user and the group that are named, or 0 where none
  -- is, and ends with a failure where one is not known.
  pub main-starts :
      (arguments : List Argument) (a : Args) (os : Options) (log : Log)
      → parse_arguments arguments fresh_args ≡ ok a
      → (a.print_version || (a.print_help || (a.print_diagnostics || a.dump_config))) ≡ false
      → config_load sys I a.config_file a.trap_tokenizer options ≡ ok os
      → start_log I sys getpwnam getgrnam opens_log options a os ≡ ok log
      → run arguments ≡ (
          if a.is_daemon
          then (do
            uid ← named getpwnam a.username
            gid ← named getgrnam a.groupname
            ok (started_daemon uid gid os log))
          else (do
            checked ← refused (standalone_init a.oid a.command)
            ok (started_standalone a.oid a.command os log)))
  unfolding main configure start
  main-starts arguments a os log e plain loaded opened =
      let no_version : a.print_version ≡ false = ground (arith, plain) in
      let no_help : a.print_help ≡ false = ground (arith, plain) in
      let no_report : a.print_diagnostics ≡ false = ground (arith, plain) in
      let no_dump : a.dump_config ≡ false = ground (arith, plain) in
      rw e (
        rw loaded (
          rw opened (
            rw no_version (
              rw no_help (
                rw no_dump (
                  rw no_report (elim (Bool-cases a.is_daemon) [
                    | inl serves ↦
                        let uid =
                          ap (λ b. id_of getpwnam b a.username) serves
                          ∙ id_of-named getpwnam a.username in
                        let gid =
                          ap (λ b. id_of getgrnam b a.groupname) serves
                          ∙ id_of-named getgrnam a.groupname in
                        rw (check_mode-daemon a serves) (rw uid (rw gid (rw serves refl)))
                    | inr alone ↦
                        let uid =
                          ap (λ b. id_of getpwnam b a.username) alone
                          ∙ id_of-standalone getpwnam a.username in
                        let gid =
                          ap (λ b. id_of getgrnam b a.groupname) alone
                          ∙ id_of-standalone getgrnam a.groupname in
                        rw (check_mode-standalone a alone) (rw uid (rw gid (rw alone refl)))
                  ])))))))
