-- ===== src/Config/Php.antt =====
-- What `config_load` leaves in the table where the database is taken from the Nagios configuration.
use nagios_snmp.Base.{
  ℕ, ◌+◌, ◌<◌, true, false, List, [], ◌∷◌, ◌++◌, none, some, Bytes, CString, codes, printed, has,
  lt→leb_false, ◌==◌, length, ok, ◌>>=◌, All, All-map, All-append, ◌≡◌, ◌≢◌, refl, ap, arith, ◌∙◌,
}
use nagios_snmp.Base.Stdio.{until_nul, fgets}
use nagios_snmp.Config.{Options, set_from, config_get_option_value}
use nagios_snmp.Config.Load.{
  Ini, System, default_file, tmpbuflen, tmpbuflen_small, tmpfile_template, print_fields, copied,
  span_not, scan_field, scan_bar, Login, scan_login, set_login, login_keys, temp_name, make_temp,
  run_php, parse_nagios_conf, load_login, config_load, file_from,
}
use nagios_snmp.Config.Table.{
  find, reads, config_get_option_value-find, IsOptional, set_from-IsOptional,
}
use nagios_snmp.Config.Ini.{
  under, set_all, IsPair, set_required_done, find-set_all, tokenizer_pairs, tokenizer_pairs-IsPair,
  set_tokenizer-set_all, setting, file_from-IsOptional, find-file_from, lacks, IsKnown,
  config_load-file_from,
}

-- A parameter as PHP prints it between bars: it holds no bar, no line end and no NUL.
abbrev pub IsField : Bytes → Type 0
IsField w = All (λ c. has c (0 ∷ b'|' ∷ b'\n' ∷ []) ≡ false) w × (w ≢ []) × (length w < tmpbuflen)

span_not-field :
    (stops w : Bytes) (b : ℕ) (s : Bytes)
    → All (λ c. has c stops ≡ false) w
    → has b stops ≡ true
    → span_not stops (w ++ b ∷ s) ≡ (w, b ∷ s)
unfolding span_not
span_not-field stops [] b s h k = rw k refl
span_not-field stops (c ∷ w) b s h k = rw h.0 (rw (span_not-field stops w b s h.1 k) refl)

length_ne_zero : (w : Bytes) → w ≢ [] → (length w == 0) ≡ false
length_ne_zero [] h = absurd (h refl)
length_ne_zero (c ∷ w) h = ground arith

scan_field-field :
    (stops w : Bytes) (b : ℕ) (s : Bytes)
    → All (λ c. has c stops ≡ false) w
    → w ≢ []
    → length w < tmpbuflen
    → has b stops ≡ true
    → scan_field stops (w ++ b ∷ s) ≡ ok (w, b ∷ s)
unfolding scan_field
scan_field-field stops w b s h ne k e =
    rw (span_not-field stops w b s h e)
      (rw (length_ne_zero w ne) (rw (lt→leb_false tmpbuflen (length w) k) refl))

until_nul_id : (w : Bytes) → All (λ c. has c (0 ∷ b'|' ∷ b'\n' ∷ []) ≡ false) w → until_nul w ≡ w
unfolding until_nul
until_nul_id [] h = refl
until_nul_id (c ∷ w) h = ground (arith, until_nul_id w h.1)

not_bar : (c : ℕ) → has c (0 ∷ b'|' ∷ b'\n' ∷ []) ≡ false → has c (codes "|") ≡ false
not_bar c h = ground arith

not_end : (c : ℕ) → has c (0 ∷ b'|' ∷ b'\n' ∷ []) ≡ false → has c (codes "|\n") ≡ false
not_end c h = ground arith

scan-bar : (w s : Bytes) → IsField w → scan_field (codes "|") (w ++ b'|' ∷ s) ≡ ok (w, b'|' ∷ s)
scan-bar w s h =
    scan_field-field (codes "|") w b'|' s
      (All-map (λ c. has c (0 ∷ b'|' ∷ b'\n' ∷ []) ≡ false) (λ c. has c (codes "|") ≡ false) not_bar
        w h.0)
      h.1 h.2 refl

abbrev pub IsLogin : Login → Type 0
IsLogin l = IsField l.db_host × IsField l.db_user × IsField l.db_password × IsField l.db_name

-- The line that `printf` of PHP writes.
abbrev pub login_line : Login → Bytes
login_line l =
    l.db_host ++ b'|' ∷ (l.db_user ++ b'|' ∷ (l.db_password ++ b'|' ∷ (l.db_name ++ b'\n' ∷ [])))

scan_login-login_line : (l : Login) → IsLogin l → scan_login (login_line l) ≡ ok l
unfolding scan_login scan_bar
scan_login-login_line l h =
    let rest_password = l.db_password ++ b'|' ∷ (l.db_name ++ b'\n' ∷ []) in
    rw (scan-bar l.db_host (l.db_user ++ b'|' ∷ rest_password) h.0) (
      rw (scan-bar l.db_user rest_password h.1) (
        rw (scan-bar l.db_password (l.db_name ++ b'\n' ∷ []) h.2) (
          rw
            (scan_field-field (codes "|\n") l.db_name b'\n' []
              (All-map (λ c. has c (0 ∷ b'|' ∷ b'\n' ∷ []) ≡ false)
                (λ c. has c (codes "|\n") ≡ false) not_end l.db_name h.3.0)
              h.3.1 h.3.2 refl)
            (rw
              (
                until_nul_id l.db_host h.0.0,
                until_nul_id l.db_user h.1.0,
                until_nul_id l.db_password h.2.0,
                until_nul_id l.db_name h.3.0,
              )
              refl))))

abbrev pub login_pairs : Login → List (Bytes × Bytes)
login_pairs l =
    (codes ":db_host", l.db_host)
    ∷ (codes ":db_user", l.db_user)
    ∷ (codes ":db_password", l.db_password)
    ∷ (codes ":db_name", l.db_name)
    ∷ []

login_pairs-IsPair : (l : Login) → IsLogin l → All IsPair (login_pairs l)
login_pairs-IsPair l h =
    ((λ e. cc, h.0.1), ((λ e. cc, h.1.1), ((λ e. cc, h.2.1), ((λ e. cc, h.3.1), tt))))

set_all-IsOptional :
    (ps : List (Bytes × Bytes)) (os : Options) → IsOptional os → IsOptional (set_all ps os)
set_all-IsOptional [] os h = h
set_all-IsOptional ((key, value) ∷ ps) os h =
    set_all-IsOptional ps (set_from key (some value) os).1
      (set_from-IsOptional key (some value) os h)

set_all-append :
    (ps qs : List (Bytes × Bytes)) (os : Options)
    → set_all qs (set_all ps os) ≡ set_all (ps ++ qs) os
set_all-append [] qs os = refl
set_all-append ((key, value) ∷ ps) qs os = set_all-append ps qs (set_from key (some value) os).1

set_login-set_all :
    (l : Login) (os : Options)
    → IsLogin l
    → IsOptional os
    → set_login l os ≡ ok (set_all (login_pairs l) os)
unfolding set_login
set_login-set_all l os h opt =
    let with_host = (set_from (codes ":db_host") (some l.db_host) os).1 in
    let with_user = (set_from (codes ":db_user") (some l.db_user) with_host).1 in
    let with_password = (set_from (codes ":db_password") (some l.db_password) with_user).1 in
    let opt_host = set_from-IsOptional (codes ":db_host") (some l.db_host) os opt in
    let opt_user = set_from-IsOptional (codes ":db_user") (some l.db_user) with_host opt_host in
    let opt_password =
      set_from-IsOptional (codes ":db_password") (some l.db_password) with_user opt_user in
    rw (set_required_done (codes ":db_host") l.db_host os (λ e. cc) h.0.1 opt) (
      rw (set_required_done (codes ":db_user") l.db_user with_host (λ e. cc) h.1.1 opt_host) (
        rw
          (set_required_done (codes ":db_password") l.db_password with_user (λ e. cc) h.2.1
            opt_user)
          (set_required_done (codes ":db_name") l.db_name with_password (λ e. cc) h.3.1
            opt_password)))

-- The system answers every call of `parse_nagios_conf`, and the arrays are long enough.
pub record Answers (sys : System) (filename php_cli : CString) (temp_dir : Bytes) (l : Login)
    : Type 0 where
  pub conf : Bytes
  pub auxfilename : Bytes
  pub opened : sys.fopen filename ≡ some conf
  pub dir_room : length temp_dir + length tmpfile_template < tmpbuflen_small
  pub made : sys.mkstemp (temp_dir ++ tmpfile_template) ≡ some auxfilename
  pub writable : sys.fdopen auxfilename ≡ true
  pub command_room : length (printed php_cli) + 1 + length auxfilename < tmpbuflen
  pub answered :
      sys.popen
        (printed php_cli ++ b' ' ∷ auxfilename)
        (copied (fgets tmpbuflen conf) ++ print_fields)
      ≡ some (login_line l)

parse_nagios_conf-set_all :
    (sys : System) (filename php_cli : CString) (temp_dir : Bytes) (l : Login) (os : Options)
    → Answers sys filename php_cli temp_dir l
    → IsLogin l
    → IsOptional os
    → parse_nagios_conf sys filename php_cli (some temp_dir) os ≡ ok (set_all (login_pairs l) os)
unfolding parse_nagios_conf make_temp temp_name run_php
parse_nagios_conf-set_all sys filename php_cli temp_dir l os a h opt = rw a.opened (
    rw (lt→leb_false tmpbuflen_small (length temp_dir + length tmpfile_template) a.dir_room) (
      rw a.made (
        rw a.writable (
          rw
            (lt→leb_false tmpbuflen (length (printed php_cli) + 1 + length a.auxfilename)
              a.command_room)
            (rw a.answered (rw (scan_login-login_line l h) (set_login-set_all l os h opt)))))))

module _ (I : Ini) (d : I.Dictionary) where
  load_login-set_all :
      (sys : System) (filename php_cli : CString) (temp_dir : Bytes) (l : Login) (os : Options)
      → Answers sys filename php_cli temp_dir l
      → IsLogin l
      → IsOptional os
      → setting I d (codes ":nagios_conf_file") (find (codes ":nagios_conf_file") os)
        ≡ some filename
      → setting I d (codes ":php_cli") (find (codes ":php_cli") os) ≡ some php_cli
      → setting I d (codes ":temp_dir") (find (codes ":temp_dir") os) ≡ some (some temp_dir)
      → load_login sys (file_from I d os).1 ≡ ok (set_all (login_pairs l) (file_from I d os).1)
  unfolding load_login
  load_login-set_all sys filename php_cli temp_dir l os a h opt e_file e_php e_dir =
      let read = λ (k : Bytes).
        config_get_option_value-find k (file_from I d os).1
        ∙ ap reads (find-file_from I d k os opt) in
      rw (read (codes ":nagios_conf_file") ∙ ap reads e_file) (
        rw (read (codes ":php_cli") ∙ ap reads e_php) (
          rw (read (codes ":temp_dir") ∙ ap reads e_dir) (
            parse_nagios_conf-set_all sys filename php_cli temp_dir l (file_from I d os).1 a h
              (file_from-IsOptional I d os opt))))

  -- Where a parameter of the database is empty behind the INI file, and PHP prints the four of the
  -- Nagios configuration, none of them empty, with a bar, a line end or a NUL, or of 1,024 bytes or
  -- more, the options are loaded: these four read as PHP's values, whatever the INI file says of
  -- them, and any other as the tokenizer given, the file's value or the default. The names of the
  -- temporary file and of the command fit their arrays, and no option is mandatory.
  pub config_load-php :
      (sys : System) (config_file tokenizer : CString) (os : Options) (k : Bytes)
      (filename php_cli : CString) (temp_dir : Bytes) (l : Login)
      → I.load (elim config_file [ none ↦ default_file | some name ↦ name ]) ≡ some d
      → IsOptional os
      → All (λ key. IsKnown I d key os) login_keys
      → lacks I d login_keys os ≡ true
      → setting I d (codes ":nagios_conf_file") (find (codes ":nagios_conf_file") os)
        ≡ some filename
      → setting I d (codes ":php_cli") (find (codes ":php_cli") os) ≡ some php_cli
      → setting I d (codes ":temp_dir") (find (codes ":temp_dir") os) ≡ some (some temp_dir)
      → Answers sys filename php_cli temp_dir l
      → IsLogin l
      → (config_load sys I config_file tokenizer os >>= config_get_option_value k)
        ≡ reads (under (login_pairs l ++ tokenizer_pairs tokenizer) k (setting I d k (find k os)))
  config_load-php sys config_file tokenizer os k filename php_cli temp_dir l e opt known gone e_file
        e_php e_dir a h =
      let base = (file_from I d os).1 in
      let opt' = file_from-IsOptional I d os opt in
      let all = login_pairs l ++ tokenizer_pairs tokenizer in
      rw (config_load-file_from I d sys config_file tokenizer os e opt known) (
        rw gone (
          rw (load_login-set_all sys filename php_cli temp_dir l os a h opt e_file e_php e_dir) (
            rw
              (set_tokenizer-set_all sys tokenizer (set_all (login_pairs l) base)
                (set_all-IsOptional (login_pairs l) base opt'))
              (rw (set_all-append (login_pairs l) (tokenizer_pairs tokenizer) base) (
                config_get_option_value-find k (set_all all base)
                ∙ ap reads (
                    find-set_all all k base
                      (All-append IsPair (login_pairs l) (tokenizer_pairs tokenizer)
                        (login_pairs-IsPair l h) (tokenizer_pairs-IsPair tokenizer))
                      opt')
                ∙ ap (λ o. reads (under all k o)) (find-file_from I d k os opt))))))
