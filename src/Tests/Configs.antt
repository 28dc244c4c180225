-- ===== src/Tests/Configs.antt =====
-- The loading of the options at concrete inputs: an INI file as a list of its values.
use nagios_snmp.Base.{
  true, List, [], ◌∷◌, ◌++◌, none, some, Bytes, CString, codes, equal, if◌then◌else◌, ◌>>=◌, ◌≡◌,
  refl, arith,
}
use nagios_snmp.Config.{options, config_get_option_value}
use nagios_snmp.Config.Load.{Ini, System, Login, config_load}
use nagios_snmp.Config.Table.{find, reads, options-IsOptional}
use nagios_snmp.Config.Ini.{under, tokenizer_pairs, setting, config_load-reads}
use nagios_snmp.Config.Php.{login_pairs, login_line, config_load-php}

abbrev values : List (Bytes × Bytes) → Bytes → CString
values [] key = none
values ((k, v) ∷ more) key = if equal k key then some v else values more key

abbrev with_default : CString → CString → CString
with_default none default = default
with_default (some v) default = some v

pub with_default_lem :
    (v default : CString) → with_default v default ≡ elim v [ none ↦ default | some w ↦ some w ]
with_default_lem none default = refl
with_default_lem (some v) default = refl

-- One file is there.
abbrev pub ini : List (Bytes × Bytes) → Ini
ini entries = record {
  Dictionary = List (Bytes × Bytes);
  load = λ name. if equal name (codes "a.ini") then some entries else none;
  value_of = values;
  getstring = λ d key default. with_default (values d key) default;
  getstring_lem = λ d key default. with_default_lem (values d key) default;
}

abbrev pub entries : List (Bytes × Bytes)
entries =
    (codes ":db_host", codes "localhost")
    ∷ (codes ":db_user", codes "nagios")
    ∷ (codes ":db_password", codes "secret")
    ∷ (codes ":db_name", codes "nagios3")
    ∷ (codes ":workers", codes "3")
    ∷ []

abbrev login : Login
login = record {
  db_host = codes "db";
  db_user = codes "u";
  db_password = codes "p w";
  db_name = codes "n";
}

-- PHP prints the parameters of the login.
abbrev pub system : System
system = record {
  fopen = λ name. some (codes "<?php $conf_nagios = array(); ?>\n");
  mkstemp = λ template. some template;
  fdopen = λ name. true;
  popen = λ command text. some (login_line login);
}

config_load-reads_example :
    (config_load system (ini entries) (some (codes "a.ini")) (some (codes "::")) options
      >>= config_get_option_value (codes ":workers"))
    ≡ reads (
        under
          (tokenizer_pairs (some (codes "::")))
          (codes ":workers")
          (setting (ini entries) entries (codes ":workers") (find (codes ":workers") options)))
unfolding options nagios_snmp.Util.is_empty nagios_snmp.Util.xstrdup
config_load-reads_example =
    config_load-reads (ini entries) entries system (some (codes "a.ini")) (some (codes "::"))
      options (codes ":workers") refl options-IsOptional
      ((none, refl), ((none, refl), ((none, refl), ((none, refl), tt)))) refl

config_load-php_example :
    (config_load system (ini []) (some (codes "a.ini")) none options
      >>= config_get_option_value (codes ":db_password"))
    ≡ reads (
        under
          (login_pairs login ++ tokenizer_pairs none)
          (codes ":db_password")
          (setting (ini []) [] (codes ":db_password") (find (codes ":db_password") options)))
unfolding options nagios_snmp.Util.is_empty nagios_snmp.Util.xstrdup
config_load-php_example =
    config_load-php (ini []) [] system (some (codes "a.ini")) none options (codes ":db_password")
      (some (codes "/usr/local/nagios/nagios.conf.php")) (some (codes "/usr/bin/php"))
      (codes "/tmp") login refl options-IsOptional
      ((none, refl), ((none, refl), ((none, refl), ((none, refl), tt)))) refl refl refl refl
      (record {
        conf = codes "<?php $conf_nagios = array(); ?>\n";
        auxfilename = codes "/tmp/nagiostrapdXXXXXX";
        opened = refl;
        dir_room = omega arith;
        made = refl;
        writable = refl;
        command_room = omega arith;
        answered = refl;
      })
      (ground arith)
