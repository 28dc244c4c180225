-- ===== src/Config/Load.antt =====
-- src/config.c: `parse_file`, `parse_nagios_conf` and `config_load`. The INI library is a parameter,
-- and so is what the system answers: the text of a file that can be opened, the name of a temporary
-- file, and the output of a command that reads it.
use nagios_snmp.Base.{
  ℕ, ◌+◌, Bool, true, false, not, List, [], ◌∷◌, ◌++◌, Option, none, some, Bytes, CString, codes,
  deref, printed, Result, ok, fault, critical, overflow, ◌>>=◌, leb, ◌==◌, has, if◌then◌else◌,
  length, ◌≡◌,
}
use nagios_snmp.Base.Stdio.{until_nul, fgets}
use nagios_snmp.Util.{is_empty, xstrdup}
use nagios_snmp.Config.{Options, set_option_value, config_get_option_value}

-- What a loaded INI file holds, by `section:key`, and the library's reading with a default.
pub record Ini : Type 1 where
  pub Dictionary : Type 0
  pub load : Bytes → Option Dictionary
  pub value_of : Dictionary → Bytes → CString
  pub getstring : Dictionary → Bytes → CString → CString
  pub getstring_lem :
      (d : Dictionary) (key : Bytes) (default : CString)
      → getstring d key default ≡ elim (value_of d key) [ none ↦ default | some v ↦ some v ]

pub record System : Type 0 where
  pub fopen : CString → Option Bytes
  pub mkstemp : Bytes → Option Bytes
  pub fdopen : Bytes → Bool
  pub popen : Bytes → Bytes → Option Bytes

abbrev pub default_file : Bytes
default_file = codes "/etc/nagiostrapd/nagiostrapd.ini"

module _ (I : Ini) where
  -- The loop over the options: each value is replaced, and an empty one becomes NULL.
  unfoldable pub file_from : I.Dictionary → Options → Bool × Options
  file_from ini [] = (true, [])
  file_from ini (o ∷ os) =
      let rest = file_from ini os in
      let value = I.getstring ini o.key o.value in
      if is_empty value
      then (if o.mandatory then (false, o ∷ os) else (rest.0, record o { value = none } ∷ rest.1))
      else (rest.0, record o { value = xstrdup value } ∷ rest.1)

  unfoldable pub parse_file : CString → Options → Bool × Options
  unfolding file_from
  parse_file config_file os =
      elim (I.load (elim config_file [ none ↦ default_file | some name ↦ name ])) [
        | none ↦ (false, os)
        | some ini ↦ file_from ini os
      ]

abbrev pub tmpbuflen : ℕ
tmpbuflen = 1024

abbrev pub tmpbuflen_small : ℕ
tmpbuflen_small = 128

abbrev pub tmpfile_template : Bytes
tmpfile_template = codes "/nagiostrapdXXXXXX"

-- The PHP code behind the copy of the file. `%%` of the format is one `%`.
abbrev pub print_fields : Bytes
print_fields =
    codes
      "<?php\nprintf(\"%s|%s|%s|%s\\n\",$conf_nagios['server'],$conf_nagios['user'],$conf_nagios['password'],$conf_nagios['db']);\n?>\n"

-- `fgets` and `fputs` in turn.
unfoldable pub copied : List Bytes → Bytes
copied [] = []
copied (piece ∷ pieces) = until_nul piece ++ copied pieces

-- `%[^...]` of `fscanf`: the bytes in front of the first that is in the set, and the others.
unfoldable pub span_not : Bytes → Bytes → Bytes × Bytes
span_not stops [] = ([], [])
span_not stops (c ∷ s) =
    let rest = span_not stops s in if has c stops then ([], c ∷ s) else (c ∷ rest.0, rest.1)

-- One conversion into an array of `TMPBUFLEN` bytes; with no byte to convert it is no match.
unfoldable pub scan_field : Bytes → Bytes → Result (Bytes × Bytes)
unfolding span_not
scan_field stops s =
    let field = span_not stops s in
    if length field.0 == 0
    then fault critical
    else if leb tmpbuflen (length field.0)
    then fault overflow
    else ok field

-- The `|` of the format.
unfoldable pub scan_bar : Bytes → Result Bytes
scan_bar [] = fault critical
scan_bar (c ∷ s) = if c == b'|' then ok s else fault critical

pub record Login : Type 0 where
  pub db_host : Bytes
  pub db_user : Bytes
  pub db_password : Bytes
  pub db_name : Bytes

-- `fscanf(pipe, "%[^|]|%[^|]|%[^|]|%[^|\n]\n", ...)` with `matched != 4` as an error.
unfoldable pub scan_login : Bytes → Result Login
unfolding scan_field scan_bar
scan_login output = do
  host ← scan_field (codes "|") output
  after_host ← scan_bar host.1
  user ← scan_field (codes "|") after_host
  after_user ← scan_bar user.1
  password ← scan_field (codes "|") after_user
  after_password ← scan_bar password.1
  name ← scan_field (codes "|\n") after_password
  ok (record {
    db_host = until_nul host.0;
    db_user = until_nul user.0;
    db_password = until_nul password.0;
    db_name = until_nul name.0;
  })

-- `set_option_value(key, value, 1)`, with its failure as the end of the program.
unfoldable pub set_required : Bytes → Bytes → Options → Result Options
unfolding set_option_value
set_required key value os =
    let done = set_option_value (some key) (some value) true os in
    if done.0 then ok done.1 else fault critical

unfoldable pub set_login : Login → Options → Result Options
unfolding set_required
set_login login os = do
  with_host ← set_required (codes ":db_host") login.db_host os
  with_user ← set_required (codes ":db_user") login.db_user with_host
  with_password ← set_required (codes ":db_password") login.db_password with_user
  set_required (codes ":db_name") login.db_name with_password

abbrev pub login_keys : List Bytes
login_keys = codes ":db_host" ∷ codes ":db_user" ∷ codes ":db_password" ∷ codes ":db_name" ∷ []

-- Is one of the options empty? The rest are not read then.
unfoldable pub any_empty : List Bytes → Options → Result Bool
any_empty [] os = ok false
any_empty (key ∷ keys) os = do
  value ← config_get_option_value key os
  (let rest = any_empty keys os in if is_empty value then ok true else rest)

abbrev pub required {ℓ} : {A : Type ℓ} → Option A → Result A
required none = fault critical
required (some a) = ok a

module _ (sys : System) where
  -- The name of the temporary file, in an array of `TMPBUFLEN_SMALL` bytes.
  unfoldable pub temp_name : Bytes → Result Bytes
  temp_name dir =
      if leb tmpbuflen_small (length dir + length tmpfile_template)
      then fault overflow
      else required (sys.mkstemp (dir ++ tmpfile_template))

  unfoldable pub make_temp : CString → Result Bytes
  unfolding temp_name
  make_temp temp_dir = deref temp_dir >>= temp_name

  -- From the copy of the configuration to what PHP prints.
  unfoldable pub run_php : CString → Bytes → Bytes → Result Bytes
  unfolding copied
  run_php php_cli auxfilename conf =
      if not (sys.fdopen auxfilename)
      then fault critical
      else if leb tmpbuflen (length (printed php_cli) + 1 + length auxfilename)
      then fault overflow
      else required (
          sys.popen (printed php_cli ++ b' ' ∷ auxfilename)
            (copied (fgets tmpbuflen conf) ++ print_fields))

  unfoldable pub parse_nagios_conf : CString → CString → CString → Options → Result Options
  unfolding make_temp run_php scan_login set_login
  parse_nagios_conf filename php_cli temp_dir os = do
    conf ← required (sys.fopen filename)
    auxfilename ← make_temp temp_dir
    output ← run_php php_cli auxfilename conf
    login ← scan_login output
    set_login login os

  unfoldable pub load_login : Options → Result Options
  unfolding parse_nagios_conf
  load_login os = do
    filename ← config_get_option_value (codes ":nagios_conf_file") os
    php_cli ← config_get_option_value (codes ":php_cli") os
    temp_dir ← config_get_option_value (codes ":temp_dir") os
    parse_nagios_conf filename php_cli temp_dir os

  unfoldable pub set_tokenizer : CString → Options → Result Options
  unfolding set_required
  set_tokenizer none os = ok os
  set_tokenizer (some tokenizer) os =
      if is_empty (some tokenizer)
      then ok os
      else set_required (codes ":trap_tokenizer") tokenizer os

  unfoldable pub config_load : (I : Ini) → CString → CString → Options → Result Options
  unfolding parse_file any_empty load_login set_tokenizer
  config_load I config_file tokenizer os = do
    let parsed = parse_file I config_file os
    read ← (if parsed.0 then ok parsed.1 else fault critical)
    missing ← any_empty login_keys read
    with_login ← (if missing then load_login read else ok read)
    set_tokenizer tokenizer with_login
