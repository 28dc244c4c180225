-- ===== src/Standalone/Accepts.antt =====
-- A trap on the standard input, and a line behind it.
use nagios_snmp.Base.{
  ℕ, ◌+◌, ◌<◌, Bool, true, false, List, [], ◌∷◌, ◌++◌, some, Bytes, CString, codes, equal, has, ok,
  fault, garbage_ptr, length, ◌≡◌, refl, ap, arith, ◌∙◌,
}
use nagios_snmp.Base.Int.{ℤ}
use nagios_snmp.Util.{keep_chars, non_empty, remove_chars}
use nagios_snmp.Command.{command_expand_1}
use nagios_snmp.Channel.{Channel}
use nagios_snmp.Db.Tables.{HashTable}
use nagios_snmp.Db.{same_int, Db, db_lookup_resource}
use nagios_snmp.Exec.Start.{exec_trap}
use nagios_snmp.Trap.{trap_pdu_get_response, trap_is_trap}
use nagios_snmp.Trap.Parse.{parse}
use nagios_snmp.Trap.Parse.Tokens.{unwords}
use nagios_snmp.Trap.Parse.Wire.{Message, join, vars_of, message_tokens}
use nagios_snmp.Trap.Parse.RoundTrip.{IsSound, primary_value, trap_of, parse_accepts}
use nagios_snmp.Trap.Serialize.{SerializeMode, trap_serialize}
use nagios_snmp.Worker.{Settings}
use nagios_snmp.Worker.Traps.{free_accepted}
use nagios_snmp.Standalone.{
  Progress, serialized_lines, run_standalone, respond, process_line, main_loop,
  standalone_start_main_loop,
}

keep_chars-ended :
    (l : Bytes) → keep_chars (codes "\n\r") (l ++ codes "\n") ≡ keep_chars (codes "\n\r") l
unfolding keep_chars
keep_chars-ended [] = refl
keep_chars-ended (c ∷ l) = ground (arith, keep_chars-ended l)

remove_chars-ended :
    (l : Bytes)
    → remove_chars (some (l ++ codes "\n")) (codes "\n\r") ≡ remove_chars (some l) (codes "\n\r")
unfolding remove_chars
remove_chars-ended l = ap non_empty (keep_chars-ended l)

-- The line end that `getline` leaves is no part of the request.
parse-ended :
    (tk : Bytes) (tv_sec tv_usec n : ℕ) (l : Bytes) (private : Bool)
    → parse tk tv_sec tv_usec n (some (l ++ codes "\n")) private
      ≡ parse tk tv_sec tv_usec n (some l) private
unfolding parse
parse-ended tk tv_sec tv_usec n l private = rw (parse, remove_chars-ended l) refl

module _ (S : HashTable Bytes equal) (I : HashTable ℤ same_int) (db : Db S I) (settings : Settings)
    (mode : SerializeMode) (plugin : ℕ → Bytes → List Bytes) (taken : ℕ → Bool)
    (set_permissions : Bytes → Bool) (tv_sec tv_usec : ℕ) where
  -- In standalone mode a trap as in `parse_accepts`, on the first line of the standard input, is
  -- answered, run with the OID and the expanded command of the user, and printed as it would be
  -- logged, with a comma between fields, where its run ends in a value and its text fits. With
  -- nothing behind it the program ends so; but a second line, whatever it is, is written to the
  -- memory that has been freed with the first.
  pub standalone-accepts :
      (m : Message) (a ip b v : Bytes) (oid command trap_handler : CString) (p : Progress)
      (done : Bool) (runs : ℕ) (out : Channel) (text second : Bytes) (lines : List Bytes)
      → IsSound settings.tokenizer m
      → length (join settings.tokenizer m.address) < 1024
      → join settings.tokenizer m.address ≡ a ++ b'[' ∷ (ip ++ b']' ∷ b)
      → has b'[' a ≡ false
      → has b']' ip ≡ false
      → primary_value (vars_of m) ≡ some v
      → command_expand_1 (db_lookup_resource S I db) command ≡ ok trap_handler
      → exec_trap S I plugin taken set_permissions settings.limit db
          (some (trap_of tv_sec tv_usec ip v m))
          oid
          trap_handler
          p.channel
        ≡ ok (done, runs, out)
      → trap_serialize mode (some (trap_of tv_sec tv_usec ip v m)) done (codes ",") ≡ ok (some text)
      → (standalone_start_main_loop S I db settings mode plugin taken set_permissions tv_sec tv_usec
            oid command
            ((unwords (message_tokens settings.tokenizer m) ++ codes "\n") ∷ [])
            p
          ≡ ok (record {
            printed =
                p.printed
                ++ codes "ACCEPTED\n"
                  ∷ codes "=== begin serialized trap ===\n"
                  ∷ (text ++ codes "\n")
                  ∷ codes "=== end   serialized trap ===\n"
                  ∷ [];
            trap_parsed = p.trap_parsed + 1;
            channel = out;
          }))
        × (standalone_start_main_loop S I db settings mode plugin taken set_permissions tv_sec
              tv_usec oid command
              ((unwords (message_tokens settings.tokenizer m) ++ codes "\n") ∷ second ∷ lines)
              p
            ≡ fault garbage_ptr)
  unfolding standalone_start_main_loop main_loop process_line respond run_standalone
      serialized_lines trap_pdu_get_response trap_is_trap
  standalone-accepts m a ip b v oid command trap_handler p done runs out text second lines sound
        small address q r named expanded run serialized =
      let line = unwords (message_tokens settings.tokenizer m) in
      let read =
        parse-ended settings.tokenizer tv_sec tv_usec p.trap_parsed line true
        ∙ parse_accepts settings.tokenizer tv_sec tv_usec p.trap_parsed true m sound a ip b v small
            address q r named in
      let free = free_accepted tv_sec tv_usec ip v m in
      (
        rw expanded (rw read (rw run (rw serialized (rw free refl)))),
        rw expanded (rw read (rw run (rw serialized (rw free refl)))),
      )
