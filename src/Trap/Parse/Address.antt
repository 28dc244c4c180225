-- ===== src/Trap/Parse/Address.antt =====
-- The head of a trap: the host's name and the address, which is gathered in an array of 1,024 bytes.
use nagios_snmp.Base.{
  ◌+◌, ◌≤◌, ◌<◌, Bool, true, false, le→leb, lt→leb_false, List, [], ◌∷◌, ◌++◌, some, Bytes, codes,
  equal_refl, fault, overflow, leb, length, All, ltb, ltb→lt, Bool-cases, ◌≡◌, inl, inr, ◌∙◌, arith,
}
use nagios_snmp.Util.{xstrdup}
use nagios_snmp.Trap.{Trap, extract_ipaddress, alloc_trap}
use nagios_snmp.Trap.Parse.{
  reading_ipaddress, ipaddress_read, Parser, on_token, token_loop, initial, tmpbuflen,
}
use nagios_snmp.Trap.Parse.Wire.{within, Differs, join, take_self, length-extended}

-- The trap as the host's name leaves it, and as the address does.
abbrev pub named : Bytes → Trap
named host = record alloc_trap { hostname = xstrdup (some host) }

abbrev pub addressed : Bytes → Bytes → Trap
addressed host ip = record (named host) { ipaddress = extract_ipaddress (some ip) }

abbrev pub reading_address : Bytes → Bytes → Parser
reading_address host ip = within reading_ipaddress (named host) ip (length ip) []

pub join-le : (w : Bytes) (vs : List Bytes) → length w ≤ length (join w vs)
join-le w [] = omega arith
join-le w (v ∷ vs) = omega (arith, join-le (w ++ b' ' ∷ v) vs, length-extended w v)

module _ (tk : Bytes) (private : Bool) where
  pub loop_start :
      (host : Bytes) (rest : List Bytes)
      → Differs tk (codes "TRAP")
      → Differs tk host
      → length tk < 1024
      → token_loop tk private initial (codes "TRAP" ∷ tk ∷ host ∷ tk ∷ rest)
        ≡ token_loop tk private (reading_address host tk) rest
  unfolding token_loop on_token alloc_trap
  loop_start host rest d h b =
      let fits : leb (length tk + 1) tmpbuflen ≡ true = le→leb _ _ (omega arith) in
      rw (d, equal_refl tk, h) (rw fits)

  loop_address_word :
      (host ip w : Bytes) (rest : List Bytes)
      → Differs tk w
      → length (ip ++ b' ' ∷ w) ≤ 1024
      → token_loop tk private (reading_address host ip) (w ∷ rest)
        ≡ token_loop tk private (reading_address host (ip ++ b' ' ∷ w)) rest
  unfolding token_loop on_token
  loop_address_word host ip w rest d b =
      let n = length-extended ip w in
      let fits : leb (length ip + 1 + length w) tmpbuflen ≡ true = le→leb _ _ (omega (arith, n)) in
      rw (d, fits) (rw (take_self ip, n))

  loop_address_end :
      (host ip : Bytes) (rest : List Bytes)
      → length ip < 1024
      → token_loop tk private (reading_address host ip) (tk ∷ rest)
        ≡ token_loop tk private (within ipaddress_read (addressed host ip) ip (length ip) []) rest
  unfolding token_loop on_token alloc_trap
  loop_address_end host ip rest b =
      let fits : leb (length ip + 1) tmpbuflen ≡ true = le→leb _ _ (omega arith) in
      rw (equal_refl tk) (rw (fits, take_self ip))

  pub loop_address :
      (host ip : Bytes) (ws rest : List Bytes)
      → All (Differs tk) ws
      → length (join ip ws) < 1024
      → token_loop tk private (reading_address host ip) (ws ++ tk ∷ rest)
        ≡ token_loop tk private
            (within ipaddress_read
              (addressed host (join ip ws))
              (join ip ws)
              (length (join ip ws))
              [])
            rest
  loop_address host ip [] rest h b = loop_address_end host ip rest b
  loop_address host ip (w ∷ ws) rest h b =
      loop_address_word host ip w (ws ++ tk ∷ rest) h.0 (omega (arith, join-le (ip ++ b' ' ∷ w) ws))
      ∙ loop_address host (ip ++ b' ' ∷ w) ws rest h.1 b

  -- A word that runs past the end of `ipbuf`.
  loop_address_past :
      (host ip w : Bytes) (rest : List Bytes)
      → Differs tk w
      → 1024 < length (ip ++ b' ' ∷ w)
      → token_loop tk private (reading_address host ip) (w ∷ rest) ≡ fault overflow
  unfolding token_loop on_token
  loop_address_past host ip w rest d b =
      let n = length-extended ip w in
      let over : leb (length ip + 1 + length w) tmpbuflen ≡ false =
        lt→leb_false _ _ (omega (arith, n)) in
      rw (d, over)

  -- The tokenizer behind the address, for an array that has no byte left.
  loop_address_full :
      (host ip : Bytes) (rest : List Bytes)
      → 1024 ≤ length ip
      → token_loop tk private (reading_address host ip) (tk ∷ rest) ≡ fault overflow
  unfolding token_loop on_token
  loop_address_full host ip rest b =
      let over : leb (length ip + 1) tmpbuflen ≡ false = lt→leb_false _ _ (omega arith) in
      rw (equal_refl tk) (rw over)

  pub loop_address_overflow :
      (host ip : Bytes) (ws rest : List Bytes)
      → All (Differs tk) ws
      → 1024 ≤ length (join ip ws)
      → token_loop tk private (reading_address host ip) (ws ++ tk ∷ rest) ≡ fault overflow
  loop_address_overflow host ip [] rest h b = loop_address_full host ip rest b
  loop_address_overflow host ip (w ∷ ws) rest h b =
      elim (Bool-cases (ltb 1024 (length (ip ++ b' ' ∷ w)))) [
        | inl over ↦ loop_address_past host ip w (ws ++ tk ∷ rest) h.0 (ltb→lt _ _ over)
        | inr under ↦
            loop_address_word host ip w (ws ++ tk ∷ rest) h.0 (ground arith)
            ∙ loop_address_overflow host (ip ++ b' ' ∷ w) ws rest h.1 b
      ]
