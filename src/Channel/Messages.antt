-- ===== src/Channel/Messages.antt =====
-- The lines of the channel, read as Nagios reads them.
use nagios_snmp.Base.{
  ℕ, zero, suc, ◌+◌, ◌/◌, ◌%◌, true, false, List, [], ◌∷◌, ◌++◌, some, Bytes, CString, codes, has,
  ◌==◌, if◌then◌else◌, ◌≡◌, ◌≢◌, refl, ap, sym, ◌∙◌, arith, append_assoc,
}
use nagios_snmp.Base.Int.{ℤ, pos, negsuc}
use nagios_snmp.Base.Decimal.{fixed_digits, strip_zeros, decimal, decimal_int}
use nagios_snmp.Util.{is_empty}
use nagios_snmp.Channel.{
  Channel, channel_process_host_check_result, channel_process_svc_check_result, channel_write,
  host_message, svc_message, output_text,
}

-- Up to the first semicolon, and behind it.
pub field : Bytes → Bytes
field [] = []
field (c ∷ s) = if c == b';' then [] else c ∷ field s

pub behind : Bytes → Bytes
behind [] = []
behind (c ∷ s) = if c == b';' then s else behind s

-- The first `n` fields of an external command, and what follows them.
pub fields : ℕ → Bytes → List Bytes
fields zero s = s ∷ []
fields (suc n) s = field s ∷ fields n (behind s)

field_lem : (a b : Bytes) → has b';' a ≡ false → field (a ++ b';' ∷ b) ≡ a
unfolding field
field_lem [] b h = refl
field_lem (c ∷ a) b h = ground (arith, field_lem a b)

behind_lem : (a b : Bytes) → has b';' a ≡ false → behind (a ++ b';' ∷ b) ≡ b
unfolding behind
behind_lem [] b h = refl
behind_lem (c ∷ a) b h = ground (arith, behind_lem a b)

fields-suc :
    (n : ℕ) (a b : Bytes) → has b';' a ≡ false → fields (suc n) (a ++ b';' ∷ b) ≡ a ∷ fields n b
unfolding fields
fields-suc n a b h = rw (fields, field_lem a b h, behind_lem a b h)

has-append : (a b : Bytes) → has b';' a ≡ false → has b';' b ≡ false → has b';' (a ++ b) ≡ false
has-append [] b h k = k
has-append (c ∷ a) b h k = ground (arith, has-append a b)

has-fixed_digits : (k n : ℕ) → has b';' (fixed_digits k n) ≡ false
unfolding fixed_digits
has-fixed_digits zero n = refl
has-fixed_digits (suc k) n =
    has-append (fixed_digits k (n / 10)) ((b'0' + n % 10) ∷ []) (has-fixed_digits k (n / 10))
      (ground arith)

has-strip_zeros : (s : Bytes) → has b';' s ≡ false → has b';' (strip_zeros s) ≡ false
unfolding strip_zeros
has-strip_zeros [] h = refl
has-strip_zeros (c ∷ []) h = h
has-strip_zeros (c ∷ d ∷ s) h = ground (arith, has-strip_zeros (d ∷ s))

has-decimal : (n : ℕ) → has b';' (decimal n) ≡ false
unfolding decimal
has-decimal n = has-strip_zeros (fixed_digits 10 n) (has-fixed_digits 10 n)

has-decimal_int : (z : ℤ) → has b';' (decimal_int z) ≡ false
unfolding decimal_int
has-decimal_int (pos n) = has-decimal n
has-decimal_int (negsuc n) = has-decimal (suc n)

-- The first field: the time and the name of the command.
abbrev pub stamped : ℕ → Bytes → Bytes
stamped timestamp name = b'[' ∷ (decimal timestamp ++ name)

has-stamped : (t : ℕ) (name : Bytes) → has b';' name ≡ false → has b';' (stamped t name) ≡ false
has-stamped t name h = has-append (decimal t) name (has-decimal t) h

is_empty-ne : (s : Bytes) → s ≢ [] → is_empty (some s) ≡ false
unfolding is_empty
is_empty-ne [] h = absurd (h refl)
is_empty-ne (c ∷ s) h = refl

-- A name in front of its semicolon.
cut_name :
    (t : ℕ) (name rest : Bytes) → stamped t (name ++ b';' ∷ rest) ≡ stamped t name ++ b';' ∷ rest
cut_name t name rest = ap (◌∷◌ b'[') (sym (append_assoc (decimal t) name (b';' ∷ rest)))

module _ (timestamp : ℕ) (host svc : Bytes) (code : ℤ) (plugin_output perfdata : CString) where
  abbrev host_name_field : Bytes
  host_name_field = stamped timestamp (codes "] PROCESS_HOST_CHECK_RESULT")

  abbrev svc_name_field : Bytes
  svc_name_field = stamped timestamp (codes "] PROCESS_SERVICE_CHECK_RESULT")

  fields-host_message :
      has b';' host ≡ false
      → fields 3 (host_message timestamp (some host) code plugin_output perfdata)
        ≡ host_name_field ∷ host ∷ decimal_int code ∷ output_text plugin_output perfdata ∷ []
  unfolding host_message fields
  fields-host_message h =
      let out = output_text plugin_output perfdata in
      ap (fields 3) (
        cut_name timestamp (codes "] PROCESS_HOST_CHECK_RESULT")
          (host ++ b';' ∷ (decimal_int code ++ b';' ∷ out)))
      ∙ fields-suc 2 host_name_field (host ++ b';' ∷ (decimal_int code ++ b';' ∷ out))
          (has-stamped timestamp (codes "] PROCESS_HOST_CHECK_RESULT") refl)
      ∙ ap (◌∷◌ host_name_field) (
          fields-suc 1 host (decimal_int code ++ b';' ∷ out) h
          ∙ ap (◌∷◌ host) (fields-suc 0 (decimal_int code) out (has-decimal_int code)))

  fields-svc_message :
      has b';' host ≡ false
      → has b';' svc ≡ false
      → fields 4 (svc_message timestamp (some host) (some svc) code plugin_output perfdata)
        ≡ svc_name_field ∷ host ∷ svc ∷ decimal_int code ∷ output_text plugin_output perfdata ∷ []
  unfolding svc_message fields
  fields-svc_message h k =
      let out = output_text plugin_output perfdata in
      ap (fields 4) (
        cut_name timestamp (codes "] PROCESS_SERVICE_CHECK_RESULT")
          (host ++ b';' ∷ (svc ++ b';' ∷ (decimal_int code ++ b';' ∷ out))))
      ∙ fields-suc 3 svc_name_field
          (host ++ b';' ∷ (svc ++ b';' ∷ (decimal_int code ++ b';' ∷ out)))
          (has-stamped timestamp (codes "] PROCESS_SERVICE_CHECK_RESULT") refl)
      ∙ ap (◌∷◌ svc_name_field) (
          fields-suc 2 host (svc ++ b';' ∷ (decimal_int code ++ b';' ∷ out)) h
          ∙ ap (◌∷◌ host) (
              fields-suc 1 svc (decimal_int code ++ b';' ∷ out) k
              ∙ ap (◌∷◌ svc) (fields-suc 0 (decimal_int code) out (has-decimal_int code))))

  -- Where the names are not empty and hold no semicolon, and the stream takes the line, a call
  -- writes one line behind those that are out, and Nagios, which cuts at semicolons, reads back the
  -- time and the command, the names, the code, and the output with all the semicolons that it has.
  pub channel_write-fields :
      (c : Channel)
      → host ≢ []
      → svc ≢ []
      → has b';' host ≡ false
      → has b';' svc ≡ false
      → ((line : Bytes) × ((channel_write true c timestamp
              (some host)
              (some svc)
              code
              plugin_output
              perfdata
              false).lines
            ≡ c.lines ++ line ∷ [])
          × (fields 3 line
              ≡ host_name_field
                ∷ host
                ∷ decimal_int code
                ∷ output_text plugin_output perfdata
                ∷ []))
        × ((line : Bytes) × ((channel_write true c timestamp
                (some host)
                (some svc)
                code
                plugin_output
                perfdata
                true).lines
              ≡ c.lines ++ line ∷ [])
            × (fields 4 line
                ≡ svc_name_field
                  ∷ host
                  ∷ svc
                  ∷ decimal_int code
                  ∷ output_text plugin_output perfdata
                  ∷ []))
  unfolding channel_write channel_process_host_check_result channel_process_svc_check_result
  channel_write-fields c hn sn h k = (
    (
      host_message timestamp (some host) code plugin_output perfdata,
      rw (is_empty-ne host hn),
      fields-host_message h,
    ),
    (
      svc_message timestamp (some host) (some svc) code plugin_output perfdata,
      rw (is_empty-ne host hn, is_empty-ne svc sn),
      fields-svc_message h k,
    ),
  )
