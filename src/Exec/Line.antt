-- ===== src/Exec/Line.antt =====
-- A line of a plugin: seven fields between bars are a result, and fewer are undefined.
use nagios_snmp.Base.{
  ℕ, ◌<◌, Bool, false, List, [], ◌∷◌, ◌++◌, Option, none, some, Bytes, equal, has, ok, fault,
  null_deref, ◌>>=◌, length, All, All-append, ◌≡◌, ◌≢◌, refl, ap, ◌∙◌, arith, append-cons-ne-nil,
}
use nagios_snmp.Base.Int.{ℤ, atoi}
use nagios_snmp.Util.{xstrdup, is_integer, remove_chars, keep_chars, non_empty}
use nagios_snmp.Util.Strings.{remove_chars_id}
use nagios_snmp.Stack.{Stack}
use nagios_snmp.Db.Tables.{HashTable}
use nagios_snmp.Db.{same_int, Db}
use nagios_snmp.Execlist.{Kind, ExecItem}
use nagios_snmp.Exec.{
  ExecResult, separate, Fields, no_fields, r_started, r_svc_id, field_loop, settle_kind,
  fill_fields, result_of, parse_result_str,
}
use nagios_snmp.Exec.Run.{Job, line_loop}

abbrev pub line_ends : Bytes
line_ends = b'\n' ∷ b'\r' ∷ []

-- A field that a line can hold.
abbrev pub IsField : Bytes → Type 0
IsField s = (has b'|' s ≡ false) × All (λ c. has c line_ends ≡ false) s

-- The fields with bars between them.
unfoldable pub bars : List Bytes → Bytes
bars [] = []
bars (f ∷ []) = f
bars (f ∷ g ∷ fs) = f ++ b'|' ∷ bars (g ∷ fs)

separate-plain : (f : Bytes) → has b'|' f ≡ false → separate f ≡ f ∷ []
unfolding separate
separate-plain [] h = refl
separate-plain (c ∷ f) h = ground (arith, separate-plain f)

separate-bar : (f s : Bytes) → has b'|' f ≡ false → separate (f ++ b'|' ∷ s) ≡ f ∷ separate s
unfolding separate
separate-bar [] s h = refl
separate-bar (c ∷ f) s h = ground (arith, separate-bar f s)

separate-bars :
    (f : Bytes) (fs : List Bytes) → All IsField (f ∷ fs) → separate (bars (f ∷ fs)) ≡ f ∷ fs
unfolding bars
separate-bars f [] h = separate-plain f h.0.0
separate-bars f (g ∷ fs) h =
    separate-bar f (bars (g ∷ fs)) h.0.0 ∙ ap (◌∷◌ f) (separate-bars g fs h.1)

bars-plain :
    (f : Bytes) (fs : List Bytes)
    → All IsField (f ∷ fs)
    → All (λ c. has c line_ends ≡ false) (bars (f ∷ fs))
unfolding bars
bars-plain f [] h = h.0.1
bars-plain f (g ∷ fs) h =
    All-append (λ c. has c line_ends ≡ false) f (b'|' ∷ bars (g ∷ fs)) h.0.1
      (refl, bars-plain g fs h.1)

field_loop-past : (f : Fields) (ts : List Bytes) → field_loop r_svc_id f ts ≡ f
unfolding field_loop
field_loop-past f [] = refl
field_loop-past f (t ∷ ts) = field_loop-past f ts

module _ (S : HashTable Bytes equal) (I : HashTable ℤ same_int) (db : Db S I) (k : Kind)
    (use_sender_address : Bool) where
  -- What a line with these fields becomes.
  parse-bars :
      (f : Bytes) (fs : List Bytes) (host svc : Option ℕ)
      → All IsField (f ∷ fs)
      → bars (f ∷ fs) ≢ []
      → parse_result_str S I db (some (bars (f ∷ fs))) k host svc use_sender_address ≡ (
          result_of S I db k host svc use_sender_address (field_loop r_started no_fields (f ∷ fs))
          >>= λ r. ok (some r))
  unfolding parse_result_str
  parse-bars f fs host svc h ne =
      rw (parse_result_str, remove_chars_id line_ends (bars (f ∷ fs)) (bars-plain f fs h) ne)
        (rw (separate-bars f fs h))

  result_of-short :
      (f : Bytes) (fs : List Bytes) (host svc : Option ℕ)
      → length (f ∷ fs) < 7
      → result_of S I db k host svc use_sender_address (field_loop r_started no_fields (f ∷ fs))
        ≡ fault null_deref
  unfolding result_of field_loop
  result_of-short f [] host svc h = refl
  result_of-short f (a ∷ []) host svc h = refl
  result_of-short f (a ∷ b ∷ []) host svc h = refl
  result_of-short f (a ∷ b ∷ c ∷ []) host svc h = refl
  result_of-short f (a ∷ b ∷ c ∷ d ∷ []) host svc h = refl
  result_of-short f (a ∷ b ∷ c ∷ d ∷ e ∷ []) host svc h = refl
  result_of-short f (a ∷ b ∷ c ∷ d ∷ e ∷ g ∷ fs) host svc h = absurd (omega arith)

  fill_fields-none : (r : ExecResult) → fill_fields S I db none none r ≡ ok r
  unfolding fill_fields
  fill_fields-none r = ground arith

  pub parse_result_str-fields :
      (address name desc ret out perf id : Bytes) (more : List Bytes)
      → All IsField (address ∷ name ∷ desc ∷ ret ∷ out ∷ perf ∷ id ∷ more)
      → parse_result_str S I db
          (some (bars (address ∷ name ∷ desc ∷ ret ∷ out ∷ perf ∷ id ∷ more)))
          k
          none
          none
          use_sender_address
        ≡ ok (
            some (record {
              is_complete = is_integer (some ret);
              is_service = settle_kind k (xstrdup (some desc));
              use_sender_address = use_sender_address;
              timestamp = 0;
              host_address = xstrdup (some address);
              host_name = xstrdup (some name);
              svc_desc = xstrdup (some desc);
              ret_value = atoi ret;
              output = xstrdup (some out);
              perfdata = xstrdup (some perf);
              is_valid_svc_id = is_integer (some id);
              svc_id = atoi id;
            }))
  unfolding result_of field_loop bars
  parse_result_str-fields address name desc ret out perf id more h =
      parse-bars address (name ∷ desc ∷ ret ∷ out ∷ perf ∷ id ∷ more) none none h
        (append-cons-ne-nil address b'|' _)
      ∙ rw (field_loop, field_loop-past) (rw fill_fields-none)

module _ (S : HashTable Bytes equal) (I : HashTable ℤ same_int) (db : Db S I) where
  parse-blank :
      (s : Bytes) (k : Kind) (host svc : Option ℕ) (use_sender_address : Bool)
      → keep_chars line_ends s ≡ []
      → parse_result_str S I db (some s) k host svc use_sender_address ≡ ok none
  unfolding parse_result_str remove_chars non_empty
  parse-blank s k host svc use_sender_address e = rw (parse_result_str, remove_chars, e) refl

  parse-short :
      (f : Bytes) (fs : List Bytes) (k : Kind) (host svc : Option ℕ) (use_sender_address : Bool)
      → All IsField (f ∷ fs)
      → bars (f ∷ fs) ≢ []
      → length (f ∷ fs) < 7
      → parse_result_str S I db (some (bars (f ∷ fs))) k host svc use_sender_address
        ≡ fault null_deref
  parse-short f fs k host svc use_sender_address h ne short =
      parse-bars S I db k use_sender_address f fs host svc h ne
      ∙ rw (result_of-short S I db k use_sender_address f fs host svc short) refl

  -- A run whose next line is blank, or has less than seven fields, reads through NULL, whatever the
  -- run has done before.
  pub line_loop_undefined :
      (job : Job) (item : ExecItem) (s : Stack ExecItem) (last : Option ExecResult)
      (lines : List Bytes) (blank : Bytes) (f : Bytes) (fs : List Bytes)
      → keep_chars line_ends blank ≡ []
      → All IsField (f ∷ fs)
      → bars (f ∷ fs) ≢ []
      → length (f ∷ fs) < 7
      → (line_loop S I db job item s last (blank ∷ lines) ≡ fault null_deref)
        × (line_loop S I db job item s last (bars (f ∷ fs) ∷ lines) ≡ fault null_deref)
  unfolding line_loop
  line_loop_undefined job item s last lines blank f fs e h ne short = (
    rw (line_loop, parse-blank blank item.is_service item.host item.svc job.use_sender_address e)
        refl,
    rw
        (
          line_loop,
          parse-short f fs item.is_service item.host item.svc job.use_sender_address h ne short,
        )
        refl,
  )
