-- ===== src/Log/Entries.antt =====
-- What the error log holds behind any sequence of entries.
use nagios_snmp.Base.{
  ℕ, ◌-◌, Bool, true, List, [], ◌∷◌, ◌++◌, some, Bytes, CString, codes, ok, ◌>>=◌, ◌==◌,
  if◌then◌else◌, length, take, ◌≡◌, refl, ap, sym, append_assoc, append-nil, ◌∙◌, Bool-cases, inl,
  inr,
}
use nagios_snmp.Util.{is_empty}
use nagios_snmp.Log.{
  Verbosity, verbosity_debug, verbosity_warning, verbosity_error, verbosity_critical,
  verbosity_none, Handler, stderr, error_log, Log, write, set_verbosity, log_init, log_write_prefix,
  log_write_v, log_write, log_strerror, write_entry, log_warning, log_error, log_critical,
}

pub data Entry : Type 0 where
  warning error : ℕ → Bytes → Entry

module _ (date : Bytes) (strerror : ℕ → Bytes) where
  abbrev pub log_entry : Entry → Log → Log
  log_entry (warning errnum message) log = log_warning date strerror errnum message log
  log_entry (error errnum message) log = log_error date strerror errnum message log

  abbrev pub log_entries : List Entry → Log → Log
  log_entries [] log = log
  log_entries (e ∷ es) log = log_entries es (log_entry e log)

  -- A line: the date without its line end, the label, the message, and the error.
  abbrev pub line : Bytes → ℕ → Bytes → Bytes
  line label errnum message =
      (if is_empty (some date) then [] else take (length date - 1) date ++ b' ' ∷ [])
      ++ (label
          ++ (message
              ++ (if errnum == 0
                  then codes "\n"
                  else codes ": " ++ (strerror errnum ++ codes "\n"))))

  -- A warning is shown in a log of warnings or more, and an error unless only the end of the
  -- program is told.
  abbrev pub shown : Verbosity → Entry → Bytes
  shown verbosity_debug (warning errnum message) = line (codes "WARNING: ") errnum message
  shown verbosity_warning (warning errnum message) = line (codes "WARNING: ") errnum message
  shown verbosity_error (warning errnum message) = []
  shown verbosity_critical (warning errnum message) = []
  shown verbosity_none (warning errnum message) = []
  shown verbosity_debug (error errnum message) = line (codes "ERROR: ") errnum message
  shown verbosity_warning (error errnum message) = line (codes "ERROR: ") errnum message
  shown verbosity_error (error errnum message) = line (codes "ERROR: ") errnum message
  shown verbosity_critical (error errnum message) = []
  shown verbosity_none (error errnum message) = []

  abbrev pub all_shown : Verbosity → List Entry → Bytes
  all_shown v [] = []
  all_shown v (e ∷ es) = shown v e ++ all_shown v es

  write-write :
      (h : Handler) (s t : Bytes) (log : Log) → write h t (write h s log) ≡ write h (s ++ t) log
  unfolding write
  write-write stderr s t log =
      ap (λ u. record log { stderr_text = u }) (append_assoc log.stderr_text s t)
  write-write error_log s t log =
      ap (λ u. record log { error_text = u }) (append_assoc log.error_text s t)

  write-nil : (h : Handler) (log : Log) → write h [] log ≡ log
  unfolding write
  write-nil stderr log = ap (λ u. record log { stderr_text = u }) (append-nil log.stderr_text)
  write-nil error_log log = ap (λ u. record log { error_text = u }) (append-nil log.error_text)

  -- An entry is one line.
  write_entry-line :
      (h : Handler) (label : Bytes) (errnum : ℕ) (message : Bytes) (log : Log)
      → write_entry date strerror h label errnum message log
        ≡ write h (line label errnum message) log
  unfolding write_entry log_strerror log_write log_write_v log_write_prefix
  write_entry-line h label errnum message log = elim (Bool-cases (errnum == 0)) [
    | inl quiet ↦ rw quiet (elim (Bool-cases (is_empty (some date))) [
      | inl undated ↦ rw undated (simp (write-write, append_assoc))
      | inr dated ↦ rw dated (simp (write-write, append_assoc))
    ])
    | inr told ↦ rw told (elim (Bool-cases (is_empty (some date))) [
      | inl undated ↦ rw undated (simp (write-write, append_assoc))
      | inr dated ↦ rw dated (simp (write-write, append_assoc))
    ])
  ]

  -- The log of a daemon that has opened its file.
  abbrev opened : Verbosity → Bytes → Bytes → Log
  opened v error_text stderr_text = record {
    init_completed = true;
    is_daemon = true;
    verbosity = v;
    error_handler = error_log;
    error_text = error_text;
    stderr_text = stderr_text;
  }

  same : (v : Verbosity) (t s : Bytes) → opened v t s ≡ opened v (t ++ []) s
  same v t s = ap (λ u. opened v u s) (sym (append-nil t))

  told :
      (label : Bytes) (errnum : ℕ) (message : Bytes) (v : Verbosity) (t s : Bytes)
      → write_entry date strerror error_log label errnum message (opened v t s)
        ≡ opened v (t ++ line label errnum message) s
  unfolding write
  told label errnum message v t s = write_entry-line error_log label errnum message (opened v t s)

  log_entry-shown :
      (v : Verbosity) (e : Entry) (t s : Bytes)
      → log_entry e (opened v t s) ≡ opened v (t ++ shown v e) s
  unfolding log_warning log_error
  log_entry-shown verbosity_debug (warning errnum message) t s =
      told (codes "WARNING: ") errnum message verbosity_debug t s
  log_entry-shown verbosity_warning (warning errnum message) t s =
      told (codes "WARNING: ") errnum message verbosity_warning t s
  log_entry-shown verbosity_error (warning errnum message) t s = same verbosity_error t s
  log_entry-shown verbosity_critical (warning errnum message) t s = same verbosity_critical t s
  log_entry-shown verbosity_none (warning errnum message) t s = same verbosity_none t s
  log_entry-shown verbosity_debug (error errnum message) t s =
      told (codes "ERROR: ") errnum message verbosity_debug t s
  log_entry-shown verbosity_warning (error errnum message) t s =
      told (codes "ERROR: ") errnum message verbosity_warning t s
  log_entry-shown verbosity_error (error errnum message) t s =
      told (codes "ERROR: ") errnum message verbosity_error t s
  log_entry-shown verbosity_critical (error errnum message) t s = same verbosity_critical t s
  log_entry-shown verbosity_none (error errnum message) t s = same verbosity_none t s

  log_entries-all_shown :
      (v : Verbosity) (es : List Entry) (t s : Bytes)
      → log_entries es (opened v t s) ≡ opened v (t ++ all_shown v es) s
  log_entries-all_shown v [] t s = same v t s
  log_entries-all_shown v (e ∷ es) t s =
      ap (log_entries es) (log_entry-shown v e t s)
      ∙ log_entries-all_shown v es (t ++ shown v e) s
      ∙ ap (λ u. opened v u s) (append_assoc t (shown v e) (all_shown v es))

  -- In a daemon whose error log could be opened, the log holds behind any sequence of warnings and
  -- errors and an entry that ends the program just the lines of those entries that the verbosity
  -- shows, whole and in their order, and of the last in any case; nothing else goes to the standard
  -- error than the hint at the log if the startup is not completed.
  pub log_critical-entries :
      (verbose : Bool) (option : CString) (log : Log) (es : List Entry) (completed : Bool)
      (errnum : ℕ) (message : Bytes)
      → (log_init true verbose option true log >>= λ l.
          ok (log_critical date strerror completed errnum message (log_entries es l)))
        ≡ ok (record {
          init_completed = true;
          is_daemon = true;
          verbosity = set_verbosity option;
          error_handler = error_log;
          error_text =
              log.error_text
              ++ (all_shown (set_verbosity option) es ++ line (codes "CRITICAL: ") errnum message);
          stderr_text =
              if completed
              then log.stderr_text
              else log.stderr_text ++ codes "startup failed, see error log\n";
        })
  unfolding log_init log_critical write
  log_critical-entries verbose option log es completed errnum message =
      let v = set_verbosity option in
      rw (log_entries-all_shown v es log.error_text log.stderr_text) (
        rw
          (told (codes "CRITICAL: ") errnum message v (log.error_text ++ all_shown v es)
            log.stderr_text)
          (rw
            (append_assoc log.error_text (all_shown v es)
              (line (codes "CRITICAL: ") errnum message))
            (elim (Bool-cases completed) [ inl e ↦ rw e refl | inr e ↦ rw e refl ])))
