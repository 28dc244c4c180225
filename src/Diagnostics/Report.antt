-- ===== src/Diagnostics/Report.antt =====
-- The program's own table.
use nagios_snmp.Base.{◌<◌, List, [], ◌∷◌, map, codes, ok, ◌>>=◌, length, All, ◌≡◌, refl, arith}
use nagios_snmp.Diagnostics.{Real, Readings, diagnostics, diagnostics_get_padding}
use nagios_snmp.Diagnostics.Rows.{render}
use nagios_snmp.Diagnostics.ReadBack.{IsKey}
use nagios_snmp.Diagnostics.Written.{Prints, IsDistinct, IsTable}
use nagios_snmp.Diagnostics.Pool.{file}
use nagios_snmp.Diagnostics.Global.{pool_report}
use nagios_snmp.Diagnostics.Totals.{dumps, totals, HasOther, report_of_table}

module _ (R : Real) where
  diagnostics-IsDistinct : IsDistinct R (diagnostics R)
  unfolding diagnostics
  diagnostics-IsDistinct = ground arith

  diagnostics_narrow : diagnostics_get_padding R (diagnostics R) < 700
  unfolding diagnostics diagnostics_get_padding
  diagnostics_narrow = omega arith

  diagnostics-IsKey : All (λ d. IsKey d.key) (diagnostics R)
  unfolding diagnostics
  diagnostics-IsKey = (
    (codes "Pid", [], ground arith, refl),
    (
      (codes "Uptime", [], ground arith, refl),
      (
        (codes "Available", codes "Threads" ∷ [], ground arith, refl),
        (
          (codes "Tasks", codes "Queue" ∷ codes "Length" ∷ [], ground arith, refl),
          (
            (codes "Free", codes "Tasks" ∷ codes "Queue" ∷ codes "Length" ∷ [], ground arith, refl),
            (
              (codes "Malloc", codes "Arena" ∷ [], ground arith, refl),
              (
                (codes "Used", codes "Memory" ∷ [], ground arith, refl),
                (
                  (codes "Parsed", codes "Traps" ∷ [], ground arith, refl),
                  (
                    (codes "Parsed", codes "Traps/sec" ∷ [], ground arith, refl),
                    (
                      (
                        codes "Channel",
                        codes "Host" ∷ codes "Written" ∷ codes "Bytes" ∷ [],
                        ground arith,
                        refl,
                      ),
                      (
                        (
                          codes "Channel",
                          codes "Svc" ∷ codes "Written" ∷ codes "Bytes" ∷ [],
                          ground arith,
                          refl,
                        ),
                        (
                          (
                            codes "Channel",
                            codes "Total" ∷ codes "Written" ∷ codes "Bytes" ∷ [],
                            ground arith,
                            refl,
                          ),
                          (
                            (
                              codes "Channel",
                              codes "Host" ∷ codes "Written" ∷ codes "Bytes/sec" ∷ [],
                              ground arith,
                              refl,
                            ),
                            (
                              (
                                codes "Channel",
                                codes "Svc" ∷ codes "Written" ∷ codes "Bytes/sec" ∷ [],
                                ground arith,
                                refl,
                              ),
                              (
                                (
                                  codes "Channel",
                                  codes "Total" ∷ codes "Written" ∷ codes "Bytes/sec" ∷ [],
                                  ground arith,
                                  refl,
                                ),
                                (
                                  (
                                    codes "Channel",
                                    codes "Host" ∷ codes "Writes" ∷ [],
                                    ground arith,
                                    refl,
                                  ),
                                  (
                                    (
                                      codes "Channel",
                                      codes "Svc" ∷ codes "Writes" ∷ [],
                                      ground arith,
                                      refl,
                                    ),
                                    (
                                      (
                                        codes "Channel",
                                        codes "Total" ∷ codes "Writes" ∷ [],
                                        ground arith,
                                        refl,
                                      ),
                                      (
                                        (
                                          codes "Channel",
                                          codes "Host" ∷ codes "Writes/sec" ∷ [],
                                          ground arith,
                                          refl,
                                        ),
                                        (
                                          (
                                            codes "Channel",
                                            codes "Svc" ∷ codes "Writes/sec" ∷ [],
                                            ground arith,
                                            refl,
                                          ),
                                          (
                                            (
                                              codes "Channel",
                                              codes "Total" ∷ codes "Writes/sec" ∷ [],
                                              ground arith,
                                              refl,
                                            ),
                                            (
                                              (
                                                codes "Channel",
                                                codes "Errors" ∷ [],
                                                ground arith,
                                                refl,
                                              ),
                                              (
                                                (
                                                  codes "Error",
                                                  codes "Log" ∷ codes "Size" ∷ [],
                                                  ground arith,
                                                  refl,
                                                ),
                                                (
                                                  (
                                                    codes "Trap",
                                                    codes "Log" ∷ codes "Size" ∷ [],
                                                    ground arith,
                                                    refl,
                                                  ),
                                                  tt,
                                                ),
                                              ),
                                            ),
                                          ),
                                        ),
                                      ),
                                    ),
                                  ),
                                ),
                              ),
                            ),
                          ),
                        ),
                      ),
                    ),
                  ),
                ),
              ),
            ),
          ),
        ),
      ),
    ),
  )

  diagnostics-IsTable : IsTable R (diagnostics R)
  diagnostics-IsTable = record {
    keys = diagnostics-IsKey;
    distinct = diagnostics-IsDistinct;
    narrow = diagnostics_narrow;
  }

  diagnostics-HasOther : HasOther R (diagnostics R)
  unfolding diagnostics
  diagnostics-HasOther = tt

  length-diagnostics : length (diagnostics R) < 50
  unfolding diagnostics
  length-diagnostics = omega arith

  -- Where every worker writes its dump into the pool, the report of the pool is the program's table
  -- without the process id, each row with its total over the workers: the sum of what they print of
  -- a cumulative row, and of another what the last of them prints. Every dump is read back whole,
  -- and the report fits its buffer. A number is printed as one word of at most 320 bytes.
  pub pool_report-totals :
      (rs : List Readings)
      → Prints R
      → (dumps R (diagnostics R) rs >>= λ texts. pool_report R (diagnostics R) (map file texts))
        ≡ ok (render (diagnostics_get_padding R (diagnostics R)) (totals R (diagnostics R) rs))
  pool_report-totals rs h =
      report_of_table R (diagnostics R) rs h diagnostics-IsTable diagnostics-HasOther
        length-diagnostics
