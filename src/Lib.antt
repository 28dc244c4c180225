-- ===== src/Lib.antt =====
-- The core of nagiostrapd, a daemon that takes SNMP traps over a socket, decides which plugins
-- they concern, runs these, and hands the results to Nagios.
--
-- A request is a line, which `src/socket.c` reads and `src/worker.c` answers. `src/trap.c` parses
-- it, a state machine over tokens, into a protocol data unit, which may hold a trap: a host, an
-- address, and objects with an OID and a value. The values are quoted with the functions of
-- `src/util.c`, since they go to a shell. `src/db.c` loads commands, hosts, services and trap
-- handlers, and `src/command.c` expands the macros of their command lines. `src/execlist.c` lists
-- what to run for a trap, `src/stack.c` keeps the runs that are due, and `src/exec.c` makes them:
-- it parses each line that a plugin prints, asks for further runs where the result is not
-- complete, and hands the others to `src/channel.c`, which writes them to Nagios.
--
-- Around this core, `src/main.c` reads the command line and loads the options with `src/config.c`.
-- A daemon's process forks its workers in `src/daemon.c` and becomes the monitor of
-- `src/monitor.c`, which sends signals to them; in standalone mode `src/standalone.c` reads the
-- requests from the standard input instead. At a signal each worker dumps its counters, and
-- `src/diagnostics2.c` sums the dumps up. The SQL statements of `src/db.c` come from a file that
-- `src/query.c` reads.
--
--   Base              texts, faults, `strtok_r`, `atoi`, numbers in decimal
--   Util              src/util.c: the functions on strings
--   Util.Permissions  src/util.c: `set_permissions`
--   Stack             src/stack.c: the whole file
--   Command           src/command.c: the whole file
--   Trap              src/trap.c: traps, their text, and what is answered
--   Trap.Parse        src/trap.c: `parse`
--   Trap.Serialize    src/trap.c: `trap_serialize`
--   Db, Db.Load       src/db.c: the lookups, and the loading of the tables
--   Db.Connect        src/db.c: the connection, and the statements that are sent
--   Execlist          src/execlist.c: the list and how it is built
--   Exec              src/exec.c: `parse_result_str`
--   Exec.Run          src/exec.c: `stack_run`, `do_output` and the loop of `exec_trap`
--   Exec.Start        src/exec.c: the rest of `exec_trap`
--   Socket            src/socket.c: `socket_read_pdu`
--   Socket.Create     src/socket.c: the making of the sockets
--   Worker            src/worker.c: `child_thread`, which composes all of these
--   Worker.Loop       src/worker.c: the loop that takes connections
--   Channel           src/channel.c: `channel_write` and the counters
--   Traplog           src/traplog.c: the lines of the trap log
--   Log               src/log.c: the entries of the error log at each level
--   Config            src/config.c: the table of options
--   Config.Load       src/config.c: the INI file, and Nagios's PHP file
--   Query, Regex      src/query.c, src/regex.c: the file of SQL statements
--   Settings          the constructors that read options, in src/channel.c, src/trap.c,
--                     src/traplog.c, src/exec.c, src/worker.c and src/socket.c
--   Diagnostics       src/diagnostics.c: the counters and the dump of a worker
--   Diagnostics.Pool  src/diagnostics2.c: the reading of the dumps
--   Diagnostics.Global  src/diagnostics2.c: the totals
--   Diagnostics.Request  both files: the dump's file, and the request of a report
--   Daemon, Monitor   src/daemon.c, src/monitor.c: the forks, and the signals to the workers
--   Pidfile           src/pidfile.c: the whole file
--   Standalone        src/standalone.c: the whole file
--   Interface         src/interface.c: the version and the welcome
--   Main              src/main.c: the command line and the choice of the mode
--   Main.Boot         src/main.c: the constructors in their order
--   Tests             runs at concrete inputs, and the theorems applied there
--
-- A C string is a list of bytes, none of which is NUL, and a pointer that may be NULL is an
-- option. Behaviour that C leaves undefined, and the ways to end the program, are the faults of
-- Base.Faults: to read through NULL, to write past an array or an allocation, to read or free a
-- pointer that nothing has set or that is freed, a failed assertion, `log_critical`, and an exit
-- with a failure. Where a theorem says that a result is `ok`, none of these happens.
--
-- Shared pointers, which only the tables have, are indices into a store. The loops are structural
-- over their text or list, with two exceptions. The walks along the chains (Execlist, Exec.Run)
-- have one unit of fuel more than there are hosts or services, since each link goes to an older
-- entry. The loop of `exec_trap` has two units more than the limit of the runs: the code stops at
-- the run past it.
--
-- Arguments of the model: GLib's hash tables (Db.Tables, operations with their laws), the PCRE
-- library (Regex), the INI library (Config.Load, with the law of its default), numbers of type
-- double with their printing and reading (Diagnostics), MySQL's client library (Db.Connect), what
-- `recv`, `fork`, `select`, `accept` and `getopt_long` return, the texts of the files, the time of
-- day, the tokenizer that the configuration names, the text of the diagnostics in an answer, what
-- each run of a plugin prints, and whether the pipe takes a line. Allocation never fails, as
-- `xmalloc` has it. The program is the one built with NDEBUG, but its assertions are kept: one
-- that fails is a fault. `fscanf`, `fgets` and `strtok_r` are functions of this library
-- (Base.Stdio, Base.Strtok and the modules that use them).
--
-- Not modelled: the sockets, threads and processes themselves, locks and flushes, the text of the
-- help, the allocation functions and the calls of the system in `src/util.c`, and the copies of an
-- INI parser, a dictionary and a thread pool, which are other projects' code.
pub mod Base
pub mod Channel
pub mod Command
pub mod Config
pub mod Daemon
pub mod Db
pub mod Diagnostics
pub mod Exec
pub mod Execlist
pub mod Interface
pub mod Log
pub mod Main
pub mod Monitor
pub mod Pidfile
pub mod Query
pub mod Regex
pub mod Settings
pub mod Socket
pub mod Stack
pub mod Standalone
pub mod Tests
pub mod Trap
pub mod Traplog
pub mod Util
pub mod Worker
