-- ===== src/Lib.antt =====
-- WACS: a service that keeps the probe requests that Wi-Fi devices send. Access points send packets
-- (`LogEntry`); the service stores each as a log entry and as the last probe of its MAC address in an
-- LMDB or MDBX database; the client and an HTTP service read, count, page and remove what is stored,
-- and the database also keeps notifications, a text for an address.
--
-- The files, and the code they model:
-- - Prelude, Text: shared names and lemmas, and numbers as a C++ stream prints them.
-- - Layout, ErrorCodes: the records of dblog.h and hostapd-log-entry.h as bytes of a 64-bit
--   little-endian target, and the codes of errorcodes.h with the descriptions of errorcodes.cpp.
-- - LogEntries: hostapd-log-entry.cpp. The conversion `%02x` of sscanf is a parameter.
-- - Histogram: histogrammacspertime.cpp, without toString.
-- - Lmdb: the functions of the LMDB or MDBX library that dblog.cpp calls, as a record of operations on a
--   state (Lmdb/Defs), their documented laws on an abstract view, the committed items and the open
--   transaction with its cursor (Lmdb/Shelf, Lmdb/Contract), and a library in memory that keeps the laws
--   (Lmdb/Table).
-- - Db: dblog.cpp, as built without USE_LMDB. Db/Monad holds the actions, which pass the caller's `dbenv`
--   and the library's state on; Db/Env openDb, closeDb and processMapFull; Db/Put putLog and
--   putLogEntries; Db/Read readLog and readLastProbe; Db/Remove rmLog; Db/Notification the notification
--   routines. Db/Loop and Db/Remove/Loop take the `do ... while` loops to list recursion, Db/Transaction
--   follows what a transaction holds, Db/Stored and Db/Times say what stored log entries look like and how
--   their keys are ordered.
--   Db/Integrity is what every operation keeps, on each branch: a database in key order with whole log
--   entries; the runs of operations; and what readLog finds in a database that they reach.
-- - Http: the handlers of http-server.cpp that read the database, and the names of the files that it
--   serves (Http/Files).
-- - Client: the commands of wacsc.cpp on the database, the lines that loadLog reads (Client/LoadLog), and
--   sendTest (Client/SendTest).
-- - Mq: NanoMessage.cpp (Mq/Nano) and send-log-entry.cpp (Mq/Sender), over the nanomsg library as a
--   record of operations on a state.
-- - Writer: lmdbwriter.cpp, the loop that receives what Mq sends and stores it by Db; Writer/Loop is the
--   loop itself, which pgwriter.cpp has too.
-- - Monitor: snmp-params.cpp and snmpagent-wacs.cpp, what the writer reports and the objects that show it.
-- - Pg: pglog.cpp, over the libpq library as a record of operations; Pg/Statements are its texts, and
--   Pg/Writer is pgwriter.cpp.
-- - Daemon: daemonize.cpp on systems with fork.
-- - Tests: the theorems at concrete inputs.
--
-- The loops that walk a cursor run on fuel, and more fuel than stored items is enough: the theorems on
-- them state that the routine then ends. Bytes that the code does not initialise (the padding of a
-- `LogKey` and a `LogData`, the nine bytes behind the key of putNotification) and memory that it reads
-- past the end of a record (`past`) are arguments. Numbers are written with the wrap-around of their C
-- types where the code can reach it. An interrupt of the client's commands on the database is a flag that
-- does not change in a run. A writer's loop runs over a list of rounds, each with what the machine does
-- in it; a round in which a signal calls stop or reload is enough for it to end.
--
-- Not modelled: utilsnmp.cpp, which starts the net-snmp library; the main programs and the parsing of
-- their command lines, which the argtable library does; the Windows service of daemonize.cpp; the log
-- output; the response headers and threads of the HTTP service; utilstring.cpp without parseDate, and
-- if-ip-address.cpp, which call the C library; and third_party.
pub mod Prelude
pub mod Layout
pub mod Text
pub mod LogEntries
pub mod Histogram
pub mod Lmdb
pub mod ErrorCodes
pub mod Db
pub mod Http
pub mod Client
pub mod Monitor
pub mod Mq
pub mod Writer
pub mod Pg
pub mod Daemon
pub mod Tests
