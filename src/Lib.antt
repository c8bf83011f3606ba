-- ===== src/Lib.antt =====
-- testbus: a master process holds containers (test cases, commands, hosts, processes) in a tree, each
-- with an environment, files and other children. Agents register hosts with the master; tests claim
-- hosts for roles, make commands and run them on hosts as processes, which inherit the environments
-- and the files of their containers. Agents and the master log monitored events.
--
-- Parts and files:
--   VarArray     dborb/util.c, ni_var_array_*: named variables in memory that grows by chunks.
--   Environ      server/environ.c: an environment is a variable array with a flag that says whether
--                it is sorted; ni_testbus_env_merge is an n-way merge of sorted environments.
--   FileStore    testbus/file.c: the heap of files, which arrays share by counted references.
--   FileArray    testbus/file.c, ni_testbus_file_array_*: arrays of references.
--   EventLog     dborb/monitor.c, ni_eventlog_*, and the methods of server/dbus-eventlog.c.
--   Host         server/host.c, and the methods of server/dbus-host.c that change a host.
--   Hostlist     server/dbus-host.c and server/main.c: the list of hosts, and the requests of agents.
--   Container    server/container.c: what a container inherits from its ancestors and what it finds
--                there, with ni_testbus_process_apply_context of server/command.c.
--   StringArray  dborb/util.c, ni_string_array_*: arrays of strings with a NULL pointer at the end.
--   Uuid         dborb/util.c, ni_uuid_*: how uuids are printed and parsed.
--   Timer        dborb/timer.c: the list of timers, the main loop's wait, the timeouts of retries.
--   Buffer       include/dborb/buffer.h and dborb/buffer.c: byte buffers, and chains of them.
--   StringBuf    dborb/util.c, ni_stringbuf_*: strings that grow, with their memory.
--   Quote        dborb/util.c, ni_quote and ni_unquote: words quoted as in a shell.
--   Dict         dborb/dbus-common.c, ni_dbus_dict_*: dictionaries of typed values; FileArray.Serial and
--                EventLog.Serial (testbus/file.c, testbus/event.c) send files and events in them.
--   Bitfield     dborb/util.c, ni_bitfield_*: sets of small numbers as bits.
--   IntMap       dborb/util.c, ni_parse_uint* and ni_format_uint*: numbers and their names.
--   BusNames     server/main.c: the owners of well-known bus names, by which agents are known.
--   Proxy        proxy/main.c: connections that share one stream, with its packets (Header, Demux), the
--                endpoints with their queues and credits (Endpoint), what opens and closes channels
--                (Channel), the handlers (Receive) and what is polled (Poll).
--   Tests        every operation at small inputs.
-- Each part has its state and its operations in the file of its name, the former as records with the
-- fields of the C structs, the latter as functions named after the C functions without their prefix;
-- its child modules hold the proofs. A container's environment and files are those of Environ and
-- FileArray, its hosts those of Host, a host's event log that of EventLog.
--
-- Conventions. A C string is the list of its bytes, NULL is `none`. A failed assertion, ni_fatal and
-- an access to freed memory are `none` too, so a theorem that says a call succeeds excludes them.
-- The heap of FileStore is passed explicitly. 32-bit counters that are added to (sequence numbers,
-- host generations, the ids of timers and files) wrap; counts of elements in memory and reference counts do not reach 2^32 and
-- are plain numbers.
--
-- Four loops are on fuel. The merge of environments has two rounds more than there are variables in the
-- inputs, since each round but the first and the last uses up a variable. ni_timer_next_timeout has a
-- round more than there are timers due, if the callbacks arm timers for later only. The loop of
-- proxy_recv_demux has as many rounds as the call may read bytes, since each round but the last reads one. The digits of a number
-- are printed in ten rounds, as many as a number of 32 bits can have.
--
-- Not modelled: D-Bus itself (dborb/dbus-*.c, but for dictionaries), XML and its schemas (dborb/xml*.c, dborb/xpath.c),
-- sockets and processes (system calls), logging, the agent and the client, which drive
-- the parts above, and the proxy's accepting and purging of connections. Of the proxy, read(), connect()
-- and fcntl() are parameters, read() with the behaviour of a stream where a theorem relies on it. Allocation is taken to succeed, as ni_malloc aborts otherwise.
pub mod Base
pub mod VarArray
pub mod Environ
pub mod FileStore
pub mod FileArray
pub mod EventLog
pub mod Host
pub mod Hostlist
pub mod Container
pub mod StringArray
pub mod Uuid
pub mod Timer
pub mod Buffer
pub mod StringBuf
pub mod Quote
pub mod Dict
pub mod Bitfield
pub mod IntMap
pub mod BusNames
pub mod Proxy
pub mod Tests
