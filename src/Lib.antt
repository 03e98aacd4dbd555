-- ===== src/Lib.antt =====
-- Models and theorems for biology: two kernel modules that trace the requests of a block device
-- and replay them, the format that joins them, the library and the tool that drive them, and the
-- printing of traces.
--
-- The proxy module traces the requests of a device. Each processor has a dump, which is a buffer
-- and a file; a request that has ended is written to the dump of its processor as a record. The
-- generator module opens the dumps of a directory, one worker for each, reads record after record
-- and submits a like request at the recorded time. Both are told what to do through sysfs files,
-- which biologylib writes for the command line tool. to-json prints the dumps of a directory.
--
-- The files, each with the code that it models:
--   Base      numbers, lists, blocks of bytes, error numbers and decimal texts, for all the others.
--   Kernel    what the modules rely on in the kernel: allocator, files, pages, the bio layer. None
--             of it is code of the repository; each is a record of functions with its laws.
--   Serial    shared/biology-proxy-bio-serial.c and .h: Info has the data and the fields, Schema the
--             header of a dump, Encode and Decode the records, in the builds C_PRXY, C_GEN and
--             C_TO_JSON. Layout has the reference layout; RoundTrip, Payload and Header the proofs.
--   Dump      kernel/biology-proxy/src/biology-proxy-dump.c and .h: Buffer has blgy_prxy_dump and
--             what it calls, Init the opening and closing; Log, Record, Session and Total the proofs.
--   Parser    kernel/biology-gen/src/biology-gen-parser.c and .h: State has the functions; Window,
--             Refill, Next and Init the proofs.
--   Gen       kernel/biology-gen/src: Request has biology-gen-bio.c, Worker and Group have
--             biology-gen-worker.c; Replay has the run of a worker, EndToEnd that from a file, Held
--             and Lifetime the references to a group.
--   Proxy     kernel/biology-proxy/src: Device has the enabling of biology-proxy-dev.c, Requests
--             the path of a request of biology-proxy-bio.c and the disabling, Create the creation
--             and destruction of a device. Steps has the runs of a device, Session those of an
--             enabled one; Balance, Sound, Logs, Whole, Tracing, Session, Drain and Race the
--             proofs, and Replay those that go on to the generator and to to-json.
--   Control   the sysfs files: Words cuts the commands, Handlers has the handlers of
--             biology-proxy-ctl.c, biology-proxy-dev-ctl.c, biology-gen-ctl.c and
--             biology-gen-worker-ctl.c, Sysfs their tables and the dispatch. Library has the
--             commands of uspace/biologylib/src/proxy.c and gen.c, Files the files that they open,
--             Show the counts that devices show and the library reads; RoundTrip, Start and Counts
--             the proofs.
--   Cli       uspace/biologycli/src: Command has command.h and the parser of command.c, Commands the
--             table of commands, Handle the handlers of proxy.c and gen.c; Select, Typed, Given, Call,
--             Enable and Disable the proofs.
--   Json      uspace/util/to-json/src: Parse has info.c and json.c, Main has main.c; Prints, Ends and
--             Main the proofs.
--   Tests     the theorems at concrete inputs.
--
-- How the code is read. A block of memory is a list of bytes and a pointer into it is a position.
-- `none` of Option is a fault: an access outside a block, a use of a null or an error pointer, or
-- of a freed group. An int or ssize_t that is a count or a negative error is a Ret. Integers are
-- native numbers with the wrap-around of their type written out; size_t has 64 bits and bytes are
-- little-endian, as on x86-64. A member of a request is its bit pattern. A memcpy inside one buffer
-- moves the whole range. A call of blgy_prxy_dump holds the lock of its dump and is one step. The
-- proxy reads the segments of a request from bi_vcnt and bi_io_vec and takes bi_size for their sum,
-- which IsRequest states; a request that the block layer has split or cloned, for which that is not
-- so, is outside of the theorems. A path of a dump that is longer than its block is a fault, which a
-- directory of up to 4080 letters excludes. The functions of the proxy and the generator that loop
-- recur on the list they walk; the run of a worker recurs on the readings of its clock, of which it
-- needs one for each record and one more.
--
-- The states of a proxy have the requests in flight, in the queue, ended, passed on and dumped as
-- lists; the steps come in any order, each of them whole. A flush runs the queue in the order in
-- which the works were queued; another order is one of single works that run before it. A file that
-- to-json maps is filled with zeros to the end of its last page, and its loop is given as many turns
-- as the mapping has bytes. A wait for a worker takes the answers to whether it is alive, in turn.
--
-- What is not modelled: the kobject calls, messages to the log and to the terminal, frees of
-- memory other than that of a group and of what a device holds, the steps inside of enabling and
-- disabling a device, the settings of a disk, the load and unload of the modules, the return value
-- of to-json, and scripts. They are calls of the kernel or of the C library with no state of the
-- program behind them, or have no effect that the modelled code reads.
pub mod Base
pub mod Kernel
pub mod Serial
pub mod Dump
pub mod Parser
pub mod Gen
pub mod Proxy
pub mod Control
pub mod Cli
pub mod Json
pub mod Tests
