-- ===== src/Lib.antt =====
-- commlib, a C library of helpers for Linux programs in src/myfcp: strings and their codes, MD5, a
-- linked list, a log, and interfaces to files, directories, processes, signals, sockets, the network,
-- locks and login records.
-- The functions of the library stand side by side. genstring.c computes digests by genmd5.c, the login
-- records of fcp_os.c are kept in the list of list.h, and general_find_proc_pid of general.c runs the
-- directory iterator of the same file. fcp_proc.c and fcp_net.c cut the lines of /proc into fields by
-- general_get_field of general.c; the connections of fcp_net.c look for the process of a socket by
-- general_find_proc_pid, and fcp_os.c tells the release by general_os_version. The iterators keep their
-- state in a `struct fcp_one_item` of the caller, which is handed from call to call.
--
-- Base holds the names that all parts share: Boolean tests, lists measured by native numbers, and the
-- bit operations of C as arithmetic. The parts are:
--
-- Alloc: src/myfcp/genmm.c. The allocator is the record `Allocator`, with the documented behaviour of
--   realloc as its laws; a block is its bytes up to its usable size. For a size of 0 realloc may free the
--   block, and a pointer that is kept is then `dangling`.
-- Text/Trim: gen_left_strim, gen_right_strim and gen_strim of src/myfcp/genstring.c. A string is the
--   list of its bytes before the terminator; white space is that of the C locale.
-- Text/PathName: gen_path_last_component of src/myfcp/genstring.c. A pointer into the string is the
--   text from there on.
-- Text/Fields: gen_foreach_field of src/myfcp/genstring.c, one call as `foreach_field`, with the answers
--   of malloc as arguments, and the macro gen_foreach_line_field of genstring.h as
--   `foreach_line_field`. The fuel of the loop is a number of rounds; one more than the line has bytes
--   is enough.
-- Text/Base64: gen_base64_encode and gen_base64_decode of src/myfcp/genstring.c as `encode` and
--   `decode`, where malloc succeeds. The byte behind the terminator, which the encoder may read, is the
--   argument `beyond`. The decoder indexes a table of 123 entries; of what it stores, the bytes past
--   the allocation's size are the overflow.
-- Md5: src/myfcp/genmd5.c. `Md5Ctx` is struct md5_ctx; 32-bit words are numbers reduced by 2 ^ 32. Md5.Spec
--   is the digest of a whole message, independent of the pieces in which it is given. A piece that is
--   handed to md5_update at once has fewer than 2 ^ 32 - 64 bytes, since the source computes its
--   indices in unsigned int; the message itself has no bound.
-- Checksum: gen_string_md5 and gen_file_md5 of src/myfcp/genstring.c. A file is what open and read answer.
-- Ring: src/myfcp/list.h over an explicit memory, a function from addresses to nodes. Each operation is
--   the writes of the source in their order. A ring is related to the list of its addresses. The loops
--   run on fuel, for which a number above that of the nodes is enough. Ring/Sequence has the calls of a
--   program one after the other, and what they mean for the list.
-- Signal: src/myfcp/fcp_signal.c. The kernel is the record `Kernel`, with the documented behaviour of
--   sigaction and sigprocmask as its laws; `World` has g_oldsig and g_promasksig beside its state.
--   Signal/Restore and Signal/Calls have the worlds that calls lead to.
-- File: the tests of file types and file_execute_type of src/myfcp/fcp_file.c, and taskutil_elf_type of
--   src/myfcp/fcp_proc.c. A file is what stat, open and read answer for its path.
-- Directory: the directory iterator and general_find_proc_pid of src/myfcp/general.c. A directory is
--   what opendir and readdir deliver. The loops run on fuel; one round more than the directory has
--   entries is enough. Directory/Procs/Numbered says which names are processes. Directory/Owned is
--   the same with the blocks and the stream that the iterator owns, where a block that is freed
--   without being live is a fault. `atoi` is computed without overflow, since only 0 is told from
--   the rest.
-- Login: the login records of src/myfcp/fcp_os.c. The files utmp and wtmp are the lists of their
--   records. In Login the ring that holds the nodes of os_info_logout_tty is the list of its nodes, and
--   the loop has as many rounds of fuel as there are nodes. Login/Nodes is the same function over the
--   memory of the ring, by the operations of Ring, with the answers of malloc as a parameter and the
--   addresses that were given to free; a fuel above the number of records is enough there.
-- Socket: src/myfcp/fcp_socket.c. The kernel is the record `Network`, with the documented behaviour of
--   fcntl, socket, connect and close as its laws; an address is an abstract value with its length.
-- Libc: the functions of the C library that the parsers call on texts: strtol, strtoul, atoi, strchr,
--   strrchr, strstr, strcmp, fgets, inet_ntop and the format %u. Numbers that do not fit a signed type
--   are not cut off there; Proc/Stat, Net/Arp and Net/Holder keep the 32 bits of an int.
-- Words: general_get_field of src/myfcp/general.c over its buffer, as the offsets of the fields and the
--   terminators that are written. Words/Version is general_os_version over the bytes of its files.
-- Proc: the rest of src/myfcp/fcp_proc.c. Files are functions from paths to bytes. Proc/CpuTime is
--   process_cpu_mtime, which runs the directory iterator with the same fuel as there. Proc/Daemon is
--   taskutil_task_to_daemon on a task, with what fork, setsid, open, getrlimit and chdir answer.
-- Net: src/myfcp/fcp_net.c. Net/Local is the local addresses over the list of getifaddrs; Net/Arp
--   the loops over the ARP table, with the stream that is handed from call to call, and fuel for as
--   many lines as the file has bytes, and Net/Arp/Hex the numbers of its lines; Net/Holder the
--   search for the process of a socket, over the directories and links of /proc, and Net/Holder/Link
--   which links are a socket's; Net/Connections the lines of /proc/net/tcp and udp, whose loop has
--   the same fuel, with Net/Connections/Cut and Net/Connections/Members what the cuts leave of the
--   fields and what the words give the record; Net/Ping the switch for ping.
-- Identity: the calls of src/myfcp/fcp_os.c that read one line of a file, and os_current_user.
-- Lock: program_is_running of src/myfcp/fcp_base.c, over files with locks, with the documented behaviour
--   of flock as the laws `LockLaws`.
-- Interface: src/myfcp/fcp_string.c and fcp_mm.c, fcp_set_log_cb of fcp_base.c, com_find_proc_pid of
--   fcp_proc.c and the first two functions of fcp_file.c, each of which passes its arguments on.
-- Log: src/myfcp/genlog.c, with what vsnprintf makes of a format as a parameter. A call of an output
--   function is an `Effect`.
--
-- Not modelled are the messages that are printed on an error; the preprocessor branch LOG_STDERR
-- of genlog.c; and the example programs. Behaviour that depends on memory beyond an object, on
-- overflow of signed numbers or on concurrency is outside the model, except where a definition
-- names it.
pub mod Alloc
pub mod Base
pub mod Checksum
pub mod Directory
pub mod File
pub mod Identity
pub mod Interface
pub mod Libc
pub mod Lock
pub mod Log
pub mod Login
pub mod Md5
pub mod Net
pub mod Proc
pub mod Ring
pub mod Signal
pub mod Socket
pub mod Text
pub mod Words
