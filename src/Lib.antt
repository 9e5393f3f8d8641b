-- ===== src/Lib.antt =====
-- The semihosting protocol library: a guest's client writes each call as a RIFF container into a
-- shared buffer, and the host library parses it, calls the embedding's backend and writes the
-- response into chunks that the client reserved.
--
-- Parts, and the files that model them (paths from the repository's root):
--   Word, Native      the byte macros of include/shared/zbc_protocol.h, and the integers in the
--                     guest's byte order of src/shared/zbc_riff.c
--   Riff.Writer       zbc_riff_begin_chunk to zbc_riff_validate_container
--   Riff.Chunk        zbc_chunk_validate to zbc_chunk_find
--   Riff.Container    zbc_riff_validate, zbc_riff_end
--   Riff.Parse        zbc_riff_parse_request, which the host uses; one function per branch
--   Opcode            src/shared/zbc_opcode_table.c, row by row
--   Client            src/c/zbc_client.c: calculate_retn_capacity, build_request (Client.Request),
--                     zbc_parse_response (Client.Response)
--   Host              src/c/zbc_host.c: report_proto_error and write_retn_payload (Host),
--                     parse_request (Host.Request), the typed callers (Host.Callers), the dispatch
--                     table and zbc_host_process (Host.Dispatch)
--   Ansi.Normalize    ansi_path_normalize of src/c/zbc_ansi_secure.c, in its buffer, and beside it a
--                     version from one list to another (Ansi.Normalize.Reference)
--   Ansi.Validate     ansi_validate_path of the same file
--   Ansi.Fds          the descriptor table of src/c/zbc_ansi_common.c
--   Ansi.State        the secure backend's state, include/c/zbc_backend_ansi.h, and the calls of the
--                     C library that it makes
--   Ansi.Secure       its functions on files (Ansi.Secure) and paths (Ansi.Secure.Paths), its table
--                     of functions and life cycle (Ansi.Secure.Table)
--   Virtio            the virtqueue of src/c/zbc_virtio.c from its set-up on: post, poll and exchange
--   P9                the virtio-9p transport of src/c/zbc_transport_9p.c: its numbers (P9.Wire), state
--                     (P9.Session), message writer and reader (P9.Message), round trip over the
--                     queue of Virtio (P9.Rpc), walk (P9.Walk), operations (P9.Files, P9.Paths,
--                     P9.Dirs), mount and entry point (P9.Transport)
--   Composite         src/c/zbc_transport_composite.c and src/c/zbc_transport_null.c, with P9 as the
--                     composite transport's file child
--   Base, Memory      shared names; buffers and accesses to them
-- A module below a part holds proofs about it: Safety for accesses and termination, Laws for what
-- single functions compute, Agreement and Capacity for two sides of the protocol. Tests holds runs.
--
-- How code becomes definitions. The target is little-endian with 32-bit `unsigned int` and 64-bit
-- `size_t` and pointers, and requires aligned access (ZBC_REQUIRE_ALIGNED_ACCESS); the host is built
-- with ZBC_HOST. A pointer into a buffer is its offset, NULL is `none`, and an access outside a
-- buffer or a call through NULL is the result `none` of the function that makes it. `uintptr_t` and
-- `intptr_t` are 64-bit patterns, and sums of `size_t` and of `uint32_t` wrap at 2 ^ 64 and 2 ^ 32;
-- a sum of a pointer into a buffer and a 32-bit size does not. `Yields P m` says that `m` returns,
-- makes no access outside, and that its result satisfies `P`. State that a function changes is
-- passed in and returned. Guest memory is a function from addresses to bytes for reads, and the list
-- of writes in order; the calls of the device's error callback are a list too.
--
-- Loops over chunks run on fuel: the end's offset plus one, or the chunk's size plus one. Every chunk
-- advances by at least its header of eight bytes, so the fuel is enough: the theorems on these
-- loops state that they return. strlen's fuel is the length of the client's memory.
--
-- The backend (include/c/zbc_backend.h) is a parameter: which functions its table has, and what a
-- call answers. What its header documents is the hypothesis IsHonest: an output whose size
-- is told no larger than its buffer stays in it, counts are at most what was asked for, and a string
-- that is handed over has its terminator. What the backend does with the pointers that it is given
-- is not modelled. The client's memory is a list of bytes from address 0 on, apart from the request
-- buffer.
--
-- The secure backend's FILE and DIR pointers are the numbers that the system parameter answers with,
-- a path is the bytes of its length, NULs among them included, and each call of the system is
-- recorded with the buffers that it reads. A custom policy is a parameter of the state.
-- ansi_path_normalize's loops run on the path's length plus one: each round reads a byte.
--
-- The 9P transport's functions are computations of P9.Session: a statement `return rc;` ends them
-- early, and the session is their state, with the caller's response, the buffer that the arguments
-- point to and the T-messages sent. A path or a buffer to write is the bytes that its length covers.
-- The device and its server are a parameter: what the used ring holds before each poll, and what is
-- written to the reply's buffer, by the round trip's number, the queue, the T-message and the room
-- for the reply. The condition Serves states the virtio protocol only: each chain is completed after
-- some polls, with a length of no more than the room; the reply's bytes are arbitrary. A reader of a
-- reply reads the buffer as it is at that time. The rounds of a read or write run on fuel; a count
-- below 2 ^ 32 with more fuel than that is enough, as p9_transport_call-Yields states.
--
-- Not modelled: logging; the client's device registers and transport; the dummy and the insecure
-- backend, and the console, clock and exit functions of the secure one; the set-up of virtio
-- devices and of the 9P session; the console transport, the client API's wrappers; the sandbox's
-- system calls; the C++ twin of the host; tests, documentation and web pages.
pub mod Base
pub mod Memory
pub mod Word
pub mod Native
pub mod Riff
pub mod Opcode
pub mod Ansi
pub mod Client
pub mod Host
pub mod Virtio
pub mod P9
pub mod Composite
pub mod Tests
