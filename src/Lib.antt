-- ===== src/Lib.antt =====
-- Redox, an operating system with a microkernel-like design: kernel services are schemes that
-- serve resources, and a program reaches a resource by its URL. This library models parts of the
-- kernel and of the system crate, and states what makes them correct.
--
-- The parts, and the files that model them:
--
-- Memory.antt, kernel/arch/memory.rs with the loops of memset and memmove of
--   crates/system/externs.rs: the allocator of clusters of 4096 bytes. `Heap` is the table of
--   clusters, which the source reads with `cluster` and writes with `set_cluster`, beside the bytes
--   of memory; each function of the source that changes the table takes a heap and returns one. A
--   `Layout` holds what differs between i386 and x86_64. Memory/Search, Table, Bytes, Blocks, Alloc,
--   Lifecycle, Release, Contract, Realloc, Init and Accounts hold the proofs; Memory/Typed is the
--   wrapper Memory<T>.
-- Common.antt, kernel/common: ParsePath (parse_path.rs, the loop as a state machine over the
--   characters), ToNum (to_num.rs), Event (event.rs), Time
--   (time.rs, the durations), Slice (slice.rs, with a panic as `none`) and ParseIp
--   (parse_ip.rs, on Slice).
-- Fs.antt, kernel/fs: Url (url.rs, on Slice), which names resources, and VecResource
--   (vec_resource.rs), the resource over a vector of bytes that most schemes return; and Scheme
--   (scheme.rs with crates/system/scheme.rs), the schemes that a program serves: the kernel's side
--   with its queue of packets and its table of answers, the program's side with its dispatch of a
--   packet to an operation. Scheme/Answered is a call and its answer; Scheme/Client the resource that
--   the kernel hands out for a file of such a scheme (Client/Window is the memory lent to the server,
--   Client/Called the call of an operation).
-- Network.antt, kernel/network/common.rs: Bytes (n16, n32, MacAddr and Ipv4Addr, whose parsing uses
--   ToNum) and Checksum (the sum that IPv4, ICMP, TCP and UDP use); and Tcp,
--   kernel/network/schemes/tcp/main.rs: the segment format (Tcp/Format) and the resource, whose calls
--   take what the IP resource will give and return what was sent to it (Tcp/Handshake, Tcp/Transfer).
--   A call that has read all of it is still waiting; the result of a write to the IP resource is a
--   parameter. Ipv4 is kernel/network/ipv4.rs, the packet format (Ipv4/Format its round trip).
--   Link is what the layers call on a resource of a lower layer, as a record, which is a parameter of
--   theirs, with the queues of a network card (kernel/network/scheme.rs). The trait Resource does not
--   declare the read_to_end that the layers call, so that what it does on a card is a parameter.
--   Ethernet (kernel/network/ethernet.rs and schemes/ethernet.rs of that directory) stands on it, Arp
--   (schemes/arp.rs) and Ip (schemes/ip.rs) on Ethernet, Icmp (schemes/icmp.rs) and Udp
--   (schemes/udp/main.rs) on Ip.
--   Ethernet/Delivery and Ip/Delivery are what arrives at the other end, Ip/Connect the opening of an
--   IP resource with the search of the ARP table, Ip/Checked and Udp/Checked the checksums as written,
--   Udp/Open the opening and Udp/Stuck the read of UDP.
-- Schemes.antt, kernel/schemes: Pipe (schemes/pipe.rs over kernel/sync/wait_queue.rs): the queue that
--   the ends of a pipe share, with how many ends there are; a call that blocks returns `waits`.
-- Context.antt, kernel/arch/context.rs with kernel/syscall: Manager, the table of contexts, its
--   cleaning and context_switch (Manager/Kept, Woken, Clean, Order and Search hold the proofs; a
--   context refers to another by its pid); Files, the table of open files with the calls of kernel/syscall/file.rs that
--   change it, what a resource does being a parameter (Files/Fresh, Table, Effects, Refine); Memory, the
--   blocks of memory of a context and the calls of kernel/syscall/memory.rs on them, over the cluster
--   allocator (Memory/Place, Whole, Calls, Brk). Manager/Pid is about Context::next_pid. Process is
--   do_sys_exit of kernel/syscall/process.rs with the statuses of kernel/sync/wait_map.rs (Process/Exit).
-- Graphics.antt, kernel/graphics: Color (color.rs) and Display (display.rs), on functions from
--   positions to pixels.
-- Env.antt, kernel/env/console.rs: Console, the state and the control sequences (Console::code);
--   Console/Screen, the characters (Console::character); Console/Write, Console::write and
--   Console::event. It draws on Display. The queue of commands is the list of what was sent.
-- System.antt, crates/system: Error (error.rs), results as machine words; Packet (scheme.rs), the
--   packets between the kernel and a scheme's program, as bytes (Packet/Bytes).
-- Orbital.antt, crates/orbital: Rect (rect.rs), whose numbers are i32, Image (image.rs), with the
--   copy of a region row by row (Image/Rows, Image/Blit), and Window (window.rs), with the drawing of
--   the window into the part of the screen that it shares with a clip (Window/Part, Window/Draw).
-- Prelude.antt: shared names, Boolean tests, lists, words, signed integers and results.
--
-- How it is modelled. Numbers are naturals; `usize` and `isize` arithmetic wraps where it can reach
-- the modulus, as the kernel is built with opt-level 2 and so without overflow checks. Loops are
-- structural recursions on the rounds left or on the list that they walk.
-- Loops with fuel: the folding of carries of the checksum, with the sum itself, since each round makes
-- it smaller; the two loops of Duration::new, with three rounds, since the nanoseconds have 32 bits;
-- next_fd and next_pid, with the length of the table, since each round but the last finds another
-- entry; the reads of the network, which wait once the fuel is spent: each packet passed over takes
-- a round, and the packet that is wanted one more; clean and
-- the search of context_switch, with the number of contexts, since each round removes a context or
-- moves on; the scrolling of the console, with one round more than the cursor's line, since each
-- round takes 16 from it; and the attributes of a control sequence, with their number.
-- Text is a list of character codes. What runs while a call waits for its answer is a parameter
-- (`serves`); Url::open and random numbers are parameters too.
--
-- Well-formed (Memory/Blocks) means of a cluster table: every cluster that is neither free nor
-- absent belongs to a run that holds the address of its first cluster. `Fits` (Memory/Search) means
-- of a layout that no cluster's address wraps; x86_64 fits, i386 does not.
--
-- Not modelled: registers and the state of the floating point unit, which context_switch and
-- context_clone move with assembly; the creation of contexts; calls
-- that only pass a path to a scheme; the reading of clocks; the elements that a Memory<T> holds;
-- Scheme::open of TCP (ports and numbers at random); printing through format!; Url::open and
-- Url::create (calls of the environment); the dispatch of system calls; the server of Orbital with
-- its fonts and pictures; file systems; the ELF loader; paging, drivers and everything that only
-- moves bytes to devices.
pub mod Common
pub mod Context
pub mod Env
pub mod Fs
pub mod Graphics
pub mod Memory
pub mod Network
pub mod Orbital
pub mod Prelude
pub mod Schemes
pub mod System
