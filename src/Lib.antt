-- ===== src/Lib.antt =====
-- emulite, an emulator of Android processes in Python: a model of its memory management and of its
-- open files, and what is proved of it.
--
-- The emulator runs native code on a CPU engine. `MemoryManager` owns the guest's mappings, and
-- asks the engine for each; `HeapAllocator` takes one arena from it for the guest's malloc;
-- `AndroidFileSystem` owns the guest's descriptors, which refer to file descriptions (`FileIO` and
-- its subclasses). Syscall handlers and libc hooks call these three.
--
-- The files, and what they model (paths from the root of the repository):
--   Base            shared names; Base.Action is a method that may raise (state out beside the
--                   result), Base.Dict a dict in insertion order, Base.Bits and Base.Powers masks,
--                   Base.Bytes the little-endian bytes of a number.
--   Heap            src/emulite/memory/heap_allocator.py. Methods keep their names; `free` is
--                   `release`, and the parts of `_insert_free` are `join_next`, `join_prev`,
--                   `settle` and the loop `shrink`. Heap.Covers counts the blocks that hold a
--                   byte, Heap.Invariant is the well-formed state, Heap.Hole a state with one block
--                   taken out, Heap.Place and Heap.Aligned the two ways to allocate, Heap.Release
--                   giving back, Heap.Laws, Heap.Full and Heap.Session what callers see;
--                   Heap.Store is `calloc` and `realloc` with the memory of the blocks.
--   Memory          src/emulite/memory/memory_manager.py, memory_region.py and memory_layout.py.
--                   Memory.Regions is the table of regions (`_carve`, `_record`), Memory.Backend
--                   the engine, Memory.Manager the calls. Memory.Regions.Views is what a table says
--                   of a byte; Memory.Manager.Sound, .Calls and .Session the invariant, .Effects
--                   and .Parts what calls do, .Holes the search of `mmap`.
--   Files           Files.Pipe: src/emulite/android/io/pipe_io.py; Files.EventFd:
--                   src/emulite/android/io/event_fd_io.py; Files.Epoll:
--                   src/emulite/android/io/epoll_io.py; Files.Socket:
--                   src/emulite/android/io/socket_io.py; Files.Regular:
--                   src/emulite/android/io/buffer_backed_io.py and regular_file_io.py; Files.Table:
--                   the descriptors of src/emulite/android/android_file_system.py (its connect is in
--                   Files.Socket), and Files.Fcntl its fcntl, with FileIO.fcntl of src/emulite/filesystem/file_io.py.
--   Structs         src/emulite/android/structs and src/emulite/filesystem/structs/file_stat.py.
--                   Structs.Slot is Python's `struct`; Structs.Status, .Usage, .Clock and .Link
--                   the structures, each with the slots that its `pack` writes; Structs.Guest
--                   their sum, with SIZE and `pack`; Structs.Declared, .Members64 and .Members32
--                   the declarations in C, with the value of each member; Structs.Reread the `from_bytes`; Structs.Time the
--                   conversions of time; Structs.FileStat the metadata of files.
--   Dalvik          src/emulite/android/dalvik_vm.py. An object is its identity (`id`), and a class
--                   its name too; the identities of the objects that the VM makes are counted up.
--                   Dalvik.Linked, .Valid, .Calls and .Session are the references, .Frames the
--                   local frames; Dalvik.Members the identifiers of methods and fields, with
--                   .Indexed, .Ids and .Stable on them.
--   Clock           src/emulite/android/virtual_clock.py.
--   Mutf8           src/emulite/android/jni/mutf8.py: Mutf8.RoundTrip and Mutf8.Fuel.
--   Guest           The typed accessors of src/emulite/memory/memory_manager.py, over any memory that
--                   keeps what is written (`GuestMemory`); Guest.Flat is one, and
--                   Guest.Text reads C strings, where the pages that are mapped are an argument; the
--                   properties read theirs from memory that is mapped throughout.
--   Signals         Signals in src/emulite/android/arm64/android_syscall_handler64.py, with
--                   sigaction64.py and sigcontext64.py of src/emulite/android/structs. A register
--                   holds what was written to it; a write to a negative address raises.
--   Printf          src/emulite/android/cformat. Printf.Args64 and .Args32 walk the arguments of a
--                   call, .Spec is the pattern of a conversion, .Numbers pads and writes pointers,
--                   and .Format is the loop; `printf` and `vprintf` meet in .Format.Same. A width or
--                   a precision that Python refuses is not considered.
--   Properties      src/emulite/android/bionic_property_area.py: Properties.Held says when a record
--                   stands in guest memory, .Record and .Written write one, and .Session is a
--                   run of calls.
--   SvcTrap         src/emulite/hooks/svc_trap.py, with the svc instructions of
--                   src/emulite/cpu/arch; SvcTrap.Arch has both as instances of the interface
--                   `SvcArch` that the traps use.
--   Calls           Calls on files in android_syscall_handler64.py, with iovec64.py, over any file
--                   system (`FileSystem`) and any guest memory. Calls.Scatter is `readv`.
--
-- Numbers are natural numbers without a bound, as Python's are; an argument that may be negative is
-- an integer of Base.Int. The engine is a parameter (`Backend`): its calls may raise, and may change
-- its state when they do. The pointer size is a parameter too. An address that the backend or the
-- caller chooses is an argument.
--
-- These loops run on fuel: `shrink` on the number of free blocks, since each round deletes one, and
-- the search for a free descriptor on the number of descriptors, since each round passes one,
-- and the decoder of modified UTF-8 on the number of bytes, since each round passes a byte, the
-- reader of C strings on the 17 pages that 0x10000 bytes can touch, and the matches in a format on
-- its characters. So much is enough for each.
--
-- Not modelled: the loader, whose tables a library for ELF parses, and the hooks, which call back into
-- the host through the engine; devices, the paths of the host's files and the overlay over them; the
-- text of an integer or a float that is printed, which is Python's; class loaders and Java classes,
-- which answer configured values; and, for their size, the stack and the thread-local block, JNI, and
-- the syscall handlers but for the calls above. Logging has no effect on the state.
pub mod Base
pub mod Heap
pub mod Memory
pub mod Files
pub mod Structs
pub mod Dalvik
pub mod Clock
pub mod Guest
pub mod Signals
pub mod Calls
pub mod Mutf8
pub mod Printf
pub mod SvcTrap
pub mod Properties
