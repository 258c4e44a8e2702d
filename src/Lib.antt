-- ===== src/Lib.antt =====
-- CAPIO, the server of an in-memory file system that intercepts the POSIX calls of the steps of a
-- workflow: what a step writes stays in the memory of the server, and other steps read it from there
-- while it is still being written.
--
-- A client writes its requests and its data to queues in shared memory (Queue). The handlers of the
-- server find the file behind a descriptor (Storage), put the data into its block (Buffer, whose
-- size the quota of Quota caps), and insert the range written into the set of the sectors that hold
-- data (Sectors); reads and seeks ask that set. The threads of the clients, what they produced and
-- the channels to them are in Clients.
--
-- Which file models which part (paths from capio/):
--   Sectors    the sector set of CapioFile: insertSector, getSectorEnd, seekData, seekHole,
--              getFileSize, in server/src/capio_file.cpp
--   Quota      computeAllocableMemQuota, in server/src/storage_allocator.cpp
--   Buffer     FileBuffer and its strategies, in server/include/storage/file_buffer.hpp and
--              interfaces/heap.hpp, interfaces/mapped.hpp beside it
--   File       CapioFile, in server/src/capio_file.cpp; what write_handler
--              (server/include/handlers/write.hpp) does to a file is File.Write.write_file
--   Queue      the ring in shared memory, in common/queue.hpp
--   Storage    StorageManager, in server/src/storage_manager.cpp
--   Clients    ClientManager, in server/src/client_manager.cpp
--   Server     the state that the handlers share, and in server/include/handlers/: read.hpp
--              (Server.Read); seek.hpp, close.hpp, dup.hpp, clone.hpp, exig.hpp and access.hpp
--              (Server.Handlers); write.hpp, with register_written_data and copy_file_range_data of
--              server/include/utils/common.hpp, the directories of server/src/storage_manager.cpp
--              and write_file_location of server/include/utils/location.hpp (Server.Publish); the
--              other operations of that file (Server.Locations); open.hpp
--              (Server.Open) and stat.hpp (Server.Stat)
--              renames, removals and mkdir (Server.Files), copy_file_range.hpp and getdents.hpp
--              (Server.Transfers); handshake.hpp, the loop of server/capio_server.cpp and the
--              threads that wait (Server.Dispatch). Server.Keeps has rules for what operations
--              keep, and Server.Safety goes through all of them
--   Requests   the texts of the requests, common/requests.hpp and posix/utils/requests.hpp, and
--              how ClientManager::readNextRequest and the handlers read them
--   Caches     the client's write cache, in posix/utils/cache.hpp
--   Paths      what std::filesystem::path makes of paths, and the tests on paths of
--              posix/utils/filesystem.hpp
--   Client     the state of a client and its calls: the requests (Client.Asking), the read cache
--              (Client.Reading), the paths that ask the kernel (Client.Paths), and of
--              posix/handlers/: read.hpp, write.hpp and getdents.hpp, with posix/utils/data.hpp
--              (Client.Data), lseek.hpp (Client.Seek), dup.hpp, close.hpp, exit_group.hpp and the
--              calls that ask nobody (Client.Fds), fcntl.hpp (Client.Locks), open.hpp
--              (Client.Opening), mkdir.hpp and unlink.hpp (Client.Removing), rename.hpp,
--              access.hpp, chdir.hpp and getcwd.hpp (Client.Names), stat.hpp (Client.Stats),
--              statx.hpp (Client.Statx), copy_file_range.hpp (Client.Copying), and the handlers that
--              pass these on (Client.Handlers)
--   Descriptors  the client's tables of paths and descriptors, in posix/utils/filesystem.hpp
--   Base       tests on numbers, lists, maps, integers, blocks of bytes, and operations on a state
--   Tests      concrete inputs
--
-- A struct or class is a record of its fields; an operation is a function from the state before to
-- the state after, with no result where the code ends the server (ERR_EXIT), throws or faults.
-- Offsets and sizes are natural numbers, and -1 is `none`; the offsets of descriptors are integers,
-- since the code stores -1 there. Objects and shared offsets are reached by numbers that stand for
-- their addresses, so that two descriptors can share an offset and a pointer can dangle. A block of
-- memory is a function from offsets to bytes. Every loop goes over a list, or over the number of
-- elements that the code counts up to, so no fuel is needed, but for the digits of a number, where
-- the number itself is enough. A text is a list of characters; numbers in a request are not negative,
-- and one that does not fit its conversion is read as nothing.
--
-- What is not modelled: locks and logging; the condition variables are the predicates that waiting
-- threads test; sizes do not overflow, but for the quota's product and the expected number of
-- directory entries, whose wrap-around is written out; the CAPIO-CL engine, the system calls and the
-- contents of new memory are arguments, and a detached thread is an entry of the list of what waits.
-- What the kernel answers to a client is an argument, and the answers of the server are a part of the
-- client's state. The answers of other nodes, the remote backends, node discovery, the start of the
-- server, and in the client the interception, fork and execve are left out; the bytes
-- of a directory entry and the lines in the location files of the nodes are arguments.
pub mod Base
pub mod Sectors
pub mod Quota
pub mod Buffer
pub mod File
pub mod Queue
pub mod Storage
pub mod Clients
pub mod Tests
pub mod Server
pub mod Requests
pub mod Paths
pub mod Client
pub mod Descriptors
pub mod Caches
