-- ===== src/Files.antt =====
-- src/emulite/filesystem and src/emulite/android/io: open file descriptions, and the table of
-- descriptors of src/emulite/android/android_file_system.py.
pub mod Answer
pub mod Pipe
pub mod EventFd
pub mod Epoll
pub mod Socket
pub mod Regular
pub mod Table
pub mod Fcntl
