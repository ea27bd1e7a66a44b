-- ===== src/Syscall.antt =====
-- userprog/ksyscall.h, the bodies of the system calls, by what they work on.
pub mod Console
pub mod Strings
