-- ===== src/Syscalls/Guard.antt =====
-- What the handler reads of the user's stack.
