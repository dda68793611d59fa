-- ===== src/Syscall/Pause.antt =====
-- How long sys_pause of sysproc.c sleeps.
use os_project_files.Kernel.{Kernel}
