-- ===== src/Ipc/Darwin/RobustMutex/Exclusion.antt =====
-- src/ipc/darwin/RobustMutex.cpp: the two locks together keep threads of all processes apart.
use libazul.Ipc.Darwin.System.{System}
