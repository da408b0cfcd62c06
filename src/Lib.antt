-- ===== src/Lib.antt =====
-- bettercpu tunes a Linux machine while it runs. `bettercpu start` takes a snapshot of the settings
-- that it is going to change, saves it, and runs an engine that looks at temperatures, load, memory
-- pressure and devices and writes settings to files under /sys and /proc. On SIGTERM the engine stops,
-- the snapshot is read back and every setting is restored. `bettercpu p` lists programs and kills them.
--
-- The parts, from the bottom. A file names the code that it models in its first line.
--   Base, Std: texts as lists of bytes, integers, maps; the C++ library as far as the code uses it:
--     results with exceptions (Std/Result), `std::to_string`, `std::stoi`, `std::stoul` (Std/Number),
--     `std::ifstream` and `operator>>` (Std/Stream), `std::sort` (Std/Sort). `double` is a parameter
--     (Std/Double) with one instance, `hundredths`.
--   Os: the operating system, a record of calls over a state. `Os.OStream` is `std::ofstream` with its
--     buffer, `Os.Laws` what the theorems on files assume of the system (a file has a content, reading
--     shows it, a write that is taken goes behind it), `Os.Memory` a system in memory that meets it.
--   Governor: core/src/governor.cpp, the four cpufreq files of a CPU.
--   StateBackup: core/src/state_backup.cpp, `save` and `load`.
--   Topology, Sensors, IoStorage, MemGuard: the files of the same names in core/src.
--   PolicyEngine: core/src/policy_engine.cpp. The record `Engine` has the fields of the class, the
--     functions its methods. Activity: the classification and the sleep; Cap: the thermal policy;
--     Policies: load, memory and devices; Loop: `tick`, `run` and the signal handler; Start: what
--     the start records; Heat: ticks in a row while a zone is too hot.
--   DaemonControl, SystemdPersistence, ProcessManager: the files daemon_control.cpp,
--     systemd_persistence.cpp and process_manager.cpp in core/src.
--   Cli: cli/src/main.cpp. Common: paths and the test for root; Restore: the snapshot and its
--     restoration; Start, Commands: `start`, `stop`, `status`, `clean`; Ids: the ids that users type;
--     Process: the kill; Listing: the tables; Main: the dispatch and the help.
--   Tests: a machine in memory, on which the theorems are applied and the engine is run.
--
-- A method that reads or writes the system takes the system's state and returns the state after it, so
-- that other processes may change anything between two calls. A C++ exception is a value of
-- `Std.Result`; a state outlives it. Fields of a class that never change, such as the path of the pid
-- file, are arguments. A class of the code that holds no state is a module.
--
-- An output stream keeps short texts until it is closed and writes a text of 1024 bytes or more at once,
-- as libstdc++ does. The theorems on files take different paths for different files: CPUs whose
-- cpufreq folders are links to one policy folder are outside `Os.Laws`.
--
-- Machine integers: `int` results of arithmetic go through `wrap_int` (32 bits), sums of ticks are
-- taken modulo 2 ^ 64, and reads of numbers have the limits of their types, with what `operator>>` does
-- beyond them. `size_t` and `unsigned long` have 64 bits.
--
-- Fuel: the loop of `run` ends when a signal comes, which may be never, so that `run_loop` takes the
-- number of ticks as fuel and returns `none` while it is still running; a caller gives as many ticks as
-- it wants to follow. `print_nat` has its own argument as fuel, since a number has no more digits than
-- its value. Every other function recurs on its data.
--
-- Not modelled: the build and packaging scripts; a signal that comes before its handler is set; the
-- locale; the descriptors that a failed daemonize leaves open; a read of a `dirent` that fails. A
-- command's text on the terminal is printed in one call for each message or table. The order in
-- which an `unordered_map` is walked, the numbers of type `double` and the version text are
-- parameters.
mod Base
pub mod Std
pub mod Os
pub mod Governor
pub mod StateBackup
pub mod Topology
pub mod Sensors
pub mod IoStorage
pub mod MemGuard
pub mod PolicyEngine
pub mod Cli
pub mod DaemonControl
pub mod SystemdPersistence
pub mod ProcessManager
pub mod Tests
