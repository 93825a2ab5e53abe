-- ===== src/Lib.antt =====
-- schedmon, a scheduler-based performance monitor for Linux: a driver (driver/) that samples
-- performance counters of monitored tasks, and a tool (tool/src/) that configures it and prints
-- what it samples. The two share a ring buffer of 2^k pages, which the driver fills and the tool
-- maps.
--
-- The parts, and the files that model them:
--
-- Ring (driver/rb.c, struct smon_ring_buffer of driver/smon.h). `RingBuffer` has the fields of the
-- struct; the pages are a function from page and offset to a byte, and machine words keep their
-- wrap at 2^32. Ring/Index has the macros on positions. smon_create_rb, smon_destroy_rb
-- (Ring/Create), smon_get_rb, smon_release_rb, smon_rb_write, smon_rb_write_eof, smon_rb_read and
-- the tests on a buffer are functions of the same names. Whether an allocation succeeds is an
-- argument. The calls of irq_work_queue are counted in `wakeups`; locks are left out: writes and
-- reads run under the lock of the buffer, and the calls are taken one after another. Ring/Layout
-- says what a row of records in the pages is, Ring/Valid when a buffer is well formed; `Holds rb p
-- q es` of Ring/Write says that the positions `p` and `q`, which do not wrap, stand for tail and
-- head, and that the records `es` lie between them.
--
-- Reader (tool/src/rb.c, tool/src/rb.h, read_samples of tool/src/profile.c). `Reader` is struct
-- smon_rb without its address; a mapping is a function from an address to a byte. `read_loop` is
-- the loop on fuel, and one unit more than there are records is enough. `Enough nr es` says that a
-- row has `nr` samples or an EOF, at one of which the loop stops. What fprint_sample_* print is a
-- list of the type and the bytes of each sample. Reader/Session joins the reader with the driver's
-- acknowledgement, smon_rb_read.
--
-- Event, EvSet (driver/event.c, driver/evset.c). The tables are lists; EvSet/Tables runs the calls
-- that change them. Envir (driver/envir.c) is the environment of a task, with its options, its
-- reference count and the next of its event-sets. Pmc (driver/pmc.c, driver/msr.c) is the
-- configuration and the transfer of the counters, over the two instructions of the processor as a
-- parameter; that stopped counters, and event selects, keep what is written to them are the hypotheses
-- `Keeps` and `Selects`. Cmd (tool/src/cmd.c) is how the options of the commands event, evset,
-- profile (Cmd/Profile), stat (Cmd/Stat) and roof (Cmd/Roof) are checked and put into the structs
-- that the driver gets; what getopt, getsubopt, strtok and strtoul give is an argument. Rapl
-- (driver/rapl.c) reads and subtracts the energy counters. Device (driver/main.c) is open,
-- release, poll, mmap and its faults; the system's event masks and its is_power_of_2 are
-- arguments.
--
-- Sample (driver/smon.h, fprint_sample_* of tool/src/profile.c). The samples are records, and
-- their bytes those of the x86-64 ABI, least significant first; what a line prints is its list of
-- numbers, as bit patterns.
--
-- Task (driver/sample.c, driver/task.c). `Machine` is what the driver keeps: the lists of struct
-- smon_sched, the tables, the registers of each core, and three heaps, of tasks, environments and
-- ring buffers, in which a pointer is an address or NULL and freed memory is `none`. A call that
-- reads NULL or freed memory, divides by zero or leaves an array has the result `none`, a fault.
-- Task/Sampling is sample.c, Task/Life is task.c; Task/Slices runs a task through slices of time, and
-- Task/Slices/Turns through samples of several slices. A
-- read of the time-stamp counter, and whether an allocation succeeds, are arguments.
--
-- Sched (driver/sched.c). Sched/Timers has the timers and works, and what a switch does to a task,
-- Sched/Register the registrations, Sched/Hooks the five tracepoints and the end of the module, and
-- Sched/Calls all of them as one type of calls, in any order. The kernel's lists are lists of
-- addresses, the `children` nodes rings of them; list_add and list_del are those of the kernel's
-- documentation, task_cpu and the processes are arguments, and the locks are left out: the calls
-- are taken one after another. Sched/Count counts references, Sched/Safe says when no call faults,
-- Sched/Migrate and Sched/Dangling are about the lists.
--
-- Device/Ioctl (smon_ioctl of driver/main.c) takes a command apart and calls the tables, the
-- registrations and the reader's side of the ring buffer on a `Machine`. Driver (tool/src/driver.c)
-- is the tool's side of these calls; the C library's ioctl is an argument, with the hypothesis
-- `IsIoctl`. The loops over the tables are on fuel, and one unit more than there are entries is
-- enough.
--
-- Device/Module (smon_init, smon_exit and smon_setup_cdev of driver/main.c) is the start and end of the
-- module: `Kernel` is what the module holds of the kernel, beside the machine.
--
-- Profiling (tool/src/profile.c). Profiling/Sampling is start_sampling, for a list of calls of poll:
-- each has the calls that the driver makes on the buffer before poll answers, and poll evaluates the
-- driver's smon_poll. A poll that gives no events stands for one that still waits. What the system
-- makes of the driver's mask is an argument, with the hypothesis `IsPoll`; what the callers of the
-- buffer keep to is `IsRuled`, and that the EOF record of the last release finds room is `EofFits`; `accepted` records what
-- the buffer took, and is not in the code. Profiling/Start is start_profile and its child, as lists of
-- the calls that they make, those of mkstemp, sem_open, sem_close and signal among them, and smon_set_affinity. Profiling/Counts has the counts, which the tool
-- does not use yet.
--
-- Cmd/Input is smon_parse_input of tool/src/cmd.c with struct smon_cmd of tool/src/cmd.h; what getopt
-- gives for each command is an argument. Main (tool/src/main.c) is one run of the tool on the driver's
-- `Machine`; the calls of start_profile are listed as steps, and what the driver does while the profiled
-- program runs is not followed there.
--
-- Not modelled: the locks; stop_timer_rapl of driver/sched.c, which takes a wrong pointer and which
-- nothing queues; rdtsc of tool/src/profile.c, which nothing calls; the handler of SIGINT; help texts
-- and other messages, install files and scripts.
pub mod Prelude
pub mod Ring
pub mod Reader
pub mod Event
pub mod EvSet
pub mod Envir
pub mod Pmc
pub mod Rapl
pub mod Sample
pub mod Task
pub mod Sched
pub mod Cmd
pub mod Device
pub mod Driver
pub mod Profiling
pub mod Main
