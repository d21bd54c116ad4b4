-- ===== src/Lib.antt =====
-- sylar-study: a model of the coroutine library (sylar/concurrency) and of logging and configuration
-- (sylar/base), with what is proved of it.
--
-- Parts. A `Scheduler` (sylar/concurrency/scheduler.cpp) keeps a list of tasks that its threads share; each
-- thread runs `SchedulingFunc`, which takes the first task it may run and switches to a coroutine
-- for it (coroutine.cpp), and to the idle coroutine when there is none. The idle coroutine waits
-- in `EpollPoller::PollAndHandle` (epoll_poller.cpp), which turns ready descriptors and expired
-- timers (timer_manager.cpp) into tasks. Loggers hand events to appenders, or to the
-- parent when they have none, and appenders format them by a pattern (sylar/base/log.cpp). A change
-- of the configuration variable `loggers` makes and removes loggers. Variables are read from YAML
-- documents by their dotted names (sylar/base/config.h, config.cpp).
--
-- Files.
-- - Prelude: names of the library, tests on numbers, lists, and `Outcome`: a call returns, or meets a
--   failed SYLAR_ASSERT, a throw, or an operation with no defined result.
-- - Timer: `Timer` and `TimerManager`. The set is a list in the order of the deadlines; time points
--   are numbers of nanoseconds; the armed timerfd is a field. Timer/Order and Timer/Laws are about
--   the set, Timer/Sweep about `GetAllExpiredTimers`.
-- - Log/Level: `LogLevel`. Log/Pattern: `LogFormatter::Init`, with the state machine and the handlers
--   as the source has them. Buffer compares it with a machine that collects bytes, Printing defines
--   the pattern that a list of items comes from, Steps, RoundTrip and Sound relate both.
-- - Log/Format: `LogEvent` and the output of a list of items; the text of a time is a parameter.
--   Log/Logger: appenders, loggers and what they do, over a store in which pointers are numbers.
--   Chain is about the parents of a logger, Formatters about who has a formatter, Delivery about
--   where an event goes.
-- - Log/Manager: `LoggerManager` and `GenerateInstance` of the definitions of loggers, with the monitor
--   that compares the old set of definitions with the new one. Loggers is about `GetLogger`,
--   Defines about the monitor. Log/Conf: the casts of the definitions from and to YAML; ReadBack is
--   about their composition. Log/Startup: the registration of the variable `loggers` with the monitor,
--   in the manager of Config/Vars; Loads is about a change of its value, Files about loaded documents.
-- - Config/Yaml: the interface of yaml-cpp. Config/Cast: `LexicalCast` of the containers, over the casts
--   of their elements; a set or map is the list of its elements in the order in which they are
--   iterated. Config/Nodes: `IsValidName` and `ListAllNode`; Listing and Ends are about it.
--   Config/Notation is one instance of the interface of yaml-cpp.
--   Config/Vars: `ConfigVar` and `ConfigManager`; Monitors is about the monitors of one variable,
--   Loads about the manager and `LoadFromFile`.
-- - Poller: `Event` and `EpollPoller`. Poller/Kernel is the interface of the epoll instance, a
--   parameter; Poller/Table is one instance of it; Poller/Masks the event masks, with the bits that
--   the code tells apart. Synced, Calls and Runs are about the registration of events, Delivery and
--   Lost about their dispatch.
-- - Coroutine: the states and thread-local pointers of coroutine.cpp. A coroutine is its id in a
--   store. Coroutine/Switch is about a run between two switches, Coroutine/Reuse about construction and
--   `Reset`.
-- - Scheduler: the list, `Co`, and one turn of the loop of `SchedulingFunc`. Scheduler/Pick is about
--   the search of the list, Scheduler/Turn about the turn for a callback or a coroutine, Scheduler/Timers
--   models `RunAt` and `RunAfter`. Scheduler/Loop is the whole of `SchedulingFunc` on one thread: Drain
--   is about its loop, Returns about the call. Scheduler/Life has the constructor, `Start` and `Stop`;
--   Starts is about the threads they start, Stops and Cycle about `Stop`. Scheduler/Pool: several threads
--   that search the list, add to it and are woken by the eventfd (notifier.cpp), as steps in any order, with `Notify` behind the lock;
--   Wakeups is about waking, Order about the order of the tasks. What a user's function does is the
--   parameter `run`.
-- - Threads: `Thread` (thread.cpp) with its thread-local variables; Ready is about what its constructor
--   leaves, Ended about `Join` and the destructor.
-- - Fd: descriptor contexts and `FdManager` (fd_manager.cpp), over the calls of libc in Fd/Kernel, a
--   parameter. Hook: `socket`, `fcntl` and `setsockopt` (hook.cpp). Hook/Status is about the status
--   flags, Hook/Sockets about timeouts and descriptors that are used again, Hook/Sleep about `sleep`,
--   `usleep` and `nanosleep`. Hook/Io: `do_io`, `accept`, `read` and `write`, over a list of what the
--   successive calls of libc return; Blocking is about their loops.
-- - The modules named Tests hold runs and examples.
--
-- Fuel. The loop over expired timers runs on fuel, since a repeated timer goes back into the
-- set; a round reads the clock at most twice. When no timer repeats faster than the loop takes,
-- each round but the last takes out one more timer that is due, so one more than their number is
-- enough. `Log` and `SetParent` follow the parents on fuel, for which the length of the chain is
-- enough, and the listing of a document goes down on fuel, for which its depth is enough. The loop
-- of `SchedulingFunc` runs on fuel for its turns: on a stopped scheduler with callbacks that return,
-- two more than the number of tasks are enough. The loops of `do_io` follow the list of results.
--
-- Not modelled. Locks (each operation holds its own from start to end, or gives it back before it
-- calls out), raw memory, ucontext, the spin lock, and logging of errors. What other threads do
-- between the steps of one thread is in Scheduler/Pool and in the parameters `run`, `poll` and
-- `resume` only. The lookup of the functions of libc is left out, and so are the calls that only
-- forward their arguments (`connect`, `getsockopt`, the other commands of `fcntl`). A monitor of a
-- variable does not use that variable. Time points have no bound: the overflow of their 64 bits is
-- left out. F_SETFL is taken to set O_NONBLOCK and one number that stands for the other status flags;
-- the access mode is left out.
pub mod Prelude
pub mod Timer
pub mod Log
pub mod Poller
pub mod Coroutine
pub mod Scheduler
pub mod Fd
pub mod Hook
pub mod Config
pub mod Threads
