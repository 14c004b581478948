-- ===== src/Lib.antt =====
-- The fiber library gwn: a logger, configuration variables, fibers, and a scheduler that runs
-- fibers on threads.
--
-- Base holds what the parts share: Boolean tests on the native numbers, lists measured by them,
-- texts as lists of bytes, and results that can be a failed assertion, a null pointer, an index
-- beyond an array, or fuel that ran out. Yaml is the interface of the library yaml-cpp: the
-- functions that the code calls, and the laws of building nodes that it relies on.
--
-- Log is gwn/log.h and gwn/log.cc. Level has the levels and their names (LogLevel), Event the
-- event, Pattern the first two loops of LogFormatter::init with the lines that they print,
-- Formatter the last loop, the format items and the two format functions, Appender the console and
-- the file appender with the output they write to, Logger the loggers and LoggerManager, and Define
-- the log definitions and the listener that puts them into effect (LogIniter), with Define.Reading
-- for the reading of a definition from YAML. Log.Yaml is the other direction: the toYamlString
-- methods and the conversion of definitions (LexicalCast), with Log.Yaml.Variable for
-- g_log_defines. Logger.Macros has the streaming macros of gwn/log.h with LogEventWrap. Loggers and
-- appenders are shared objects: they stand in a store, a pointer is an address, and every method is
-- a function from a store to a store. Config is gwn/config.h and gwn/config.cc. Var has ConfigVar
-- with its listeners, Registry the two LookUp functions and LookupBase over variables of any type,
-- Yaml ListAllMember and LoadFromYaml, and Cast the specialisations of LexicalCast for containers.
-- Fiber is gwn/fiber.h and gwn/fiber.cc: a heap of fibers, the thread-local pointers, and the
-- switches, with the assertions of gwn/macro.h as faults. Scheduler is gwn/scheduler.h and
-- gwn/scheduler.cc: the state with the task queue and its two critical sections; Worker, the steps
-- of one thread in Scheduler::run; Control, the constructor, start and stop; This, the destructor
-- and the thread-local pointer; Drain, the run of one thread to its end; Whole, the rest of stop
-- with the run of the root fiber, and a program with one scheduler from its constructor to its
-- destructor; System, in which any thread may make the next step and the rest of the program may
-- schedule, start or stop in between; Crew, which fibers each of several threads in run has in
-- hand; and Tally, which tasks a step schedules, takes, begins and drops. A task is dropped if it
-- is a fiber that is over: the round of run that takes it does nothing with it. The scheduler uses
-- the fibers, the listener of the log definitions uses the loggers, and loading uses the registry
-- and the variables. Under each part stand the modules that prove something of it, and Tests
-- applies the theorems to inputs. Thread is gwn/thread.cc: the constructor and run, with the
-- semaphore of gwn/mutex.cc, as steps of two threads, and Thread.Life join, the destructor and
-- SetName, and Thread.Interrupts the constructor when its wait fails; Mutex is the scoped locks of
-- gwn/mutex.h, Mutex.Locks the lock classes, as calls of the system's functions, and
-- Mutex.Semaphore the semaphore with its exceptions. Util is gwn/util.cc: the backtrace, and the id
-- of the running fiber.
--
-- Bounds: uint64_t counters wrap at 2 ^ 64, and uint32_t fields at 2 ^ 32. The pattern parser has
-- as fuel the length of the pattern and one more, since each round leaves a shorter rest.
-- Logger::log has fuel for the chain of root loggers, which is two loggers long in a safe store.
-- ListAllMember has fuel for the depth of the maps; a document whose nodes hold themselves is
-- outside. The run of a root fiber has the number of its steps, which is shown to exist.
--
-- A section under a mutex is one function, and the waiting for a lock is not modelled. Parameters:
-- the calendar (localtime_r, strftime), whether a file can be opened, yaml-cpp, the conversions
-- FromStr and ToStr of a variable and those of the elements of a container, what vasprintf,
-- backtrace, backtrace_symbols and pthread_join and the functions of the system's semaphore return,
-- and how the callbacks of a variable end. The conversions of a variable throw std::exceptions
-- only. The callback of a thread is the list of its uses of the thread's object, and that of a
-- fiber a script of its calls into this library. Not modelled: gwn_LOG_FMT_LEVEL, whose text names
-- an undeclared fmt; a negative size or a failing malloc in Backtrace; the messages that the
-- library logs about itself; what the locks of the system do; Singleton, Noncopyable and
-- GetThreadId, which hold no logic.
pub mod Base
pub mod Yaml
pub mod Log
pub mod Mutex
pub mod Thread
pub mod Util
pub mod Fiber
pub mod Scheduler
pub mod Config
pub mod Tests
