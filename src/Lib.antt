-- ===== src/Lib.antt =====
-- libazul is a collection of C++ framework components. This library models their logic.
--
-- - Base: shared types, tests on numbers, lists indexed by native numbers, 32-bit and 64-bit
--   arithmetic with its wrap-around, and results that may be thrown.
-- - Ipc/Queue (src/ipc/Queue.hpp): the ring of items in shared memory that the condition
--   variables of two platforms keep their waiters in. `Queue` is the object with its header
--   words, `pop`, `push_back` and so on are its members. Ring has the arithmetic of its
--   indices, Ends its two ends as clients use them, Fifo the bounded list that it stands for,
--   Inv its invariant, Refine and Remove one operation each, Client sequences of calls.
-- - Ipc/Objects (src/ipc): the calls in the life of a mutex or a condition variable in shared
--   memory, for Linux and macOS: which can be made in what order.
-- - Ipc/LockOrder (src/ipc/darwin/ConditionVariable.cpp and
--   src/ipc/win32/ConditionVariable.cpp): the operations of threads on the mutex of the queue
--   and on that of the caller, one at a time in any order.
-- - Ipc/Linux (src/ipc/linux): Pthread is the interface of POSIX threads with what the manual
--   says of them; RobustMutex has the members of the mutex and of its facade (Calls: each
--   call, Effects: what it changes for others, Exclusion: any schedule, Recovery: owners that
--   died); Integers has the signed numbers of its times, which are not bounded;
--   ConditionVariable has the deadline of a timed wait and how waits end; SharedMemory has the
--   system calls that the constructor and the destructor make (Release: what is left over),
--   Objects the constructors and destructors of the mutex and the condition variable
--   (Lifetime).
-- - Ipc/Windows/RobustMutex (src/ipc/win32/RobustMutex.cpp): the members of the mutex and of
--   its facade over an interface of the mutex of the system; Calls has what they do.
-- - Ipc/Windows/ConditionVariable (src/ipc/win32/ConditionVariable.cpp): the waiters in a
--   queue, each with a semaphore, which is an interface; Notify is about notifications, whose
--   loop has fuel for one round more than there are waiters, Waiting about threads that begin
--   to wait and stop.
-- - Ipc/Windows/SharedMemory (src/ipc/win32/SharedMemory.cpp): the system calls of the
--   constructor and the destructor; Release is about what is left over.
-- - Ipc/Darwin (src/ipc/darwin): System is the interface of the mutex of a process and of the
--   lock on a file, with what the manuals say; RobustMutex has the members of the mutex
--   (Refines: they do what they do over the manuals, Schedule: threads and processes that call
--   them, one call of the system at a time, and die, Seen: the same over the manuals, Members:
--   the steps that make up a call, Keeps, Steps, Exclusion and Misuse: what comes of it). FiFo
--   has the pipes with a name, ConditionVariable the waiters in a queue, each with a pipe
--   (Notify, Waiting); the loop of NotifyAll has fuel for one round more than there are
--   waiters. SharedMemory has the system calls that are made (Release), Objects the
--   constructors and destructors of the mutex and the condition variable (Local: the mutex of
--   the process, Lifetime). That a file cannot be closed, where the program ends, is not
--   modelled.
-- - Utils/Disposer (include/azul/utils/Disposer.hpp): the object that calls a function when it
--   is destroyed.
-- - Compute/GlobalId (include/azul/compute/clcpp/OpenCl.hpp): the index that a kernel reads.
-- - Compute/Executor (include/azul/compute/clcpp/OpenClComputeExecutor.hpp): ranges of work
--   items cut into tasks; `execute1` to `execute3` are the three overloads of `Execute`.
--   Chunks is about the loop that makes the tasks, Grid about planes and volumes as lists,
--   Calls about the calls of the kernel. The loop has fuel for one round more than there are
--   work items; a round takes one work item at least.
-- - Compute/WaitFor (the same file): the future that `Execute` returns, made from the futures
--   of the tasks.
-- - Compute/Vectors (include/azul/compute/clcpp/OpenClVector.hpp): the vectors of two and of
--   four components over an interface of scalars; `uint32` is one such scalar, which Uint32 is
--   about.
-- - Async/FutureState (include/azul/async/detail/FutureState.hpp): the state shared by a
--   promise and its futures, with the part of each member function that runs under the mutex;
--   Waiting has the members that block.
-- - Async/Future (include/azul/async/Future.hpp): the store of all states, and the calls that
--   nest when continuations run or are destroyed. `step` is one call by itself, `exec` the
--   call with all that it asks for. Termination bounds the nesting by the number of states,
--   Settle and Local say what an action does and leaves alone; Runs has calls as derivations,
--   Holders, Frees, Steps, Effects, Safe and Guard the closures of `WhenAll` and what calls do
--   to them.
-- - Async/Promise (include/azul/async/Future.hpp): the member functions of `Promise` and
--   `Future`, `WhenAll` and `WhenAny`. The fuel is eight calls for each state and eight more.
--   Complete, Outcomes, Then, Chain and All have their properties; Watched, Kept, Added,
--   Guarded, Adds, Begun and Ready follow the future of `WhenAll` from the call to any later
--   time, Preserves, Join and Shields what another `WhenAll` leaves of it.
-- - Async/Task and Async/StaticThreadPool (include/azul/async/Task.hpp and
--   StaticThreadPool.hpp): tasks over the store of states, and the pool's list of them;
--   Task/Members has the members that wait, count or pass on a future and the operators on
--   futures, Task/Total is about running a task, NextTask about the choice of a task and
--   Shutdown about the destructor, in which the threads leave one by one. Threads has the
--   steps of the threads of a pool, as many as it has, in any order, where the run of a task
--   is one step; Waiting, Work, Execute, Reached and Drain show that they come to an end, Held
--   and Dependencies when a task is taken, and Rounds that the loop of one thread is made of
--   them.
--
-- A continuation calls a function of the user's, a parameter of the model: it takes the outcome
-- of the future and returns a value or throws, and does not itself call members of promises.
-- Under the mutexes each member function is one step; what other threads do between the steps is
-- another order of calls. A blocking wait is modelled by the states that the thread finds when it
-- is woken (Async/FutureState/Waiting). On a division of vectors by zero the model gives what the
-- division of numbers gives, where the source has no meaning.
pub mod Base
pub mod Ipc
pub mod Compute
pub mod Async
pub mod Utils
