-- ===== src/Lib.antt =====
-- gx: a library of concurrency-safe containers and helpers for Go programs. Each type keeps its state
-- under a lock or in a channel and is used by many goroutines at once. But for the Bus, which holds
-- a Semaphore, and the Runtime, which has its tasks run by a Runner, they do not call each other: a
-- program puts them together. Package env reads the environment.
--
-- Base            shared names; lists, tests and panics by native numbers; Go's int (Base/Int).
--                 Base/Exec has computations that change a state and return, panic or block;
--                 Base/Exec/Keeps and Base/Exec/Ensures have the rules for what they keep and for
--                 what holds when they return.
-- Sync            what the types use of sync, channels and context: the sleepers of a condition
--                 variable (Sync), who of them is owed a value (Sync/Sleepers), a buffered channel
--                 (Sync/Chan), the cause of a context (Sync/Context).
-- Dict            Go's map as an association list, over an interface of decided equality.
-- Buffer          buffer.go. NewBuffer, Close, Next, Push, TryNext, Len, growLocked and nextLocked are
--                 new_buffer, close, next, push, try_next, the len_op of call, grow_locked and
--                 next_locked. Buffer/Spec is a closable queue, Buffer/Ring the arithmetic of the ring,
--                 Buffer/Refine, Buffer/Take and Buffer/Fifo relate the two, Buffer/Wakeup is about
--                 goroutines that sleep in Next.
-- Stack           stack.go, in the same way; Stack/Spec is a closable last-in-first-out list, Stack/Slots
--                 and Stack/Refine relate the two, Stack/Wakeup is about goroutines that sleep in Pop.
-- Map             map.go; Map/Spec is a partial function, Map/Keys about Keys and Values.
-- Set             set.go, as a map to the unit type; Set/Spec is the finite set that it implements, as
--                 Set/Sequence says of any calls.
-- Assert          assert/assert.go; Empty, NotEmpty, True, False and their like are empty, not_empty,
--                 is_true, is_false and so on, Type is has_type; those that look into values are
--                 in Assert/Values; Assert/Pairs is about when they pass.
-- TestAssert      test/assert.go, which has the assertions of assert for a TestingT, and more; Panics is
--                 panics_in. Those that look into values are in TestAssert/Values, Same in
--                 TestAssert/Same; TestAssert/Agree is about what both packages have.
-- Semaphore       semaphore.go; Semaphore/Holders has the goroutines that hold slots.
-- Throttler       throttler.go; Throttler/Spacing is about the times of the runs that it allows.
-- Accumulator     accumulator.go, with the run goroutine as the events ticks and finishes.
-- Runner          runner.go; Runner/FirstError is about the error and the cause of the context.
-- Dispatcher      dispatcher.go; Dispatcher/Order is about the handlers called.
-- Queue           queue.go, a section of code under one lock as one function. Queue/Steps lets the
--                 goroutines of Push, PushWait, Close and run take sections in any order;
--                 Queue/Choices is about each select, Queue/Invariant about the flags and channels,
--                 Queue/Progress about what follows, Queue/Complete about the end of a run.
-- Bus             bus.go, over the model of the Semaphore; Bus/Publish is about the subscribers called.
-- Retry           retry.go; Retry/Passes has the ways through the loop of Do, Retry/Attempts is about
--                 the calls, Retry/Delays about the waits.
-- Debouncer       debouncer.go; Debouncer/Pending is about what runs and when.
-- Env             env/env.go; Env/Strings has what it uses of strings, Env/Read is about what is read.
-- Web/Error       web/error.go; Web/Error/Messages is about what the errors say.
-- Web/Response    the responseWriter of web/context.go; Web/Response/Protocol is about the order of what
--                 it sends.
-- Web/Bind        bind of web/context.go; Web/Bind/Accepts is about the content types that it takes.
-- Web/Context     the Context of web/context.go, its values and how it binds (set_value, get, bind_json
--                 and bind_any_content_type are Set, Get, Bind and BindAnyContentType); Web/Context/Logs
--                 has logError, logErrorResponseWrite and logRequest, Web/Context/Formats HTML, String,
--                 JSON and Redirect, and Web/Context/Binds is about what a bind returns.
-- Web/Handler     HandlerFunc.Serve and ServeHTTP (serve and serve_default), chain and the middleware of
--                 web/server.go; Web/Handler/Answer is about the answers to errors, Web/Handler/Order
--                 about the order of middleware, Web/Handler/Writes about what reaches the writer.
-- Web/Server      Server of web/server.go: Use is use_all, Handle handle, DELETE, GET and their like
--                 delete, get and so on; Web/Server/Settings has its options, Web/Server/Requests how
--                 serveHTTP serves a request (serve_http); Web/Server/Invariant is about what a Server
--                 sends, Web/Server/Order about its middleware.
-- Runtime         runtime.go. Runtime/Types has its types, and hooks as the calls that they make, each
--                 depending on the replies before it; Runtime/Store the store; Runtime/Calls the
--                 methods that a program, a hook or a task calls (Attach, On..., Run, Set, Get and
--                 their like are attach, on_..., run_task, set_local, get and their like; those of the
--                 Runtime are set_global, get_global and get_try_global); Runtime/Create is Create,
--                 Runtime/Tasks the tasks that run, Runtime/Watch watchShutdown, Runtime/Access the
--                 methods that hand on to the Runtime, Runtime/Contexts signalContext and
--                 newRuntimeTaskContext, about which is Runtime/Contexts/Mirror; Runtime/Turns is what other goroutines do;
--                 Runtime/Lifecycle has Container.init, start and shutdown as container_init,
--                 container_start and container_shutdown, Runtime/Run has Runtime.start, shutdown and
--                 Run as runtime_start, runtime_shutdown and runtime_run. Runtime/Frame is about what
--                 calls leave alone, Runtime/Keeps and Runtime/Stages about what the parts of a run
--                 keep. Runtime/Executed has the hooks that a loop executes with what they return, over
--                 which Runtime/Hooks, Runtime/Shutdown and Runtime/Reports say what init, start,
--                 shutdown and Run come to; Runtime/Phases, Runtime/Settled, Runtime/Finished and
--                 Runtime/Quiet are about the order of the phases, the end of a run and the tasks left,
--                 Runtime/Deps and Runtime/Invariant about the dependencies and about what holds between
--                 two calls. The log of the steps is kept in the state whether there is a logger or not.
-- The Tests modules have runs on small inputs.
--
-- A method that holds the lock for its whole body is one function on the state. Where a goroutine
-- sleeps or gives way, the parts before and after are steps that others come between. A run-time
-- panic is none of an Option, or the result panicked. A select has the list of what it may do now,
-- and blocks when that is empty. Sizes and indices are native numbers, without the bound of int,
-- which memory keeps them below; totals of an Accumulator wrap as int does. A time is a number of
-- nanoseconds and is an argument. Loops are structural, except that of Retry, which has no bound of
-- its own and runs on fuel, one for each call of the function; as much as the limit on the attempts
-- is enough.
--
-- A response of package web is the list of the calls that the http.ResponseWriter gets. net/http with its
-- ServeMux, encoding/json, http.Redirect and slog are parameters. A request is served as a whole: what
-- other requests do meanwhile does not come at its context, and changes no more of the Server than that
-- its middleware is settled and that more is logged.
--
-- A run of a Runtime is one function on its state. Other goroutines have a turn before each call of a
-- hook and wherever the code looks at the context or waits, and a schedule, which is an argument, says
-- what they do then: tasks return, contexts end, tasks call the API. What blocks in spite of its turn is
-- the result blocked. The goroutine that shuts down when the context is done has its turn after the
-- start, which is the first moment at which it does anything.
--
-- The contexts of a Run and the watch over its shutdown, with signals, deadlines and timers, are models of
-- their own, Runtime/Contexts and Runtime/Watch; in the run itself contexts end in a turn.
--
-- Not modelled: of runtime.go, what is logged of tasks and of whole Containers; of web, its test server;
-- examples, which are programs that call the library and print. The memory model of Go and the fairness of its
-- scheduler are not modelled either.
pub mod Base
pub mod Sync
pub mod Dict
pub mod Map
pub mod Set
pub mod Semaphore
pub mod Throttler
pub mod Accumulator
pub mod Assert
pub mod TestAssert
pub mod Runner
pub mod Dispatcher
pub mod Queue
pub mod Buffer
pub mod Stack
pub mod Retry
pub mod Runtime
pub mod Web
pub mod Bus
pub mod Debouncer
pub mod Env
