-- ===== src/Lib.antt =====
-- lazydap: a verification library for the daemon, the project store, the terminal interface and
-- the vocabulary that they share.
--
-- The program. lazydap is a debugger front end. A resident daemon (crates/daemon) speaks DAP to one
-- debug adapter at a time, keeps the session, and answers short-lived clients over a socket. The
-- project's breakpoints and watches are in a store (crates/store), and crates/core and
-- crates/protocol hold the data that both exchange. Within the daemon, the pump turns what the
-- adapter says into changes of the session and events in the session's history; a client's wait
-- reads the history and the broadcast channel until the program settles; handles stand between the
-- adapter's frame and variable numbers and the client's. The terminal interface (crates/tui) is a
-- client that stays: one function takes every key, announcement and answer to the next state and
-- the requests that are to be sent.
--
-- The files, and the code each is about:
--   Prelude            shared names, Boolean tests, lists, integers, decisions, maps
--   Core/Session, Core/Reason         crates/core/src/session.rs
--   Core/Breakpoint, Core/Watch, Core/Selector, Core/Inspect   the files of crates/core/src
--   Core/Text          two tests on text of the standard library
--   Core/Event         crates/protocol/src/types.rs: Event, StableState
--   Daemon/EventBuffer crates/daemon/src/state.rs: EventBuffer; Log is the specification, Refine
--                      relates the operations to it, Delivery follows what waits are told
--   Daemon/Handles     crates/daemon/src/handles.rs; Invariant, Laws, Stale
--   Daemon/Session     crates/daemon/src/state.rs: Session, Markers, RunClaim; Breakpoints is
--                      BreakpointMap; Claims, Fence, Marking and Statuses hold the theorems
--   Daemon/Slots       crates/daemon/src/state.rs: DaemonState and its reservations; Single
--   Daemon/Wait        crates/daemon/src/wait.rs; Context and Collect are its later steps, Kept,
--                      Bounds, Progress, FirstStop, Located and Reporting hold the theorems
--   Daemon/Execute     crates/daemon/src/handlers/session.rs: execute; Requests
--   Daemon/Editing     crates/daemon/src/handlers/breakpoints.rs; Due says what the adapter is to be
--                      told, Telling and Recorded hold the theorems
--   Daemon/Watching    crates/daemon/src/handlers/watches.rs; Previews
--   Daemon/Window      crates/daemon/src/handlers/inspect.rs: the window of `variables`; Exact
--   Daemon/Pump        crates/daemon/src/adapter/pump.rs, normalise_stop of codelldb.rs; Stops,
--                      Endings
--   Store              crates/store/src/lib.rs; Ids and Replacing are lemmas on lists, Removing,
--                      Adding, Invariant and Runs hold the theorems; Merge is merge_by_id and
--                      adopt_external_edits, with its theorems in Merge/Folding;
--                      Paths is crates/store/src/file.rs
--   Core/Request       crates/protocol/src/types.rs: the requests and answers of the terminal
--   Tui                crates/tui/src: State is state.rs and msg.rs; Input, Repl, Scopes, Stack,
--                      Source, Watches are the files of panes, Viewport the scrolling they share;
--                      Sending, Connection, Actions, Keys, Events, Answers, Update are update.rs by
--                      what a message is about. Fresh and its children, WatchList, Toggling, Ended,
--                      Repl/History, Source/Cursor, Scopes/Rows and Scopes/Changing hold the theorems
--   Config             crates/config/src/launch_json.rs: Jsonc, Arguments, Variables and Import, each
--                      with its theorems in a module below it; Core/Launch is
--                      crates/core/src/launch.rs
--   Examples           the theorems at concrete inputs
--
-- How code corresponds to definitions. A struct is a record with the same fields, an enum a data
-- type, a method a function that takes the state and answers the new state beside its result. A
-- method that runs under one lock is one step. `u64` and `u32` counters wrap as in a release build.
-- The broadcast channel appears as the list of what is sent and the sequence of what `recv` answers,
-- a lag among the answers. The adapter's answers, and what the pump does to the session while a wait
-- is suspended, are parameters of the wait; so they are of the breakpoint commands. A `HashMap` is
-- an association list. A `PathBuf` is its components, a session's id a number. JSON bodies are
-- read by `serde_json`: an adapter event has the fields that the pump reads of it. Where an index is
-- out of range the code panics, and the definition's comment says what the model does. The loops run
-- over the events or the characters that they receive; `expand` alone needs fuel, one more than the
-- text has characters, which is enough since what follows a `${name}` is shorter.
--
-- Not modelled: the clock and the runtime's scheduling within a step; sockets, processes and files;
-- the parsing of requests and DAP messages; the writing of the store's file and its unknown sections;
-- launching, disconnecting and the inspection requests, but for the window of `variables`; the event
-- loop, colours and layout of the terminal interface; the printing of answers.
pub mod Prelude
pub mod Core
pub mod Daemon
pub mod Store
pub mod Tui
pub mod Config
pub mod Examples
