-- ===== src/Lib.antt =====
-- Verification of muxtop, a system monitor with a terminal interface and an optional server that
-- streams snapshots to remote clients.
--
-- The program has four crates. muxtop-core collects processes, network, containers, Kubernetes and
-- GPU readings into snapshots. muxtop-proto frames messages on a byte stream between server and
-- client. muxtop-server accepts connections over TLS, limits them per address and sends snapshots.
-- muxtop-tui shows local or remote snapshots and turns keys into actions. This library follows
-- that division: Core, Proto, Server and Tui, over the shared helpers of Base (Boolean tests on
-- the native numbers, lists, integers, results, texts and permutations).
--
--   Proto/Frame.antt         crates/muxtop-proto/src/frame.rs, error.rs: `encode_frame`,
--                            `decode_frame`; Frame/Stream.antt: `FrameReader`, `FrameWriter`
--   Proto/Wire.antt          crates/muxtop-proto/src/wire.rs: `WireMessage`, `to_frame`,
--                            `from_frame`
--   Proto/Remote.antt        crates/muxtop-proto/src/remote.rs: `RemoteCollector`
--   Core/Process.antt        crates/muxtop-core/src/process.rs: `ProcessInfo`; Process/Tree.antt:
--                            `build_process_tree`, `flatten_tree`; Process/Search.antt:
--                            `contains_ignore_case`, `filter_processes`; Process/Sort.antt:
--                            `sort_processes`
--   Core/System.antt         crates/muxtop-core/src/system.rs: `SystemSnapshot`; with it
--                            Core/Containers.antt, Core/Kube.antt and Core/Gpu.antt: the data of
--                            containers.rs, kube.rs and gpu.rs; Core/Gpu/Engine.antt: the
--                            `CompositeGpuEngine` of gpu_engine.rs;
--                            Core/System/Collect.antt: `SystemSnapshot::collect`
--   Core/Kube                crates/muxtop-core/src/kube_engine.rs: Kube/Quantities.antt: the
--                            parsing of quantities; Kube/Objects.antt, Kube/Convert.antt: the
--                            objects of the API server and their snapshots;
--                            Kube/Metrics.antt: `tick_metrics`; Kube/Engine.antt: `KubeEngine`
--                            with its polls
--   Core/Engines.antt        the errors of container_engine.rs and cluster_engine.rs
--   Core/Collector.antt      crates/muxtop-core/src/collector.rs: `Collector::run` and the loops
--                            that it spawns
--   Core/Network.antt        crates/muxtop-core/src/network.rs: `NetworkSnapshot::collect`,
--                            `NetworkHistory`
--   Core/Actions.antt        crates/muxtop-core/src/actions.rs: `kill_process`,
--                            `renice_process`, `get_process_priority`
--   Server/RateLimit.antt    crates/muxtop-server/src/rate_limit.rs: `RateLimiter::try_admit`;
--                            Server/Floats.antt: the interface of its `f32` arithmetic
--   Server/Client.antt       crates/muxtop-server/src/client.rs: `handle`, on the messages of
--                            Proto/Wire.antt; Server/Tokens.antt: `constant_time_eq`
--   Server/Accept.antt       crates/muxtop-server/src/server.rs: the accept loop of `run`;
--                            Server/Relay.antt: its relay of snapshots
--   Session.antt             a client of Proto/Remote.antt and a session of Server/Client.antt over
--                            one stream
--   Tui/Tabs.antt            crates/muxtop-tui/src/app.rs: `Tab` with its order, the sub-views;
--                            Tui/Sorts.antt: the sort fields, `next_sort_field` and its kin
--   Tui/Notify.antt          crates/muxtop-tui/src/notify.rs: `Notifier`
--   Tui/Sanitize.antt        crates/muxtop-tui/src/ui/sanitize.rs: `scrub_ctrl`
--   Tui/Keymap.antt          crates/muxtop-tui/src/keymap.rs: `resolve`, `for_tab`, `hints`;
--                            Keymap/Keys.antt: keys, actions, `normalise`; Keymap/Bindings.antt:
--                            the table `BINDINGS`
--   Tui/KubeView.antt        crates/muxtop-tui/src/ui/kube.rs: `compute_view_indices`, the sorts
--   Tui/Clipboard.antt       crates/muxtop-tui/src/clipboard.rs: `copy`, `base64`
--   Tui/Theme.antt           crates/muxtop-tui/src/ui/theme.rs: `ThemeKind`
--   Tui/App.antt             crates/muxtop-tui/src/app.rs, in parts:
--     App/Commands.antt      `Command`; App/Palette.antt: `PaletteState`, `refilter_ctx`
--     App/View.antt          the tables of `AppState`: `recompute_visible`, `item_count`,
--                            `move_selection`; App/Edit.antt: `go_to_tab`, `after_filter_change`,
--                            `cycle_sort`, `selected_identifier`; App/History.antt:
--                            `push_container_history`
--     App/State.antt         `AppState`, `notify`, `apply_snapshot`; App/Requests.antt:
--                            `request_kill`, `execute_confirm` and their kin; App/Overlays.antt:
--                            `open_overlay`, `copy_selection`
--     App/Dispatch.antt      `dispatch`, `tab_actions`, `go_back`; App/Invoke.antt:
--                            `execute_invocation`, `execute_command`, `kill_named`
--     App/Input.antt         `handle_key_event`, `handle_mouse_event` and the handlers behind them
--     App/Loop.antt          the loop of `run` in crates/muxtop-tui/src/lib.rs, with the events of
--                            event.rs
--     App/Safety.antt        what keys and runs leave alone, in proofs by handler
--
-- State is passed explicitly: a frame reader or writer is a function of the state of its stream,
-- the rate limiter takes and returns its table (the mutex makes each call one step), the visited
-- flags of the tree are a list that the recursion threads. An index out of range, which panics in
-- the program, is `none` in the models of the tree, the tabs and the network history. The
-- application takes its whole state and returns it: a key goes to the confirmation, else to the
-- overlay, else to the filter that is being edited, else through the keymap to `dispatch`. The
-- operating system and the terminal are parts of that state; a task that it spawns on an engine is
-- a value in a list, and what the task sends comes back with a later turn of the loop. The clock
-- stands still while one event is handled. A session of the server is given whether its Hello is
-- read in time, and then what its `select!` yields, as a list of events; so are the accept loop,
-- the remote collector and the collector's loop. A task of the accept loop is its phase, and the
-- permits come from a semaphore, an interface of its own. The remote collector is given one attempt
-- after the other, and its waits are in seconds. The objects of the Kubernetes API are records with
-- the fields that the program reads; a poll reads the scope when it starts, and writes when it ends.
--
-- Parameters stand for what the program does not define. A byte stream is a record with
-- `read_exact` or `write_all` and a relation that says what it delivers. bincode is an encoder and
-- a decoder for each type of payload, under the program's configuration, with the memory that the
-- decoder claims for a value: what it has encoded it decodes, or refuses if that takes more than the
-- limit. The floats of the rate
-- limiter are a record of the operations it calls with laws of rounded arithmetic, on values that
-- are neither NaN nor negative: monotone operations, exact at zero. The system calls are a record
-- of functions of the state of the operating system. Lowering a string beyond ASCII, reading a body
-- of metrics as JSON and reading a float are functions.
-- The application is over a record `Host`: the standard library (`Std`: floats, the sort of slices,
-- of which only that it permutes is used, lowering, whitespace, the printing of numbers), the system
-- calls, the writer of the terminal, the errors of the engines and the fuzzy matcher's score.
-- Every interface has a concrete instance in the Examples modules.
--
-- Bounds: recursion in the tree stops at MAX_DEPTH, which is the recursion's fuel as in the
-- program; processes that lie deeper become roots of their own, and every loop over the processes
-- runs for their number. Time is a number of nanoseconds that the caller passes. Lengths are
-- natural numbers; the casts to `u32`, the saturating additions and the wrapping sum of a nice
-- value are written out.
--
-- Not modelled: bincode's bytes, TLS, the engines' calls of Docker, of the Kubernetes API and of
-- GPU drivers with the parsing of what these print, the drawing of the application's state with its
-- terminal capabilities, and the command line.
pub mod Base
pub mod Core
pub mod Proto
pub mod Server
pub mod Session
pub mod Tui
