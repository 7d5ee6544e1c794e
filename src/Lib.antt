-- ===== src/Lib.antt =====
-- The console of EmberVM, web/src, and the rules of the control plane that it mirrors.
--
-- EmberVM runs sandboxes in microVMs. The control plane (pkg/controlplane, Go) offers a REST interface
-- under /v0; the console (web/src, TypeScript and React) is its operator's view. This library models the
-- console's own logic, which stands in its module-level stores and in the functions that its pages
-- call, and, where the console mirrors the server, the server's rules too.
--
-- Parts and files. Each file of this directory opens with the code that it is about.
--   * Term: web/src/lib/term.ts. `World` is the module's state with its heap of session objects, its
--     sockets and its timers; Term/Connect has connect, scheduleReconnect and the socket's callbacks,
--     Term/Manager the methods of TermManager, Term/Event the steps. The proofs stand in
--     Term/Invariant, Timers, Frame, Members and Reach.
--   * Toast: web/src/lib/toast.ts, push, dismiss and the timers.
--   * Files: web/src/lib/files.ts, the paths, the binary guard and, in Files/Language, the language of a
--     name. FilesTab: the editor of web/src/pages/workspace/FilesTab.tsx, which uses that guard;
--     FilesTab/NewFile has the paths of its dialog for a new file and of an upload, and FilesTab/Tree the
--     tree of web/src/components/tree.tsx, with the rows in Shown and the keys in Keys.
--   * Geometry: web/src/lib/geometry.ts; Geometry/Dialog is the form of
--     web/src/components/createSandbox.tsx, Geometry/Created its report of the new sandbox, and
--     Geometry/Server the checks of pkg/controlplane/server.go and defaults.go on the request that the
--     form sends.
--   * Health: web/src/lib/health.ts, the rings of samples and who listens to them.
--   * Api: web/src/api. Api/Client is client.ts up to the formats, Api/Format and Api/Token the rest;
--     Api/Polling and Api/Optimistic are hooks.ts; Api/Calls has the requests of hooks.ts and of
--     files.ts, proxy.ts, health.ts and term.ts, and Api/Routes the routes of Handler in pkg/controlplane/server.go that answer them.
--   * Shortcuts, Proxy, I18n and ResourceEvents: the files of these names in web/src/lib.
--   * SplitPane and Status: web/src/components/split.tsx and status.tsx. Charts: charts.tsx there, with
--     the scale in Bounds, the pointer in Nearest and the series and the gauges
--     of OverviewTab.tsx in Series and Gauges. Dialog: the dialog of ui.tsx there.
--   * Lifecycle: pkg/lifecycle/machine.go, the legal transitions; Lifecycle/Writes is what the handlers of
--     pkg/controlplane/server.go write to a row's state, Lifecycle/Verbs the states that they accept.
--   * Actions: which verbs the pages offer in which state, and in Actions/Mutations what they show before
--     and after the answer. Resources: the resize panel of web/src/pages/workspace/OverviewTab.tsx, with
--     the server's checks in Resources/Server and its retry after a migration in Resources/Retry.
--   * Fleet: the list of web/src/pages/Sandboxes.tsx. Events: the lists of events of several pages.
--     Preview: PreviewTab.tsx. Term/Tab: TerminalTab.tsx. Shell: signing in and out, App.tsx, Login.tsx;
--     Shell/Routed is the error boundary with the key that App.tsx gives it.
--   * Pages: Storage.tsx, Nodes.tsx with the bars of web/src/components/ui.tsx, Templates.tsx and the sums
--     of Overview.tsx; Pages/Overview is its legend with the grid of the fleet.
--   * Workspace: the frame of Workspace.tsx; Workspace/Palette is web/src/components/palette.tsx, and
--     Workspace/Placement the card of SettingsTab.tsx that migrates, with the server's choice of a node;
--     Workspace/Composer the command field of CheckpointsTab.tsx, and Workspace/TimeTravel that tab.
--   * Prelude: lists, texts, dictionaries and integers that these share.
-- The parts meet where the code calls across files: the files tab calls the guards of files.ts, the
-- dialog the check of geometry.ts, whose request the server's check answers, and every request of
-- the hooks goes through the client to one of the server's routes. What the pages offer is compared with
-- what the server's verbs accept, and what the resize form sends with the server's checks; the shell uses
-- the client's 401 and the proxy session, and the terminal tab the sessions of Term.
--
-- Conventions. A module-level store is a record, a callback or method a function from state to state,
-- and the events that can reach a store are a data type with a `step`; timers, sockets and requests that
-- are under way are part of the state, and an answer or a timer may come in any order. Texts that the
-- code walks are lists of code units. Request numbers that may be negative are the integers of
-- Prelude/Ints; other numbers are natural numbers, and a difference that the code lets fall below 0 is
-- written out. No loop of the models runs on fuel, except `looksBinary`, whose loop is bounded.
--
-- Abstractions. A session's id and title are given by their number; a terminal starts with xterm's
-- default size; the random part of a delay is a number of an event. Listeners are counted, or listed
-- where their identity matters. A gauge's percentages are given times the gauge's maximum. A formatted
-- text is given by its number and unit, or by the strings that are concatenated. Third-party code is a
-- parameter with its documented behaviour (TanStack's cache, JSON.parse, btoa, TextDecoder).
-- `Array.prototype.sort` is a stable insertion sort; a quotient is compared as an exact fraction, and a
-- width in percent is given times its scale. The values of a chart are natural
-- multiples of a unit, `one` of which make 1, and the ends of its scale are given plus 1, since they may
-- be as low as -1. The listings of a guest's directories are fixed while the tree is shown. The resize
-- panel's number field holds integers. In Lifecycle
-- the state of a row is also the state of the machine on its node.
--
-- Not modelled: the markup, the paths of the charts' SVG with it; the lists of a sandbox's values; the
-- rounding of floating-point numbers, where a quotient is exact here; the Go services beyond the checks,
-- the verbs and the table of routes; and the generated bundle.

pub mod Actions
pub mod Api
pub mod Events
pub mod Files
pub mod FilesTab
pub mod Fleet
pub mod Geometry
pub mod Health
pub mod I18n
pub mod Lifecycle
pub mod Pages
pub mod Prelude
pub mod Preview
pub mod Proxy
pub mod ResourceEvents
pub mod Resources
pub mod Shell
pub mod Shortcuts
pub mod SplitPane
pub mod Status
pub mod Term
pub mod Toast
pub mod Workspace
pub mod Charts
pub mod Dialog
