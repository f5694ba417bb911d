-- ===== src/Lib.antt =====
-- ChromeDriver: the standalone server that implements the WebDriver protocol for Chrome, by
-- commands of the DevTools protocol.
--
-- The program. An HTTP server (server/http_server.cc) gives each request to `HttpHandler`
-- (server/http_handler.cc), which finds the command in a table by method and path and runs it on
-- the thread of its session; the result comes back as a `Status` (chrome/status.h) with a JSON
-- value and becomes a response. A session may end with a command. The handler also accepts web
-- sockets, which it binds to sessions, and passes the BiDi commands that arrive over them on. A
-- session owns a web view, which speaks to a target of the browser through a DevTools client; the
-- client tells its listeners every event. Two of these listeners are the navigation tracker, which
-- says whether a page still loads, and the frame tracker, which knows the execution contexts and
-- the child targets of a page. How a dialog is handled that a command meets is given by the
-- capability `unhandledPromptBehavior`. A client can send its commands through a tunnel: the BiDi
-- mapper, a script in a page of its own. Text that a test types is turned into events of a
-- keyboard.
--
-- The files.
-- - Base: the names, tests and lemmas that the files share.
-- - Status: chrome/status.h and chrome/status.cc. The codes are the constructors of StatusCode; a
--   status is a record of its code and its message. Status/Codes has the lemmas on codes.
-- - Result: a function that returns a Status and writes an output parameter.
-- - Values: the operations of base::Value and base::Value::Dict that the code calls, with their
--   laws.
-- - Dictionary: std::map and std::unordered_map as association lists, with the laws of a lookup.
-- - PromptBehavior: prompt_behavior.h and prompt_behavior.cc. Requested says what a capability asks
--   of a dialog type, with the words and the flag read by the same tables as the code; Create,
--   Legacy and Views are about Create, GetConfiguration and the two views.
-- - NavigationTracker: chrome/navigation_tracker.h and chrome/navigation_tracker.cc. The file has
--   the state, OnConnected, SetFrame and OnEvent with UpdateCurrentLoadingState; Commands has
--   IsPendingNavigation, CheckFunctionExists, IsNetworkError and OnCommandSuccess. Pointers and
--   Runs are about `loading_state_`, Pending about the answer of IsPendingNavigation, Frames about
--   the events of frames, and Navigations about OnCommandSuccess.
-- - PageTracker: chrome/page_tracker.h and chrome/page_tracker.cc; Locked is about the pages that
--   are locked.
-- - FrameTracker: chrome/frame_tracker.h and chrome/frame_tracker.cc, with CreateChild and the lock
--   of WebViewImplHolder of chrome/web_view_impl.cc. Events has OnEvent; Known, Locks and Contexts
--   are about the lookups, the locked views and the execution contexts.
-- - Dialogs: the JavaScript dialogs of chrome/devtools_client_impl.cc. Alerts has
--   alert_commands.cc; Queues is about the queues of the client, and Texts about the text for a
--   prompt.
-- - DevTools: the rest of what is modelled of chrome/devtools_client_impl.cc. Messages has
--   ParseInspectorMessage with the tunnel through the BiDi mapper, Errors has ParseInspectorError,
--   and Tunnel the text of a command; Transparency and Asks are about the two directions of the
--   tunnel. Commands has SendCommandInternal, ProcessCommandResponse and the end of ProcessEvent,
--   cut where messages are awaited; Pending has the invariant of the table of responses, Awaiting the steps and what a command is told, and Answers where its result comes from. Notify has the listeners and the loops that call
--   them, and Order is about them. Routing has ProcessNextMessage, HandleMessage and
--   HandleEventsUntil.
-- - FedCm: chrome/fedcm_tracker.h and chrome/fedcm_tracker.cc; Commands has fedcm_commands.cc with
--   GetFedCmTracker of chrome/web_view_impl.cc, and Closing is about the dialog that is left.
-- - KeyConverter: key_converter.cc with the key events of chrome/ui_events.h and
--   chrome/ui_events.cc. Tables has the tables, Keys has ConvertKeysToKeyEvents, and Held and
--   Sticky play its events on a keyboard; Actions has ConvertKeyActionToKeyEvent, and Pressed is
--   about it.
-- - HttpHandler: server/http_handler.h and server/http_handler.cc. Routing has Handle,
--   HandleCommand and MatchesCommand, Paths is about patterns, and Routes about what they do; Response has PrepareStandardResponse
--   and PrepareLegacyResponse, and ErrorCodes and AlertText are about them (Text has the operations
--   of std::string); Connections has the handlers of the web sockets, and Buckets, Bindings, Steps
--   and Closes are about the two maps; Messages has OnWebSocketMessage, ParseBidiCommand and
--   SendResponseOverWebSocket, and Replies what they do.
-- - WebView: IsNotPendingNavigation of chrome/web_view_impl.cc, over the two trackers and the
--   dialogs; Waits is about its answer and the response that an open dialog leads to.
-- - Sessions: Channels has ForwardBidiCommand of session_commands.cc, PostBidiCommand of
--   chrome/devtools_client_impl.cc, chrome/bidi_tracker.cc, and SplitChannel and OnBidiResponse of
--   session.cc; Delivery, Suffixes and Trip are about the way of a BiDi command and of its
--   response. Frames has the frames of a session.
-- - Windows: ExecuteWindowCommand of window_commands.cc. The web view is the interface `View`; the
--   dialogs and the frames are those of Dialogs and Sessions/Frames, and the configuration that of
--   PromptBehavior. Runs, Retries and Prompts are about the status that is reported, the attempts,
--   and an open dialog. Cookies and Print have the commands on cookies and the parameters of
--   ExecutePrint; Handles has ExecuteQuit, ExecuteClose, ExecuteGetWindowHandles and
--   ExecuteSwitchToWindow of session_commands.cc. Their child modules have the proofs.
-- - Dispatch: ExecuteSessionCommandOnSessionThread of commands.cc,
--   NotifyCommandListenersBeforeCommand of util.cc, and the end of a session in session.cc, over
--   the interface `Chrome`; Endings and Replies are about when a session ends and what is told of
--   it.
-- - Capabilities: GetW3CSetting, MergeCapabilities, MatchCapabilities and ProcessCapabilities of
--   session_commands.cc. Merged and Keys are about the capabilities that are chosen and what they
--   have.
-- - Timeouts: the timeouts of a session in session_commands.cc, with GetOptionalSafeInt of util.cc;
--   Legacy has those of the legacy protocol. Reported and Bounds are about what is reported after
--   they were set.
-- - Examples: concrete inputs.
--
-- The correspondence. A method that changes its object is a function that returns the new object.
-- What the browser replies, and the events that a command delivers to the trackers while it waits
-- for the reply, are arguments: an event carries the replies to what its handler asks, and these
-- carry events in turn. So re-entrant calls are calls on smaller arguments, to any finite depth.
-- The loops of OnCommandSuccess and of ExecuteWindowCommand make three attempts, as in the source;
-- the loops over the listeners of a client run on fuel, of which the length of the queue is enough,
-- since every call takes a listener out of the queue that nested loops share; the loop of
-- HandleEventsUntil, which has no bound of its own, runs for a number of rounds and says whether it
-- goes on; every other loop runs over a list or a tree. Commands that wait in nested message loops
-- are a sequence of steps: sending, receiving, marking as blocked, finishing and giving up, in any
-- order. What is posted to another thread or sent is a value in the result. A failed CHECK is a
-- value too. JSON, URL decoding and text operations of //base, //url and std are parameters, as are
-- the command table and the keyboard layout. The bits of KeyModifierMask are Booleans, and the key
-- codes of //ui are names.
--
-- Not modelled. The stack traces of a status; the trackers of other views that change while an
-- event of one tracker is handled; logging; the time that a call may take. What the window commands
-- ask of the page, and the element commands; the creation of a session; the counters of the
-- commands that go to all sessions, and the threads; Capabilities::Parse but for
-- `unhandledPromptBehavior`; the set-up of clients, and the rest of the web view; the launching of
-- Chrome, devices, sockets and pipes, and the scripts that run in the page: they are separate
-- parts, or input and output, or not in the language of the driver.
pub mod Base
pub mod Dictionary
pub mod Values
pub mod Status
pub mod Result
pub mod PromptBehavior
pub mod NavigationTracker
pub mod PageTracker
pub mod FrameTracker
pub mod Capabilities
pub mod Dialogs
pub mod Dispatch
pub mod DevTools
pub mod FedCm
pub mod HttpHandler
pub mod KeyConverter
pub mod Sessions
pub mod Timeouts
pub mod WebView
pub mod Windows
mod Examples
