-- ===== src/Lib.antt =====
-- The core logic of the Qt Application Manager, with proofs.
--
-- The application manager is a daemon that installs packages, starts the applications in them,
-- and lets applications talk to each other by intents. The parts that are modelled:
--
-- IntentServer (src/intent-server-lib/intentserver.cpp, intentserverrequest.cpp) takes a request
--   from an application, looks up the intents that match, asks the System UI to choose when there
--   are several, starts the application that handles the intent, forwards the request, and sends
--   the reply back. State is the server's members and the request; Registry is addPackage,
--   addApplication, addIntent and their inverses; Routing is the filters and requestToSystem;
--   Process is processRequestQueue, a stage at a time; Answers is internalDisambiguateRequest;
--   Events is applicationWasStarted, replyFromApplication, the three timeouts, and `step`, the
--   calls that reach the server from its event loop; Histories mixes these with new requests.
--   Queues hold addresses of requests, as the source's queues hold pointers, and `isr` is the
--   heap. A call that would dereference a null pointer is `none`. A server is in order (Invariant) when every request is held once at most,
--   by a queue or for its deletion, and in a state that fits the queue.
-- IntentClient (src/intent-client-lib/intentclient.cpp, intentclientrequest.cpp) is the other
--   end, in an application: it sends requests, waits for their replies, and hands the requests
--   that come in to handlers. State has one request and the client, Client has the operations,
--   each as a call on the client's thread.
-- Intent (src/intent-server-lib/intent.cpp) is one intent, with checkParameterMatch.
--
-- PackageManager (src/manager-lib/packagemanager.cpp, asynchronoustask.cpp, package.cpp, and the
--   control of installationtask.cpp and deinstallationtask.cpp) runs the installer's tasks one
--   after the other and keeps the packages' states. Task is one task; Queue is enqueueTask,
--   executeNextTask, cancelTask and the queries; Events is the slots of a task's signals and
--   `step`, what reaches the manager; a task's `phase` says how far its thread is. A manager is
--   in order (Holding) when each task is in the list that fits its phase. Package is one package;
--   Installing is startingPackageInstallation, startingPackageRemoval, finishedPackageInstall and
--   canceledPackageInstall; Names is validateDnsName. The signals of a thread are delivered when
--   it emits them, and assertions are left out.
-- QuickLauncher (src/manager-lib/quicklauncher.cpp) keeps containers and runtimes that are
--   started ahead. Pool has its operations: rebuild, checkFailedStarts, removeEntry, take and
--   shutDown; Crashing is the slot for a container process that has finished; Growing and
--   Counting are about what becomes of an entry's cars and failures.
--
-- Notifications (src/manager-lib/notificationmanager.cpp) hands out ids, shows notifications,
--   replaces and closes them, and runs their timers. State has one notification and the manager;
--   Manager has the operations, and `step`, the calls that reach the manager; a call that
--   `notifyHelper` posts waits in `pending`.
-- Installer (src/manager-lib/scopeutilities.cpp, deinstallationtask.cpp, and recursiveOperation
--   of src/common-lib/utilities.cpp) moves and removes the directories of a package. Files has
--   the calls of the operating system, any of which may fail, and recursiveOperation; Renamer is
--   ScopedRenamer; Deinstallation is DeinstallationTask::execute, which calls PackageManager's
--   Installing and then renames, and whose destructors rename back when it fails.
-- Starting (src/manager-lib/applicationmanager.cpp, application.cpp, debugwrapper.cpp,
--   runtimefactory.cpp) starts and stops applications. State is what the manager reads and the
--   calls it makes of others, the script function that selects a container included, newest
--   first; Launch and Start are startApplicationInternal, a part at a time, where the parts after
--   the checks return the descriptors that nobody took over, and RuntimeFactory::create; DebugWrapper is parseSpecification; Stopping is stopApplication,
--   stopAllApplications and shutDown, with the ends of the runtimes.
--
-- Parameters of the models: VariantOps is what QVariant does (toString, canConvert, operator==)
-- and the regular-expression match of a string; World is what the intent server asks of its
-- system interface during one call, with the answers that receivers of its signal give from
-- within the signal; Alloc is what `new` and QUuid::createUuid return; the quick launcher's World
-- is what the factories create, and the time; Starting's World is what the factories, the quick
-- launcher, the plugins, the configuration and its script function answer during one start;
-- `reads_report` is whether an installation report can be read; `split` is QString::split;
-- HintOps is what QVariant does for hints; FileSystem is the operating system's calls on files,
-- with what POSIX says of rename(2) as FileLaws. A QMap is its list of entries in key order.
--
-- Models and bounds: loops over lists are recursion on the list, so no fuel is needed; the event
-- loop is a list of events of any length. The only loop without a bound is the wait of a removal
-- for its applications: without a cancellation or their end it has no result. Notification ids
-- wrap at 2 ^ 32. Other numbers are unbounded: the source counts and compares small ones, and
-- times in milliseconds; the quick launcher's interval in seconds is at most 2147483, so that its
-- milliseconds fit an int.
--
-- Not modelled: the window manager, the monitoring, the configuration, the package and application
-- libraries and the tools; logging, the QAbstractListModel and QML sides of the managers, and the parts of
-- the program that only call the operating system (containers, runtimes, the compositor, D-Bus).
pub mod Installer
pub mod Intent
pub mod IntentClient
pub mod IntentServer
pub mod Notifications
pub mod PackageManager
pub mod Prelude
pub mod Qt
pub mod QuickLauncher
pub mod Starting
