-- ===== src/Lib.antt =====
-- op-forward: a daemon on a host runs the 1Password CLI (`op`) on behalf of clients in virtual
-- machines; a proxy in the place of op sends its arguments to the daemon and relays the answer.
--
-- The parts and their files:
--   Version           internal/version/compare.go: Compare, parse, CheckCompatibility
--   Executor/Request  internal/executor/op.go: Request, Validate, the timeout of execute
--   Executor/Path     internal/executor/oppath*.go: checkWindowsImage, ValidateResolvedPath
--   Executor/Run      internal/executor/op.go, exec_pty.go, exec_windows.go: runCommand, interpretRun
--   Executor/Launch   internal/executor/op.go: execute
--   Files             the staged write and rename of SaveToPath, writeTokenFile and replaceBinaryAt
--   Auth/Token        internal/auth/token.go: Token, generate, IsValid, ShouldRenew, Renew
--   Auth/Store        internal/auth/token.go: the paths, SaveToPath, LoadFromPath
--   Auth/Lifecycle    internal/auth/token.go: LoadOrGenerate(Refresh), MigrateLegacyToken
--   OpCheck           internal/opcheck/opcheck.go: Classify (classifyFailure), Buffer (cappedBuffer,
--                     countingDiscard), Locate (Locate, IsShim), Check (check)
--   Endpoint/Address  internal/endpoint/endpoint.go: Parse, String, BaseURL, TCP, IsLoopback
--   Endpoint/Config   internal/endpoint/config.go, cmd/config.go: the settings and their precedence
--   Endpoint/Listen   internal/endpoint/transport.go, transport_unix.go: Listen
--   Endpoint/Peer     internal/endpoint/peercred*.go: PeerUID, peerUID
--   Flags             cmd/config.go: parseFlags, explicitFlags, over Go/Flag
--   Http              the requests, responses and JSON values between daemon and proxy
--   Daemon/Log        internal/daemon/server.go: sanitizeArgsForLog
--   Daemon/Server     internal/daemon/server.go: the handlers, their routing, rejectForeignPeer; the
--                     state and authenticateAccess are in Daemon/Server/State, and the peer of a
--                     connection as Serve finds it in Daemon/Server/Connection
--   Proxy/Tokens      cmd/proxy.go: proxyTokenPath, readToken, writeTokenFile
--   Proxy/Exchange    cmd/proxy.go: executeWithAuth, attemptRefresh
--   Proxy/Run         cmd/proxy.go: runProxy behind its flags and its endpoint
--   Proxy/Command     cmd/proxy.go: the flags and the endpoint of runProxy
--   Install           cmd/install.go: the shim, its version stamp, findRealOp, runInstall; Script has
--                     what the commands of the shim do
--   Doctor            cmd/doctor.go: the types of a report; Describe (describeCLI and its kin), Fold
--                     (foldOpComponents), Shim (checkShim), Tokens (the token files and their
--                     renewal), Health (doctorGet, checkDaemonHealth), DaemonOp (checkDaemonOp),
--                     Run (run and the local checks), Command (runDoctor, resolveRole), Line (its
--                     flags), Printed (printDoctorReport)
--   Serve             cmd/serve.go: runServe; Line has its flags
--   Service           cmd/service.go: the launchd service; Plist has renderPlist and xmlText
--   Update            cmd/update.go: performUpdate, the daemon's restart, waitForHealth; Download has the
--                     release, its assets and the archive of the binary
--   Root              cmd/root.go and main.go: resolveVersion, Execute, the exit code
--   Go                what the program uses of strings, strconv, net and flag
--   Prelude           names of the library, texts, tests on numbers, integers
--   Tests             instances of the parameters and runs of the theorems
-- Functions keep their names in lower case: `handle_execute` is handleExecute. A child module of a
-- part (Version/Order, Daemon/Server/Rotation, ...) holds what is proved about it.
--
-- How the parts interact: Daemon/Server calls Executor/Launch for a command, OpCheck/Check for a
-- health request, Auth for the tokens it keeps, and Version for the client's version. Proxy/Run
-- reads the files that Auth/Store writes, and sends requests over a transport on any state; the
-- daemon's `serve` is one such transport. The shim (Install/Script) runs Proxy/Command and, where that
-- ends with 127, the real op. A request to the daemon is one step on `Server`, since
-- the token exchange holds the mutex of the server throughout; the probe of op is two steps,
-- between which other requests are served (Daemon/Server/Probes).
--
-- The other commands are compositions of the same parts: Serve of Auth/Lifecycle, Auth/Store and
-- Endpoint/Listen; Update and the token files of Doctor of Files; Doctor of Proxy/Exchange, over the
-- same transports, of OpCheck/Check on a host and of the shim that Install writes; Root turns what
-- a command returns into the exit code. A command that can stop at several points returns the disk
-- as it is left there, with the error.
--
-- Choices: a text is the list of the runes of a valid UTF-8 string, and `byte_len` counts its bytes.
-- Integers of the program are exact unless an operation can leave 64 bits; there the wrap-around
-- is written out (`milliseconds`) or the bound is tested (`atoi`). Instants and durations are
-- nanoseconds. All recursion is on lists or numbers. Two functions have fuel: `digits`, for which
-- Go/Strconv/RoundTrip shows it to be enough, and `poll` of Update, whose rounds are the timeout
-- divided by the sleep and two more, enough by Update/Waiting. A disk maps paths to contents, and
-- each write takes the outcome of its system calls as an argument, so that every failure is
-- covered.
--
-- Parameters: encoding/json, RFC 3339, filepath, net.ParseIP, the file system's answers, the started
-- processes, the random bytes and the clock. Their laws are records (IsJson, IsRfc3339,
-- IsCleaning, IsRandom), and Tests/Fixtures has an instance of each that a theorem asks for.
--
-- The network, the release's JSON, gzip and tar, pgrep, signals and launchctl are parameters too: a
-- fixed answer where the code asks once, a function of the round or of the arguments where it asks
-- more often.
--
-- Not modelled: the usage texts; the wording of the proxy's notices and of the daemon's log, and the
-- JSON form of a doctor's report; sockets, ptys and the termination of a process, which are system
-- calls; the redirects with which ServeMux answers a path that is not clean, so that the paths of the
-- requests are clean ones; the text of the error for a body above one MiB whose JSON value ends
-- earlier, whose status is 400 as well; and that Windows has no Unix sockets, so that
-- Endpoint/Listen is about the other platforms. What op prints is trimmed and lowered as text,
-- which agrees with the code's bytes where they are valid UTF-8.
pub mod Prelude
pub mod Go
pub mod Version
pub mod Executor
pub mod Files
pub mod Auth
pub mod OpCheck
pub mod Endpoint
pub mod Http
pub mod Flags
pub mod Daemon
pub mod Proxy
pub mod Install
pub mod Doctor
pub mod Serve
pub mod Service
pub mod Root
pub mod Update
pub mod Tests
