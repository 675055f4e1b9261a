-- ===== src/Lib.antt =====
-- Verification of the policy, session, rate limiting and retry core of mcp-ssh-tool, an MCP server
-- that runs commands and file operations over SSH.
--
-- A tool call passes the rate limiter (src/rate-limiter.ts), which counts the requests of a key in
-- a sliding window, and then the policy engine (src/policy.ts), which denies or allows the action
-- by its host, user, command, paths and ports; the engine asks the table of dangerous commands
-- (src/safety.ts). src/session.ts keeps the SSH sessions by identifier, with a limit, an expiry
-- and the checks of host keys, and asks the policy before it opens one. An agent on another
-- machine (src/remote) obeys its own policy, and a token's scopes bound what may be asked of it.
-- Commands are quoted for the remote shell by src/shell.ts. Operations that may fail for a while
-- run under src/retry.ts.
--
-- Prelude, StringMap and Text are shared: Boolean tests and lists over the native numbers,
-- JavaScript's Map in insertion order, and texts as lists of character codes with the path
-- functions of Node that the code calls (Text/Split, Text/Posix). RateLimiter models the class of
-- the same name: `create` is the constructor, `check`, `reset`, `get_usage`, `prune_expired_logs`
-- and `destroy` its methods, each with the time as an argument and the new state in its result.
-- Retry models withRetry and calculateDelay; the called function, the clock and the random numbers
-- are arguments, and times are in fractions of a millisecond so that the jitter is a whole number.
-- Policy/Paths, Policy/Ports, Policy/Safety, Policy/Engine and Policy/Evaluate model the functions
-- of src/policy.ts and src/safety.ts, one definition for each guard of `evaluate` in the order of
-- the code.
--
-- HostKeys models the fingerprints, the accept-new memory and the known_hosts file of
-- src/session.ts, and Session its manager: `open_begin`, `open_finish`, `close_begin` and
-- `close_finish` are the parts of openSession and closeSession before and after what they await,
-- Session/Lifecycle has the interleavings of these parts as a step relation, Session/HostVerifier
-- and Session/Auth the choice of the host verifier and of the credentials.
--
-- Remote models the agents' side of src/remote: Remote/Scopes the scopes of a token and their
-- capabilities, Remote/AgentPolicy the profiles and the path rules of src/remote/policy.ts,
-- Remote/Output the bounded output of src/remote/agent-executor.ts.
--
-- Remote/Store models src/remote/store.ts: a table is the list of its rows, Remote/Store/Tables
-- and Remote/Store/Records have one function per method, and Remote/Store/Redeem the tables of
-- secrets that are good for one use, read by Vouchers, Redeemed and Spent as what each secret
-- still allows. Remote/ControlPlane models src/remote/control-plane.ts. State is the object with
-- its maps, its sockets and the answers that it gave; OAuth and Token have the requests of the
-- OAuth flow, Install, Enroll and Policies those on agents, Sockets the hello and the closing of a
-- connection (src/remote/websocket.ts), Actions the dispatch of an action with its result and its
-- timer, Tools the remote tools, Api and Mcp the requests with a bearer token (src/auth.ts,
-- src/remote/crypto.ts), and Messages the messages of an agent. A handler that awaits something
-- outside is two functions, before and after (callback_begin and callback_finish of the GitHub
-- login, dispatch_action and its timer or result), and the record of an agent that a request
-- resolved before it read its body is an argument. Steps is the relation of what can happen, in
-- any order, but for the shutdown and the audit event of a failed authentication; Moves, Answered,
-- Redemption and Once are about its runs. What is drawn at random and the clock are arguments, and
-- the parts of Node that the code calls (SHA-256, URL, Ed25519) are the record External, and the
-- check of a token by the package jose is a function.
--
-- Shell models src/shell.ts, and Shell/Reading says how a POSIX shell reads a quoted word, as far
-- as the quoting needs it, and Shell/Script what the script of a POSIX command is.
--
-- The printing of a number has as much fuel as the number's successor, and each division by ten
-- lowers it, so the fuel is enough; the loop that drops the oldest nonces has as much fuel as
-- there are nonces, and drops one each time; no other definition has fuel: each loop runs over a
-- list or counts down the attempts that are left. Regular expressions (JavaScript's RegExp), the
-- real path of a local file and the working directory are parameters, since they are not code of
-- this repository.
--
-- Numbers of a request are whole and not negative, and options of a retry are left out or have a
-- value; the delays of a retry are exact, and getSession reads the clock once.
--
-- Not modelled: the protocol and HTTP libraries, logging, metrics and telemetry, and the
-- components that serve sessions: transfers, tunnels, the dispatch of a path of the control plane
-- to its handler, its shutdown and the checks of the agent itself.
pub mod Prelude
pub mod StringMap
pub mod Text
pub mod RateLimiter
pub mod Retry
pub mod Policy
pub mod HostKeys
pub mod Session
pub mod Remote
pub mod Shell
