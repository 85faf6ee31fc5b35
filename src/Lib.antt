-- ===== src/Lib.antt =====
-- NetOps Console is a web application with which an administrator scans a private network, keeps an
-- inventory of its devices, and runs diagnostics and commands against them. This library models the
-- parts of it that decide what is allowed and what is kept, in Python's own terms: a function of the
-- program is a function here under its own name, an exception is the error of a `Result`, and a
-- table of the database is the list of its rows in the order of their keys.
--
-- - Prelude: tests, lists, results, signed integers, text and dictionaries. Text that the program
--   walks is a list of code points; text that it only compares is a `String`.
-- - Net: IPv4 networks as ranges of numbers, and the reading of addresses and networks in text, as
--   Python's `ipaddress` does it.
-- - Validation (app/core/validation.py): addresses, networks, scan targets, host names and ports. A
--   message of `ValidationError` is a constructor of Validation/Errors.
-- - Session (app/core/session.py): the keys of the signed session, its lifetimes and its CSRF token.
-- - Middleware (app/core/middleware.py): the CSRF check over the messages of a request's body, and
--   the security headers of a response.
-- - Auth (app/modules/auth): Throttle (throttle.py) counts failures by client address; Service
--   (service.py, dependencies.py, app/core/security.py) checks passwords, locks accounts and admits
--   users to pages; Login (routes.py) puts the two and the session together, for the login (Effects)
--   and for a change of the password (Password).
-- - Discovery/Inventory (app/modules/discovery/service.py): the merge of a scan into the tables of
--   devices, ports and observations: which record a host belongs to (Identity, Rescan), what a scan
--   leaves alone (Kept), and which devices it finds absent (Absence).
-- - Discovery/Scan (the same file): the runs, from the request to the end (Outcome). What nmap answers
--   is a function of its arguments.
-- - Settings (app/modules/settings/service.py, app/core/retention.py): the settings form, how far a
--   scan may reach once it is saved (Reach), and what the retention window deletes (Window).
-- - History (app/modules/history): what differs between two observations of a device, and which of
--   them are events (Events); the timeline merged from every table (Timeline) and the comparison of
--   two scans (Compare), both of service.py; the change log of changes.py with the edits of a device
--   in app/modules/devices/routes.py (Changes).
-- - Redaction (app/core/redaction.py): what is cut out of an output, and what is left (Clean).
-- - Execution (app/core/execution.py): which programs may run, and the permits that bound how many do
--   (Slots). There a run is a step that takes a permit and a step that gives it back; Run is one run
--   from its request to its result, with the process as an argument.
-- - Crypto (app/core/crypto.py) and Ssh (app/modules/ssh/client.py): one command on a device whose host
--   key is trusted. A function returns what it did on the network beside its result, and Offers says
--   to whom a login is offered.
-- - Credentials (app/modules/credentials): the tables of credentials, assignments and host keys, the
--   states they reach (Unique, Reach), the keys that are trusted (Trust) and required (Required), and
--   the pages on which an operator trusts a key (Review).
-- - Diagnostics (app/modules/diagnostics): Builders (builders.py) makes the commands, which the engine
--   accepts (Policy); Http (http_check.py) chooses the address of an HTTP check; Service (service.py)
--   runs a diagnostic and records it (Record).
-- - Actions (app/modules/actions): Schema (schema.py) reads the stored schema of an action, Command
--   checks its template and builds the commands; Shell is `shlex.quote` and a POSIX shell's reading
--   of the line that results; Runs (service.py) checks a definition, and Execute runs it, with the
--   record it leaves (Record) and what it may touch (Scope); Pages (routes.py) stores, switches and
--   deletes definitions, of which only checked ones are kept (Checked).
-- - Records: the label of a device and the duration, which both kinds of record have.
--
-- Modules named Examples hold runs at concrete inputs.
--
-- What a function reads from outside is an argument: the clock, in milliseconds (each host of a scan
-- comes with the reading at its turn), random tokens, and the libraries that the program calls,
-- which are the records Ipv6 and Ipv6Lib (IPv6 text), Unicode (lower-casing and the IDNA codec),
-- Hasher (Argon2), Decoding (bytes of a form), Regex (patterns that an administrator writes), Re
-- (the substitution of patterns), Files (the search of programs), Fernet (the cipher), Asyncssh (SSH) and
-- Web (the resolver and the HTTP client). Which row a query without an order returns first is an
-- argument too. Most of the program's own regular expressions are functions, with a final line feed
-- where `$` allows it. The values of a form are texts.
--
-- Loops are recursion on the list that they walk. One function runs on fuel: the decimal digits of a
-- number `n` (`text_of_int` in Prelude/Text) are given `n + 1` steps, and each step divides
-- by ten. Times and counts are natural numbers without a bound, as Python's integers are; the one
-- `timedelta` that outgrows its bound, of a lockout, is an exception. The numbers of a stored schema
-- are finite.
--
-- Not modelled: pages that only read tables and render templates, migrations, configuration, logging
-- and the administrator's command line, which are glue; the pages that save the settings, that run
-- an action, and that manage credentials beside the trust of a host key, with their entries in the
-- change log; the cipher and the SSH and HTTP protocols,
-- which belong to libraries; the spawning and killing of processes; the texts of messages, of events
-- and of explanations; and so far the latency that is read from the output of a ping, with its effect on the device, the parser of
-- nmap's output and the suggestion of scan targets.
pub mod Prelude
pub mod Net
pub mod Validation
pub mod Session
pub mod Middleware
pub mod Auth
pub mod Crypto
pub mod Redaction
pub mod Ssh
pub mod Credentials
pub mod Discovery
pub mod Records
pub mod Execution
pub mod Actions
pub mod Diagnostics
pub mod Settings
pub mod History
