-- ===== src/Lib.antt =====
-- A model of pve-agent, the Proxmox VE library of this repository, and what is shown of it.
--
-- The parts that are modelled, and how they meet:
--   - Console: the VNC side of a guest's console. `Console/Rfb` has the messages of RFB 3.8
--     (src/console/rfb.ts): a parser takes the bytes received so far and gives a value with its
--     length, the number of bytes it needs, or an error (parseRectangle is `parse_rectangle`).
--     `Console/Des` is src/console/des.ts, the cipher of the password challenge. `Console/Vnc` is
--     src/console/vnc.ts: `Surface` has class Framebuffer, `Session` the fields of class VncSession
--     and the monad of its methods (a state, a throw that keeps what was changed before it, and logs
--     of what is sent and emitted), `Receive` the protocol steps and the loop that runs them on the
--     bytes that arrive, `Input` what a caller does (keys, pointer, clipboard). `Console/Pixels` is
--     src/console/framebuffer.ts, on the snapshots of a session, with src/console/match.ts in `Match`.
--     `Console/Pty` is src/console/pty.ts, the frames of a terminal websocket.
--   - Shell: command lines. `Shell/Escape` is src/shell/escape.ts (shQuote is `sh_quote`).
--     `Shell/Policy` is src/shell/policy.ts: `Segments` splits a line into segments, `Words` a
--     segment into words, `Wrappers` takes off sudo and its like, `Commands` puts the commands of a
--     line together, `Regex` has the regular expressions as data with a test, `Patterns` the
--     destructive patterns in them, `Decision` class CommandPolicy. `Quoting` and `Decides` are about
--     both. `Shell/Termproxy` is class TermproxyTransport of
--     src/shell/termproxy.ts, a session as a record and what happens to it as steps, with `Output` for
--     the marks around a command's output; it sends by `Console/Pty` and quotes by `Shell/Escape`.
--   - Core: `Values` is src/core/values.ts, `Upid` the identifiers and rows of src/core/tasks.ts,
--     `Props` src/core/props.ts (property strings, with `Names` for sizes and indexed names, `Parts`
--     for reading and validation, `Writer` for serialising), `Poll` the loop of src/core/poll.ts.
--     `Credentials` is loadCredentials of src/core/auth.ts and `Auth` its class PveAuth, `Registry`
--     is resolveEndpoint of src/core/schema.ts, `Privileges` is src/core/privileges.ts, `Errors` the
--     errors of src/core/errors.ts. `Client` is src/core/client.ts, which uses all of these:
--     `decide_tier` and `check_decision` choose a credential, `Encoding` and `Headers` make the call,
--     `request` sends it and tries once more after a login, `Envelope` reads the answer. A method
--     that changes the kept ticket or sends is a computation of `Base/Exec` on the record `Wire`.
--   - Base: lists, strings, decimals, throws and byte buffers, shared by all, and in `Exec` the
--     computations that change a state and may throw, with the rules by which they keep a predicate.
--
-- How the code is read. A string is a list of UTF-16 code units, a Buffer a list of bytes. A throw
-- is `throw` of `Base/Throws` with a data type of errors in place of messages. Numbers are natural
-- numbers; sizes that JavaScript holds as doubles are exact, a threshold of colors is the exact
-- value of its double and is rounded as doubles are, a coordinate that may be negative is an
-- integer, and a finite decimal is a pair of digits and scale. A property of an object literal that
-- every object inherits is written out where a lookup can reach it.
--
-- What the client is given. The server answers a message by the number of messages before it, the
-- clock by the number of its readings; `JSON.parse`, `String(value)`, `Number`, the form encoding,
-- the generated tables of endpoints, base64 and UTF-8 are arguments, and nothing is assumed of
-- them. One caller runs at a time. Headers are a list in the order of insertion, which `set_header`
-- and `assign_headers` change as a JavaScript object changes by an assignment and by
-- `Object.assign`.
--
-- Fuel. `receive_loop` has one round more than there are bytes: a round consumes one at least, and
-- `receive_rounds` takes what stands for a run that is cut off as an argument. The search of
-- `heredoc_word` has one round more than there are lines: the words it tries are distinct.
-- `poll_until` takes its rounds as an argument, and answers nothing when they do not suffice. The
-- rounding in `to_double` tries the eight units that a product with 255 can need. `print_nat` has
-- one round more than the number: it is divided by ten. `frames_from` has one round for each byte.
-- The nesting of scripts under `sh -c` is bounded by 4 and the chain of wrappers by 8 in the source
-- itself.
--
-- Not modelled: connect and waitForUpdate of the session, waitForScreen, scaleFrame, the calls of
-- the API in src/core/tasks.ts, sleep (pollUntil takes whether a wait is aborted as a test),
-- src/core/http.ts, the sharing of a login between concurrent callers, the trace callback and the
-- abort signal of a request, the reading of property formats in src/core/schema.ts, upload,
-- download and the opening of the socket in src/shell/termproxy.ts, and all of src/access,
-- src/cluster, src/node, src/guest, src/guest-os, src/pve, src/generated, src/console/terminal.ts
-- and the other shells, which run on processes and sockets: requests, timers, processes and
-- generated tables.
pub mod Base
pub mod Console
pub mod Shell
pub mod Core
