-- ===== src/Lib.antt =====
-- Tiny-IM, an instant messaging server in C++ (src/, inc/).
--
-- A browser connects by WebSocket; `Server` accepts it and makes a `Session`, which reads one JSON
-- message after another and hands each to the one `BusinessHandler`. The handler keeps a map from
-- users to sessions, asks the `Database` (SQLite behind a pool of connections) and sends messages to
-- sessions. All of this runs on one thread, in `io_context::run`.
--
-- Where each part is modelled:
--   Prelude, Prelude.Int      shared names; texts as bytes (`std::string`), `int` as ℤ with its range
--   Decimal                   `std::to_string(int)` and `std::stoi`
--   Message                   inc/Message.h, src/Message.cpp: the record, the tags, the JSON form
--   Database.Schema           the tables of inc/Database.h as lists of rows
--   Database.Pool             the connection pool and the frame of every query in src/Database.cpp
--   Database.Credentials      `generateUUID`, `generateSalt`, `hashPassword`
--   Database.Users            `registerUser`, `setUsername`, `authenticateUser`, `getUserNameById`
--   Database.Friends          `addFriend`, `ackAddFriend`, `removeFriend` and the friend lists
--   Database.Messages         stored, recent and offline messages
--   Database.Calls            every query as a step, for histories of calls
--   Database.Contract         what these calls promise, without rows, pools or connections, and that the
--                             tables refine it
--   Handler                   inc/BusinessHandler.h, src/BusinessHandler.cpp: one function for each
--                             handler, in a monad whose state outlives an exception
--   Handler.Scripts           which calls of the database each message makes, on every path
--   Handler.Presence          who is logged in, as a map from users to sessions: what each event may do
--   Service                   what the handler and the database do for the users together, without
--                             rows, pools and exceptions, and that the handler refines it
--   Session                   src/Session.cpp: the queue of outgoing messages, `send`, `write` and its
--                             completions, as events that the executor orders
--   Server                    src/Server.cpp and the reading side of src/Session.cpp: the session set
--                             and the handler together, over sequences of events
--   System                    Server, handler and the queues of all connections as one state
--   Log                       inc/Log.h: levels, formats, and in Log.Queue the queue between `log` and
--                             the thread of `processEntries`, as a step relation, with `stop`
--   Utils, Config, Program    `split`, `printProcessStats` and the dates of inc/Utils.h; `loadConfig` of
--                             inc/Config.h; set-up and restarts of src/main.cpp
--   Examples                  concrete surroundings, tests, and the theorems applied to them
--
-- What is a parameter: SQLite (`Database.Engine`: whether a file opens, a statement is prepared, a
-- write is done, and the order of rows), nlohmann::json (`Message.Json`), SHA256, the calls of the
-- C library on dates, the random sources, the clock, the value of an uninitialised int, and the
-- order in which a loop visits the session map. What a statement does to the rows is its SQL text,
-- written out over lists. A text is bound to a statement by `c_str()`, so it ends at its first NUL.
-- `x + 1` on an int wraps around at the largest value. A wait on an empty pool is the result
-- `blocked`, since no other thread can return a connection; from there the server, the program and
-- the system take no further step (`none`). A session that is closed writes nothing more.
--
-- Fuel: `Decimal.digits` takes the number itself and one as fuel, and each round divides by ten.
--
-- Not modelled: sockets, TLS and the console themselves; the lifetime of the buffer that `write`
-- passes on and of the members that the logger's thread uses; `getCurrentUnixTimestamp`, which only
-- reads the clock; the front end (front/) and the test client (tests/), which is written for an
-- older `Message`.
pub mod Prelude
pub mod Decimal
pub mod Message
pub mod Database
pub mod Handler
pub mod Session
pub mod Server
pub mod Service
pub mod System
pub mod Utils
pub mod Config
pub mod Program
pub mod Log
mod Examples
