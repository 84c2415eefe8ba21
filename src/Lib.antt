-- ===== src/Lib.antt =====
-- Yaffle: a log server that receives GELF and syslog messages over UDP and stores them in Quickwit.
--
-- The program has one task for each of its two sockets, which decodes packets and sends messages
-- down a channel, and an ingest loop that takes the messages in batches, turns them into documents
-- and posts them to Quickwit. A derive macro makes the documents' columns from the attributes of a
-- struct. The modules follow the files:
--
--   Gelf        yaffle-server/src/gelf.rs. Packet is `classify`, Chunks is `assemble_chunked` with
--               the two maps that it keeps, Parse is `parse_packet`, RecvLoop is `run_recv_loop`
--               with the expiry tasks, as a step relation on packets and expiries; its children
--               follow a chunked message and an expiry task through the loop.
--   Syslog      yaffle-server/src/syslog.rs. Parsers has one definition for each parser of the
--               file, RecvLoop is `run_recv_loop`; Number is `str::parse` on unsigned integers,
--               Facility the byte of a priority.
--               Schema.Line follows a packet of syslog up to its document.
--   Macros      yaffle-macros/src/lib.rs. Attributes is the reading of the attributes, Expr the
--               generated expressions as data, Mapping the field mappings, with the types of
--               yaffle-server/src/quickwit.rs and their JSON objects, Tantivy the schema beside
--               them, Display the texts of the columns.
--   Schema      yaffle-server/src/schema.rs. Fields is `struct Document` with its attributes, Convert
--               the conversions, Build the evaluation of the generated code on a message, Types what
--               the compiler accepts of that code. A document is the list of its columns by name.
--   Server      yaffle-server/src/main.rs. Index is `get_or_create_index` and the loop of `run_server`
--               that waits for it, Ingest is `ingest_loop` on a sequence of batches, Pipeline the
--               receive loops, their channels, the merged stream and its batches, as a step
--               relation. Run is `run_server` over these three, again as a step relation, and Main
--               is `main` over Run: the receiver's task, the shutdown channel and the HTTP server.
--               Search is the table that `search` makes of the hits, with Search.Service the
--               request and its errors; Setup is what `main` reads and opens.
--   App         app/src/lib.rs: the page's parameters and the query of its search, which
--               `build_search_uri` of main.rs makes; Columns is the set of shown columns, Cookies
--               the cookie that keeps it, Page the cells of the table, SearchPage the page as a
--               whole, for a search that is awaited, has failed or has a table. ErrorTemplate is
--               app/src/error_template.rs.
--   Base        what the program uses of the Rust standard library: Result, HashMap as an
--               association list, HashSet as a quotient of lists, UTF-8, `split` and `join`. Text
--               is a list of bytes.
--   Tests       runs at concrete inputs.
--
-- Other crates are parameters: bytes, flate2 and serde_json in Gelf.Crates, nom in Syslog.Nom with
-- the documented behaviour of its combinators on what they leave and read, chrono in Syslog.Chrono,
-- serde_json, floating point and chrono in Schema.Convert, with the ranges of their types in
-- Schema.Types, hyper in Server, url and serde_json in Server.Search.Service, listenfd, tokio
-- and clap in Server.Setup, cookie in App.Cookies, the error boundary of leptos in App.SearchPage.
-- Server.Run gathers those that the server uses in one record; Quickwit may answer each attempt to
-- make sure of the index, and each batch, in another way. The laws are fields of these records, and
-- Tests has a concrete instance of each.
--
-- `parse_packet` calls itself on an assembled message. It runs on fuel, and the bytes that the maps
-- hold and the packet brings are enough, since an assembled message leaves the maps. The other loops
-- are structural. Integers are natural numbers; a `u8`, `u32` or `u64` is bounded where it is read.
-- `ℤ` of Schema.Convert is an `i64`, and `timestamp_nanos` of chrono may give none, by a panic.
--
-- The receiver and the searches share the settings behind a lock. A panic while the lock is held
-- poisons it, and the next `lock().unwrap()` panics too: Server.Run has the lock as a flag, Stop of
-- Server.Ingest the two ways in which the receiver ends, and Server.Main what follows for `main`.
--
-- Not modelled: logging, the inside of sockets and channels, the JSON text of documents, the requests
-- that the HTTP server has open and its routes, the markup of the pages, and the entry point in
-- frontend/src/lib.rs, which are calls of other crates.
pub mod Base
pub mod Gelf
pub mod Syslog
pub mod Macros
pub mod Schema
pub mod Server
pub mod App
pub mod Tests
