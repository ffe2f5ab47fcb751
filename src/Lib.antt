-- ===== src/Lib.antt =====
-- A model of olivia, an oracle that announces events and later attests to their outcomes, as it is
-- written in Rust under olivia_core, olivia, olivia_describe and olivia_secp256k1.
--
-- The parts and their files:
--   Base: numbers, lists, texts, results and decimal numbers, shared by all.
--   Path: olivia_core/src/path.rs, `Path` and `PathRef`; a path is its text.
--   Kind: olivia_core/src/event.rs, `EventKind`, its `Display` and `FromStr`.
--   EventId: olivia_core/src/event.rs, the accessors of `EventId`, and descriptor.rs.
--   Outcome: olivia_core/src/outcome.rs, `Outcome`: reading, writing and what is attested to.
--   Event: olivia_core/src/event.rs, `EventId::from_str`, `EventId::predicate` and `Event`.
--   Group: olivia_core/src/group.rs, and the libraries that are called, as interfaces.
--     Group.Secp256k1: olivia_secp256k1/src/lib.rs, its one curve.
--   Announcement: olivia_core/src/announcement.rs and oracle_info.rs.
--   Attestation: olivia_core/src/attestation.rs.
--   KeyChain: olivia/src/keychain.rs.
--   Db: olivia/src/db/mod.rs as an interface; Db.InMemory: olivia/src/db/in_memory.rs, what
--     is written, the queries in Db.InMemory.Query and `get_node` in Db.InMemory.Tree.
--   Oracle: olivia/src/oracle.rs, on any database that satisfies the interface's laws.
--   Node: olivia_core/src/node.rs. Describe: olivia_describe/src/lib.rs, with the tables of names in
--     Describe.Tables, paths in Describe.Paths and HTML in Describe.Html.
--   Sources: olivia/src/sources/mod.rs; Sources.Ticker: olivia/src/sources/ticker.rs; Sources.Streams:
--     what olivia/src/config/config_impls.rs makes of the sources.
--   OracleLoop: olivia/src/oracle_loop.rs and olivia/src/log.rs, which hands what the sources send to
--     the oracle. Db.Read: the events that sources read, also below a path (olivia/src/db/prefixed.rs).
--   RestApi: olivia/src/rest_api.rs and olivia_core/src/http.rs, on any database.
--   Cli: olivia/src/cli/add.rs and olivia/src/cli/derive.rs, the commands on a connected database.
--   Predicates: olivia/src/sources/predicate.rs; Related: olivia/src/sources/complete_related.rs.
--   Tests: the definitions run, and the theorems at concrete inputs.
--
-- How the code is read. A text is the list of its UTF-8 bytes; every cut is at an ASCII character. A
-- call that can fail or panic returns a `Result` with the values ok, err and panic (`unwrap`,
-- `expect`, `assert!` and the overflow checks of a debug build panic). A number of w bits is a natural
-- number below 2 ^ w: where the code converts or subtracts, the bound is tested. A call that changes
-- the database returns the next state beside its result; requests to the oracle are handled one after
-- the other.
--
-- Fuel is in the recursive `EventKind::from_str`, where the recursive call is on a shorter text, so
-- that the length of the text is enough, and in the descriptions, where an equality is on an event
-- that is no equality and a bound is on a price, so that three calls are enough and each event's text
-- is longer than that. `PathRef::is_parent_of` loops over the parents of a path, which are shorter too.
--
-- Parameters of the model: the group (`Group`) or, for secp256k1, the libraries below it (`Curve`),
-- blake2 (`Blake2b`), the time type of chrono (`Chrono`) with its durations and its printing
-- (`Calendar`), its dates (`Dates`), a random number below a bound, and serde_json at the one type that
-- is encoded (`Json`). Their named hypotheses are `IsCorrect` (what was signed verifies), `IsCurve`
-- (points are a group on which scalars act), `IsFaithful` (what was encoded is decoded) and, for a
-- database, `IsDb` (it inserts and completes at most once) or `IsStore` (it may write over what is
-- there, as the UPDATE of olivia/src/db/postgres.rs does).
--
-- Not modelled: the Postgres database (SQL on a server), the routing of the API by warp, Redis, the
-- reading of the configuration and of the command line (input and output), and the conversions of keys
-- to bytes and to serde's formats. The streams of tokio are lists of what they yield, and a wait is a
-- value in the result of a round.
pub mod Base
pub mod Path
pub mod Kind
pub mod EventId
pub mod Outcome
pub mod Event
pub mod Group
pub mod Announcement
pub mod Attestation
pub mod KeyChain
pub mod Cli
pub mod Db
pub mod Oracle
pub mod Tests
pub mod Related
pub mod Predicates
pub mod Node
pub mod Describe
pub mod Sources
pub mod OracleLoop
pub mod RestApi
