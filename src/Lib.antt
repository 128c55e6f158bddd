-- ===== src/Lib.antt =====
-- sierx, a self-hosted work tracker: its ordering keys, its query language, and the log of changes through which
-- everything is written.
--
-- Items carry a rank, a string by which they are sorted (internal/store/rank.go); a move makes a rank between two others,
-- and a project is given even ranks when one of them grows too long. A filter is a query in a small language, which
-- internal/sxq cuts into tokens, parses and compiles to SQL. Each write goes through a mutation (internal/store/events.go):
-- a callback registers changes with the events that describe them, and the flush (internal/store/mutate.go) numbers the
-- events in a block of a workspace's sequence, applies the changes and recomputes the rollups of the ancestors
-- (internal/store/rollup.go).
--
-- Prelude has what the modules share: lists, bytes, Boolean tests, integers.
-- Rank is internal/store/rank.go: rank_between is RankBetween, with extend its inner and descend its outer loop, and
--   rank_sequence is RankSequence with rank_width, int_pow and rank_encode. A string is its bytes. The index of a byte outside
--   the alphabet is -1, and using it is the outcome `panicked`.
-- Sxq.Utf8 and Sxq.Lexer are internal/sxq/lexer.go: lex is lex, one lex_round is one turn of its loop.
-- Sxq.Syntax, Sxq.Values and Sxq.Parser are internal/sxq/parser.go and aliases.go: parse is Parse, or_expr, and_expr and
--   unary are or, and and unary; a parser takes the index of the next token and gives a value with the index behind it.
-- Sxq.Outcomes says what a well-formed query is. Sxq.Projects is ProjectKeys.
-- Sxq.Compile is internal/sxq/compile.go: compile is Compile, condition_of is the compiler's expr, field, value and param keep their
--   names. A condition is a list of pieces of SQL, in which a placeholder keeps its number.
-- Store.Changes and Store.Events are internal/store/events.go: one function for each method of a Mutation, and `calls` for
--   the calls of a callback.
-- Store.Numbering is the part of flush in internal/store/mutate.go that numbers the events, Store.Rollups is dirtyAncestors of
--   internal/store/rollup.go and isDescendantOrSelf of mutate.go.
-- Store.Database is what the store needs of a transaction: one operation for each statement, on states of any type, which
--   answers with a row or refuses. Store.Flush is applyInsert, applyUpdate, applyReparent, the ranks of new and moved items
--   and applyComment of comments.go; Store.Mutate is flush, Mutate, HardDeleteItem and RebalanceProject. A transaction that
--   fails has no state behind it, since it is rolled back.
--
-- Journal is internal/lifecycle/journal.go: load, append, write_head, recover_checkpoint and init_journal keep their names. A disk is a
--   map from paths to files. A `Device` says where the writing of a record fails, if it does. Journal.Load has load, Journal.Append
--   what writes, Journal.Laws what encoding/json and crypto are taken to do, Journal.Stored and Journal.Extended the invariant of a
--   disk and its journal.
--
-- Auth.Password is internal/api/auth/password.go, Auth.Totp the codes of internal/api/auth/totp.go: code is Code, consume_code is
--   consumeCode, cut into matching_step, its loop, and consume_recovery. Auth.Account has what totp.go does with the row of a
--   user: enroll, confirm, check_second_factor, disable, seal_state and open_state. A `Statements` says which
--   statements of a transaction work. A time is its Unix seconds.
-- Projection.Parse is Parse of internal/api/projection/registry.go, with nearest_name for nearest; Projection.Distance is
--   distance, on the lists of runes.
-- Paging is internal/api/cursor.go: encode_cursor, decode_cursor and page_limit.
-- Workflow is internal/api/workflow.go: update_workflow has the checks of updateWorkflow, one function for each of its loops.
--
-- The lexer's loop has a unit of fuel for each byte and one more; the parser's recursion has 4 n + 4 for n tokens, and
-- a list of values 201 rounds. With this fuel they end like the code's loops.
-- RankBetween may not end at all, so its fuel is an argument.
--
-- Arguments of the model: whether strconv.ParseFloat finds a finite number, the encoder of JSON, the text and the parser of
-- UUIDs and times, the texts of now(), the UUIDs and random bytes that are drawn, digests and ciphers, base64, strings.TrimSpace and, for the
-- names of statuses, strings.ToLower and utf8.RuneCountInString. Floats are not modelled. strings.ToLower is written for ASCII letters and
-- the two others that it lowers to ASCII ones, since the parser compares with ASCII words only; a capital in a field's name
-- that is none of these stays. An error of the parser keeps its kind and position, not its text.
-- A product of ints is kept as its low 64 bits and compared as a signed number; a sequence number is an int64 that the database has allocated and so does not overflow.
--
-- Not modelled: the suggestions of the query language, the SQL statements themselves, the HTTP handlers, and the lifecycle
-- commands; the generated queries and the vendored libraries are other code.
pub mod Prelude
pub mod Rank
pub mod Sxq
pub mod Store
pub mod Journal
pub mod Auth
pub mod Projection
pub mod Paging
pub mod Workflow
