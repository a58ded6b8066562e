-- ===== src/Lib.antt =====
-- A verification library for sfworkflowd, the daemon of a repair shop for arcade machines.
--
-- The daemon keeps users, sessions, machines and repair requests in one SQLite database. Three
-- services work on it (internal/auth, internal/machines, internal/repair), and the JSON routes of
-- internal/httpapi call them.
--
-- The parts and their files:
--   Common, Common/*       Boolean tests, lists, integers, texts and results that all parts use
--   Sql, Sql/*             what the statements of the sources use of SQL: WHERE, COUNT, UPDATE, DELETE,
--                          ORDER BY, COLLATE NOCASE and LIKE, on lists of rows
--   Db                     the tables of internal/db/migrations/0001_init.sql
--   Db/Exec                a method as a program of atomic statements, and its uninterrupted run
--   Db/Threads             callers at the same time: a schedule says whose statement is next
--   Db/Keeps, Spends,      invariants that every step keeps, a supply that winners use up, a run that
--     Posts                leaves a property behind
--   Db/Takes, Progress     how many steps a program makes; callers that get enough turns come to an end
--   Db/Migrations,         internal/db/db.go: Open, and the migrations that it runs; Setting has the
--     Migrations/*         embedded files and SQLite
--   Db/Keys, Unique        AUTOINCREMENT, UNIQUE and REFERENCES
--   Auth, Auth/*           internal/auth/auth.go: accounts, roles, passwords, sessions; Auth/Tables has
--                          the statements, Auth the methods, named as in the source
--   Machines, Machines/*   internal/machines/machines.go: the registry and its type-ahead search
--   Repair, Repair/*       internal/repair/repair.go (Repair/Tables and Repair) and states.go
--                          (Repair/States): requests and their workflow
--   Http, Http/*           internal/httpapi: the middleware, the handlers, the routes and the cookies
--   Http/Mux, Mux/*        the patterns of server.go and the ServeMux of net/http on them
--   Http/Server, Server/*  a request from its method and path to the reply
--   Web                    internal/web/web.go: the embedded frontend behind the routes
--   Config, Config/*       internal/config/config.go: Load, and UpdateDisplayName through a temporary
--                          file
--   Daemon, Daemon/*       cmd/sfworkflowd/main.go: the start, the wipe of sessions after a deploy, on
--                          internal/nodestate, the purge beside the requests, the stop
--   System, System/*       the three services on one database
--   Tests, Tests/*         runs on a small database
--
-- How the code is read:
--   * A method is a tree of steps. A step is one SQL statement, one reading of the clock or one of the
--     random source. internal/db opens one connection (SetMaxOpenConns(1)) and no method holds a
--     transaction, so statements are atomic and other callers may run between any two of them.
--     Theorems on schedules hold for every interleaving; those on `outcome` and `run` are about a
--     method that nothing interrupts, and say so.
--   * A statement is a function on the whole database. It applies the constraints of the schema (keys,
--     UNIQUE, CHECK, foreign keys with CASCADE and SET NULL) or fails and changes nothing. Row counts are
--     what RowsAffected returns.
--   * The world around the program is data of the model that no theorem restricts, but for hypotheses
--     it names: `fault` says which statements fail, `clock` and `random` give what time.Now and
--     crypto/rand return. `IsHealthy` says that no statement fails. golang.org/x/crypto/bcrypt is a
--     parameter, the record `Bcrypt`.
--   * Ids are integers (the sources have int64, which AUTOINCREMENT does not leave), times are natural
--     numbers of Unix seconds, texts are sequences of Unicode characters, and a password's length is
--     counted in bytes as Go does.
--   * The record `Decoders` has what the standard library makes of a text: the JSON body, the cleaned
--     and the unescaped path, the host of an Origin; `none` is its error. `serve` takes a route with
--     its decoded parameters, and `serve_http` finds the route. The ServeMux is written out for the
--     patterns in use: literal segments, the wildcard {id}, GET for HEAD, "/" for all else, and the
--     redirect to a cleaned path. CONNECT, whose path it does not clean, is left out. The file server
--     of the frontend is the record `Site`.
--   * Errors of the packages are constructors; every other error of a method is `storage`.
--   * Opening the database and rewriting the configuration happen outside the daemon's requests, so
--     they are functions on their own state: what SQLite has committed and the open handles, and the
--     files. Each of their calls can fail; a call on the configuration can also be the last of the
--     process. encoding/json and filepath.Clean are the record `Library`, with their laws as
--     hypotheses (`JsonLaws`, `PathLaws`).
--   * There is no fuel: every method is a finite program. Ten steps are enough for every request, the
--     most that a route makes with its session looked up.
--
-- Not modelled: the files of the frontend and what the file server makes of them, the timer of the
-- purge (the number of its ticks is a parameter), the parsing of flags, the waiting of the shutdown for
-- open connections, logging, the pragmas of SQLite, two daemons that migrate one database at the same
-- time, and the text of error messages.
pub mod Common
pub mod Sql
pub mod Db
pub mod Repair
pub mod Auth
pub mod Machines
pub mod Http
pub mod Config
pub mod Daemon
pub mod System
pub mod Tests
pub mod Web
