-- ===== src/Lib.antt =====
-- A model of Curio Core, a Filecoin hot-storage provider in one binary, with theorems on the parts
-- that can lose data, money or warnings.
--
-- A client uploads a piece into the stash, one directory of `<uuid>.tmp` files. The completion task
-- marks the piece as complete when it sees the file, the reader serves it, and the sweep looks for
-- files that are gone and removes files that no row names. Payment rails are found on the chain and
-- settled. Failed tasks and reverted transactions become rows of an alert table. The chain scheduler
-- hears of new heads over a bridge that joins reverts with the applies that follow.
--
-- The engine keeps the daemon's row among the machines and starts and stops the scheduler. The
-- retrieval handler serves a piece that the reader opens. The configuration and its setup page stand in
-- front of the pages of the dashboard, which shows and repairs what the tables hold and runs a few
-- commands. Keys are made at the first start and kept in the wallet; amounts are read and printed as
-- decimals; the upgrade command replaces the executable.
--
-- The files and the code:
--   Base, Base/*        lists, bytes and Boolean tests; no code of the program
--   Env, Env/*          the answers of the outside world, and loops that may return
--   Sql, Sql/*          the statements that the program's SQL uses, on lists of rows
--   Stash/Path          path/filepath: Clean, Join, Abs, Rel
--   Stash/Custore       internal/parkcomplete/parkcomplete.go, stashPathFromCustoreURL
--   Stash/Files         the file system
--   Stash/Disk          internal/diskstash/diskstash.go
--   Stash/Park          the tables parked_pieces and parked_piece_refs
--   Stash/Complete      internal/parkcomplete/parkcomplete.go, Do
--   Stash/Sweep         internal/stashsweep/stashsweep.go: Integrity for integrityPass, Collect for
--                       gcPass, Run for sweep
--   Stash/Reader        internal/localpiecepark/localpiecepark.go, ReadPiece
--   Alerts/Table        internal/alerts/alerts.go
--   Alerts/Poller       internal/alerts/poller.go
--   Payments            internal/payments/settle.go: Discover for discover, Rails for upsertRails,
--                       Settle for Do and settleOne
--   Reorg               internal/nodeapi/chainsched_adapter.go: Coalescer, Convert, Notify
--   Wallet              internal/wallet/wallet.go
--   Index               internal/sqliteindex/sqliteindex.go
--   Env/Transaction     internal/harmonysqlite/api.go, BeginTransaction
--   Storage/DataPath    internal/datapath/datapath.go
--   Storage/CertCache   internal/acmecache/cache.go
--   Storage/Migrations  internal/harmonysqlite/migrations.go
--   Amounts/*           decimal amounts of 18 places: Display for decimal18, bigZero and dec6 of
--                       internal/dashboard/dashboard.go and formatToken of
--                       cmd/curio-core/cmd_wallet_getusdfc.go, Parse for parseDecimalTo18Decimals of
--                       cmd/curio-core/cmd_wallet.go
--   Dashboard/Runner    internal/dashboard/runner.go
--   Dashboard/Readiness internal/dashboard/pdp_readiness.go
--   Dashboard/Guide     internal/dashboard/pdp_guide.go
--   Dashboard/Rollup    internal/dashboard/pdp_rollup.go
--   Dashboard/Price     internal/dashboard/filprice.go
--   Dashboard/Messages, Dashboard/DataSets, Dashboard/Overview
--                       internal/dashboard/dashboard.go: handleMessages and
--                       handleClearStaleMessages; deriveProveStatus and handleRetryProving;
--                       collectOverview
--   Engine              internal/engine/engine.go: Machines for recordMachineRow and the keepalive,
--                       Registry for TaskRegistry, Lifecycle for Start and Stop
--   Commands/Versions, Commands/Upgrade
--                       cmd/curio-core/cmd_upgrade.go
--   Commands/Routes     cmd/curio-core/main.go, adminFallback and combinedRouter;
--                       internal/pdpwire/pdpwire.go, FallbackHandler
--   Config              internal/config/firstrun.go
--   Wallet/Bootstrap    internal/ethkeys/loader.go
--   Retrieval           internal/retrieval/retrieval.go, handleGetPiece
--   Admin               internal/admin/admin.go
--   Config/Setup        internal/setupweb/setupweb.go
--   Usdfc               internal/usdfcacquire/squid.go; signer.go in Usdfc/Signer
--   Serve               internal/httpserve/serve.go
--
-- State and failure. A handler takes a `World`: its store, and the number of calls to the database,
-- the file system, the clock and the scheduler made so far. An `Env` says what the n-th call answers:
-- whether it fails, whether the task is still owned, what the clock shows. A write that fails has
-- written nothing, but for a migration script, which may have done a part. So a theorem over all
-- `Env`s is one over all failures and all losses of ownership.
-- Context cancellation shows as failing calls. Log lines are left out.
--
-- Data. Text is a list of bytes, and ids, sizes, epochs and times are natural numbers below the
-- bounds of their Go types. A map is a list of pairs. File paths are their cleaned elements. The table
-- of the files is by absolute path. The collection of the stash acts on the file that a path names
-- from the working directory, and theorems on it that need an absolute stash directory say so; the
-- stash store itself is read with an absolute one.
--
-- Parameters, with nothing assumed unless a theorem names it: net/url.Parse, cid.Decode, json.Marshal,
-- SHA-256, the CBOR codecs and tipset constructor of the bridge, and the FilecoinPay contract. For the
-- wallet, secp256k1 is one too; for the migrations, what a script does to the schema, and where the
-- reading of rows breaks off; for the data path, the mounts, the free space and the environment; for
-- the dashboard, the answers of the chain client, and the run of a process; for the engine, whether
-- the task scheduler comes up, its hooks succeed and its goroutines end in time, and the names of the
-- task types. For the upgrade they are the replies of GitHub and of the system, for the configuration
-- the TOML codec, which a theorem assumes to read what it writes, and for the key loader the generated
-- key; for the USDFC acquisition, the replies of the API and of the chain client, and the parsers of
-- hexadecimal text.
--
-- Fuel. `Payments.Discover.pages` has fuel 801: a page that is not the last brings a rail, and the
-- loop ends above 800 rails. Decimal digits take as many steps as the number has digits. All other
-- loops run over lists.
--
-- Not modelled: the registration of the tasks with the scheduler, the tickers and the loops of the
-- servers, of which the operations they call are modelled, HTML, the flags and the output of the
-- commands, the construction of clients of other libraries, and all packages that the list above does
-- not name.
pub mod Base
pub mod Env
pub mod Sql
pub mod Stash
pub mod Alerts
pub mod Payments
pub mod Admin
pub mod Amounts
pub mod Commands
pub mod Config
pub mod Dashboard
pub mod Engine
pub mod Index
pub mod Reorg
pub mod Retrieval
pub mod Serve
pub mod Storage
pub mod Usdfc
pub mod Wallet
