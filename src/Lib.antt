-- ===== src/Lib.antt =====
-- Verification of the auction core of the live-auction backend, a Go program in
-- live-auction-bid-backend. Paths below are relative to
-- live-auction-bid-backend/app/auction/service/internal.
--
-- The program. A lot is drafted, queued and started; a running auction takes bids until it is sold,
-- cancelled or fails; each decision writes a fact, which workers project into the databases.
--
-- Base holds what all files share: tests on numbers, lists, results for Go's value and error, int64
-- and int32 arithmetic with wrap-around (Base/Int), and strings (Base/Text: texts of Unicode scalar
-- values, as in valid UTF-8, with `len` in bytes and strings.TrimSpace).
-- Proto has the protobuf messages of api/auction/service/v1: records for messages, data types for
-- enums with a case for unnamed numbers, Option for pointers.
-- Contract is eventcontract/contract.go: ValidateRuntimeFact and what it calls, one guard after the
-- other (Contract/Checks, State, Command, Fact), and the ids and hashes of messages (Contract/Message).
-- Runtime is biz/auction/runtime_state_machine.go. Runtime/Types has the state, the commands and the
-- errors; Runtime/Validate, Ranking and Fact what the decisions share; Runtime/Start, Bid, Close and
-- Sync the five decisions DecideRuntimeStartLot, DecideRuntimePlaceBid, DecideRuntimeCancelLot with
-- DecideRuntimeCloseIfExpired, and DecideRuntimeSyncLotConfig. Their children say what an accepted
-- command has passed and changes; Runtime/Bid/Cap is about the cap price, Runtime/Ranking/Best about which
-- entries a ranking keeps. Runtime/Machine runs commands one after the other, a rejected one
-- leaving the state, and its children prove what holds along every run. Runtime/Tests runs examples.
-- Lot is biz/auction/lot.go: Lot/Ready the checks that a lot must pass, Lot/Draft its creation and its
-- patches, Lot/Queue the queue, Lot/Trust and Lot/Duel what the host does in a running auction.
-- Projection is runtime_fact.go and presentation.go of the same folder: the lot that readers see, made
-- of its metadata, the latest fact and (Projection/Overlay) the host's presentation.
-- Privacy is privacy.go and the viewers of order.go: Privacy/Viewer who may see what, Privacy/Redact
-- what is taken out of lots, bids, rankings and duels; Privacy/Hidden is about lots, Privacy/Ranking about
-- rankings.
-- Order is the order of a sold lot and its payment, in order.go; Order/Paid goes from the one to the
-- other.
-- Generation is runtimegeneration/guard.go, the guard that lets writes through while the Redis master is
-- trusted: Generation/Refresh has Refresh and the signals that may come while it waits for the backend,
-- Trusted, Frozen and Interrupted what holds afterwards. The backend's answers and the clock are
-- parameters, and the methods are those of a guard that is there.
-- Gate is projectiongate/types.go and guard.go, which stop writes while the projection of facts lags
-- behind: Gate/Snapshot the snapshot and its bounds, Gate/Evaluate the judgement of one reading of Kafka,
-- Gate/Guard the guard that counts good readings before it opens. Times are nanoseconds, maps lists in
-- the order of their keys, and the readings of Kafka parameters.
-- Projector is worker/projector, which applies the facts of the Kafka topic to MySQL. Projector/Decode is
-- record.go; Build is projection.go, Payload and Write the parts of sql_projection.go that make the
-- document and write the tables of Projector/Tables (Sales those of bids and orders); Apply is
-- applyRuntimeRecord, and its children say what a committed transaction has done; Store is sql_store.go with its retries, Finding is finding.go, Offsets
-- is offsets.go and Consumer is consumer.go. A table is a list of rows, a statement the function of the table
-- that its text says: a SELECT by key finds the first row, an UPDATE changes the rows it matches and counts
-- them, an INSERT of a taken key is MySQL's duplicate entry. Any statement may be refused, and a COMMIT may
-- take effect and report an error. Each statement touches one table, so a transaction that fails leaves the
-- database as it was. Errors that errors.Join has put together are kept as a tree, and errors.Is and
-- errors.As look into it. Columns that the server fills with its clock are left out.
-- Idgen is pkg/idgen/id.go of the backend: Idgen/Bits is about the disjunction that joins the parts of an
-- id, Idgen/Unique about sequences of ids.
--
-- How code and model correspond. A guard `if c { return err }` is `reject_if c err`, in the order of
-- the source; a disjunction of tests is `any` of their list. A struct that the code copies before it
-- changes it is a value, so the clone functions have no counterpart. A Go map used as a set is a list
-- without repetitions. sort.Slice is an insertion sort: its comparator is a strict total
-- order on entries of different users, so the algorithm does not matter there. All loops are
-- recursions on lists, so no fuel is needed.
--
-- Parameters. Externals stands for code of other modules: the parse of a UUID, with the version and
-- the text that the code reads of the result, and the size of the deterministic protobuf encoding.
-- The projector takes the protobuf and JSON encodings, SHA-256, strconv and the answers of MySQL and Kafka.
-- The lot's checks take the parse of a URL (net/url) as a parameter, and its trust cards the ids of
-- idgen.New.
--
-- Not modelled: the other stores (Redis scripts, repositories, Elasticsearch), the other workers, the poll loop
-- of the projector with its goroutines and metrics, the network services,
-- the generated protobuf code beyond the messages' fields, deposits, users, and the
-- redaction of room snapshots and events.
pub mod Base
pub mod Proto
pub mod Contract
pub mod Runtime
pub mod Gate
pub mod Generation
pub mod Idgen
pub mod Lot
pub mod Order
pub mod Privacy
pub mod Projection
pub mod Projector
