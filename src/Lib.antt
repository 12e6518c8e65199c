-- ===== src/Lib.antt =====
-- A verification library of CoreFlow, a payroll that settles through an escrow contract.
--
-- The server keeps payments, approvals, settlement attempts and memberships in a database; the
-- chain decides what is paid. A request resolves its caller to a member of one organization, an
-- action decides what the member may ask for, and a change that is asked for goes through one table
-- of transitions, applied by a compare-and-swap with an audit event. A payroll file becomes a batch
-- of draft payments; the indexer projects the events of the chain on the payments, and the
-- reconciliation compares the two.
--
-- Prelude     tests, lists, texts, bigints, and a table of rows as
--             src/lib/payments/__tests__/fake-db.ts keeps it in place of the database.
-- Roles       the roles of an organization (prisma/schema.prisma).
-- Payments    src/lib/payments. Types, Transitions, Check and Descriptors are state-machine.ts:
--             TRANSITIONS is `transitions`, checkTransition is `check_transition`. Store has the
--             rows. Service is transitionPayment and applyTransition of service.ts: `apply_read`
--             is what follows the read, over the tables as other requests may have left them by
--             then. Actions and Requests are actions.ts: the approval reads one store and inserts
--             into another, and every other action runs with no request between its reads and its
--             writes. Admission, Authority and Lifecycle prove properties of the table, Transfer,
--             History and Arrival of the service, Decisions, Submission and Outcomes of the actions; Rollup
--             is rollupBatch, and Standing proves it.
-- Tenancy     src/lib/tenancy: Rbac is rbac.ts, Resolve is resolve.ts, Membership is membership.ts,
--             and Members is PATCH and DELETE of
--             src/app/api/organizations/[id]/members/[memberId]/route.ts, each with nothing between
--             its guards and its write, which route.ts does not run in one transaction. Delegation,
--             LastAdmin, MemberGuards and Invitations prove their properties.
-- Funding     src/lib/funding/eligibility.ts in Eligibility; Verdict and Assessment prove it.
-- Reconciliation  src/lib/payments/reconcile.ts: Findings is recordFinding, Reconcile is
--             reconcileOrganization after its query; Discrepancies, Evidence and Moves prove it. Failed
--             is reconcileFailedTransactions; Corrections proves it.
-- Claims      packages/sdk/src: Types is types.ts and errors.ts, Layout is layout.ts, Encode is
--             encode.ts with the checks of bytes.ts and the digests of hash.ts, Decode is decode.ts,
--             Verify is verify.ts and sign.ts. Crypto has the third-party functions and their laws.
--             RoundTrip, Acceptance and Compare prove the properties. Json is json.ts with the hex of
--             bytes.ts; Json/Back proves that a claim is read back.
-- Indexer     src/lib/indexer: Events is events.ts, less the payloads that BigInt throws at or Number
--             makes NaN; World has the tables and the ensure functions of index.ts, Added,
--             Approvals and Settled the branches of applyEvent, which is Apply, Batch is
--             processBatch with the cursor, Replay is replayUnattributed, Run is run.ts, Payload the
--             stored form of an event. Held, Effects, Branches, Payees, Steps, Sequence and Backlog
--             prove what happens to payments; Markers, Resume, Order and Cursor prove what a batch
--             does as a whole.
-- Money       src/lib/money.ts: Amount has its functions, Digits, Plain and RoundTrip the proofs.
-- Payroll     src/lib/payroll/csv.ts: Reader is parseCsvText, Fields the checks of single fields,
--             Checks those of the header and of a row, Import is parsePayrollCsv. Sound, Payable,
--             Rows, Imported and Accepted prove what is imported, Printer that what is printed is
--             read back. Batches, Writing and Create are batches.ts; Drafts and Once prove what is
--             created, and that it is created once.
--
-- A database transaction is one function on the tables. A time is a number of milliseconds given
-- to the function; the id of a new row is given too. An error of the database is `none` in the
-- actions, a fault given by the event's id in the indexer, and a clash with a unique index where a
-- batch is created. A bigint is a signed integer without bound. Messages, notes and log lines are
-- left out, and so are the columns that no modelled code reads or writes. The recursions are
-- structural (the attempts at a batch's reference are counted down from the five of the code), but
-- for the digits of a number, whose fuel is more than the number.
--
-- Not modelled: the Rust contracts, the React pages, the HTTP glue of the other routes, tokens and
-- signatures (Node crypto and the Stellar SDK), the RPC calls of the indexer, src/lib/reconciliation,
-- and the funding service after eligibility.
pub mod Prelude
pub mod Roles
pub mod Payments
pub mod Tenancy
pub mod Funding
pub mod Reconciliation
pub mod Claims
pub mod Money
pub mod Payroll
pub mod Indexer
