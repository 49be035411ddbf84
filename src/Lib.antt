-- ===== src/Lib.antt =====
-- eps-dapp: service of process on a blockchain. A law firm files a request, which consumes a unit
-- of its subscription's quota; a worker delivers it as a Solana transaction whose memo holds the
-- document's digest, the notice token and the request's id; a request that cannot be delivered is
-- parked, its unit given back, and the transition audited.
--
-- The parts of the program, and the files that model them:
--   prisma/schema.prisma             Db: a row type and a list of rows for each table
--   lib/quota.ts                     Quota: the meter (Meter), what it charges (Consume), the limit
--                                    it keeps (Bounds), what it gives back (Restore)
--   lib/failure.ts                   Failure: the transaction of a terminal failure (Handler, Atomic)
--                                    and what it leaves on record (Record)
--   worker/process.ts                Worker.Delivery: one delivery; Worker.Process and
--                                    Worker.Confirm: its theorems
--   worker/index.ts                  Worker.Loop: claimNext, runOnce, drain, pollForever and main;
--                                    Worker.Claim, Worker.Settle and Worker.Drain: their theorems
--   lib/intake.ts                    Intake: the transaction (Stage) and what it does (Atomic)
--   lib/storage.ts                   Storage: keys and documents (Documents) over node:crypto and S3
--                                    (Crypto), hexadecimal text (Hex, at the root)
--   app/api/webhooks/stripe/route.ts, lib/stripe.ts
--                                    Webhook: the handler (Route), an event and its replay (Once), a
--                                    checkout and its subscription (Active)
--   lib/chain/solana.ts, lib/chain/types.ts, lib/solana/validate-address.ts
--                                    Solana: the adapter (Calls) over the libraries (Cluster)
--   lib/chain/tx-builder.ts          Memo: buildServiceMemo; Solana.Builder: buildServiceTx
--   lib/rate-limit.ts                RateLimit.Fixed, RateLimit.Client
--   lib/rateLimit.ts                 RateLimit.Lru, RateLimit.Client
--   app/api/admin/comp-grant/route.ts, lib/auth.ts
--                                    Grant: the handler (Route), what it keeps (Granted), the row that
--                                    it puts (Put) and what it leaves (Tables), over the session
--                                    checks (Auth);
--                                    Calendar: addMonths, beside nextPeriodEnd of lib/quota.ts
--   app/api/service-requests         Requests: the form (Input), the recipient (Recipient), POST
--                                    (Filing) and what it answers (Outcome, Filed, Answers), GET
--                                    (Reading) and who can read (Tenants)
--   lib/notice.ts, lib/noticeAccess.ts, lib/certificate.ts, lib/email.ts, lib/email,
--   app/n/[token]/page.tsx           Notice: the masks (Mask), the first view (Access, Once), the
--                                    e-mails (Mail), the page (Page, Shown)
--   lib/certificate-store.ts, app/api/certificate/[noticeId]/route.ts
--                                    Certificate, and what is given again (Reused)
--   lib/certificate-pdf.ts           Pdf: wrap (Wrap), LineWriter (Writer), the data and the page
--                                    (Render), the words of the lines (Wrapped), the height that the
--                                    pieces take (Placed, Bounded), that they draw no line break
--                                    (Plain, PlainPage), what the page shows (Shown)
--   lib/hedera, app/api/hedera       Hedera: the service (Service) and the token (Transfer) over the
--                                    SDK (Sdk), the tasks of a delivery (Tasks), the routes
--                                    run-proof and status (Routes), what they change (Isolation) and
--                                    the size of the metadata (Metadata)
--   lib/chain/ChainAdapter.ts, EVMAdapter.ts and BitcoinAdapter.ts
--                                    Chains: the ids (Ids), the addresses (Address), an adapter each
--                                    (Evm, Bitcoin), getAdapter (Factory)
--   lib/ens/ENSResolver.ts, app/api/ens, app/api/agent
--                                    Ens: the resolver (Resolver) and the routes that read (Routes)
--   app/api/demo                     Demo: both routes (Skip, Fulfill), and that they follow the life
--                                    cycle of a request (Refines, Fulfilled)
--   app/api/upload/route.ts          Upload, and what an accepted file went through (Accepted)
--   app/api/checkout/route.ts        Checkout
--   app/dashboard/new/page.tsx, app/dashboard/[id]/LiveStatus.tsx
--                                    Form: what happens to the form (Intake) and to the badge (Live: an
--                                    answer that is shown, and the later run of the effect),
--                                    what holds in any order of events (Current, Onward), and what
--                                    the route's schema makes of the form (Accepted)
--   app/api/nft/image/route.ts       Picture, and that the query adds no markup (Escaped)
-- The program as a whole is System, over the abstract life cycle of a request (Lifecycle): the table
-- of requests goes on along it under what is built of steps that do so (Rules), under intake and filing
-- (Intake, Filing), the proofs on Hedera (Proofs), the worker (Delivery, Claiming, Polling), the public
-- page and the certificate (Views, Certificates), the webhook and the grants (Billing), and under the
-- operations of the program in any order (Reached), of which each one runs to its end before the next.
-- Http, Json, Printing and Variables hold what the routes share of bodies, headers, JSON text,
-- numbers in text and `process.env`. Base holds what all share, Samples a concrete database,
-- environment and cluster, and Tests the runs and instances on them.
--
-- State and errors. A function of the source that calls the database or the cluster is an action:
-- a function from the world (the tables, a clock of calls, the transactions that were handed to
-- the cluster, the objects in the document store, the tasks that were started and are not
-- awaited) to a result and a world. A result is a value, an error, or a crash, after which
-- nothing of the process runs. At each call the environment decides whether it goes through,
-- throws or kills the process, and what `findFirst` finds; a theorem holds for every environment,
-- and one that needs what the database documents of `findFirst` takes it as a law
-- (`Quota.Spec.FindsLatest`, `Worker.Claim.FindsRequest`). `prisma.$transaction` puts the tables
-- back if its body does not return; every statement in the body is one of the transaction's client,
-- as it is in the source, and a body with statements outside of it has no model here. The statements of the client take effect one at a time;
-- interleavings of two callers are stated as sequences of statements.
--
-- Numbers are natural numbers; a date is its time value in milliseconds since 1970, in UTC. Text
-- is the list of its code units. A `bigint` or `number` of the source that is stored as is
-- (lamports, slots) is a natural number. The rate limiters are called with limits of at least 1,
-- so that `limit - 1` is no negative number.
--
-- Fuel. `drain` loops until there is no request to claim. The model has fuel: one unit more than
-- there are pending requests is enough, since each run settles one of them. `pollForever` has no end;
-- the model says how many rounds it has gone through, and a theorem holds for every number of them.
--
-- Abstractions. `toLowerCase` and `trim` are those of ASCII text; `toISOString` is for years of
-- four digits. Promises that are awaited together run one after the other. Of a JSON body the
-- model has the fields that the code reads; `undefined` and `null` of an optional text are one. A
-- markup page is the record of what it shows. What leaves the process (messages, tokens, e-mails,
-- transactions of other chains) is kept in the outbox of the world, whatever comes back.
--
-- Not modelled: the libraries (Prisma, web3.js, bs58, viem, ensjs, the Hedera SDK, Clerk, Stripe,
-- Resend, file-type, pdf-lib), which are parameters where the code relies on them; the pause of the
-- poll loop and the process's signals; the worker's log lines; the glyphs of a certificate, of which
-- the model has each text that is drawn and where its first line stands, in hundredths of a point
-- from the top, while what pdf-lib does at a line break is a parameter; the metadata of the
-- token; the routes update-token, set-records, flow-session and dynamic-webhook with the services
-- behind them; the other pages, and the markup of the modelled ones; the environment checks and the
-- scripts.
pub mod Base
pub mod Hex
pub mod Printing
pub mod Variables
pub mod Json
pub mod Calendar
pub mod RateLimit
pub mod Db
pub mod Effects
pub mod Quota
pub mod Storage
pub mod Memo
pub mod Solana
pub mod Chains
pub mod Ens
pub mod Hedera
pub mod Failure
pub mod Worker
pub mod Intake
pub mod Webhook
pub mod Auth
pub mod Http
pub mod Requests
pub mod Notice
pub mod Pdf
pub mod Certificate
pub mod Lifecycle
pub mod Demo
pub mod Upload
pub mod Checkout
pub mod Grant
pub mod Form
pub mod Picture
pub mod System
pub mod Samples
pub mod Tests
