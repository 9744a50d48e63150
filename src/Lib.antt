-- ===== src/Lib.antt =====
-- The evals platform for King-of-the-Hill challenges: a server that keeps challenges, suites,
-- submissions and runs in a database and answers workers and the web page over HTTP. A submission
-- fans out into one run for each seed of each suite that it names; workers claim pending runs one
-- at a time, execute the challenge's wrapper and report a result; a sweeper takes back the runs of
-- workers that are no longer seen; operators cancel, retry, prioritize and reevaluate; a
-- leaderboard aggregates the scores.
--
-- Parts and files.
-- Go: the language and its standard library, as far as the code uses them. Go/Float: float64 as
-- bits, comparisons read off the bits. Go/Int: int. Go/Text: strconv.Atoi, strings.Split,
-- strings.TrimSpace. Go/Any: the map[string]any of decoded JSON.
-- Ent: ent/schema and the operations of its generated client. Ent/Status is run.Status, Ent/Schema
-- the rows and the tables (Db), Ent/Store the queries, bulk updates and insertions with the
-- validators and defaults of ent/schema, Ent/Tables the lemmas on them.
-- Wireapi: internal/wireapi/types.go and public.go.
-- Scoring: internal/scoring/aggregate.go; its sort is in Scoring/Sort, the lemmas on max and min
-- in Scoring/Extrema, those on the mode in Scoring/Counting and Scoring/Mode.
-- Server: internal/server. Response and Request are what the handlers share; Hub is events.go;
-- Heartbeat is heartbeat.go; Sweeper is sweeper.go; Auth is the middlewares of internal_api.go and
-- server.go; Claim and Result are handleClaim, handleResult and handleRunStatus of
-- internal_api.go; Cancel holds cancelSubmission, cancelRun, retrySubmission and
-- prioritizeSubmission of public_api.go; SuiteIds, Names and Submit are createSubmission,
-- persistSubmission and reevaluateSubmission with their helpers; Suites has the challenges and
-- suites, Listings has listSubmissions, getSubmission and getRun, Queue is getQueue, all of
-- public_api.go; Counts and Leaderboard are getLeaderboard; Downloads is handleBundle and
-- handleArtifact of internal_api.go; Analytics and Slug are suite_analytics.go.
-- Worker: internal/worker/worker.go and internal/workerclient/client.go. Worker/Tail is
-- tailWriter, Worker/Manifest the readers of a manifest and of the parameters, Worker/Client what
-- the client makes of an answer, Worker/Execute is execute with ensureBundle, layoutWorkdir and
-- readResult, Worker/Pool is Run and pull as a machine whose events come in any order.
-- Worker/Execute/Delivery puts the worker and the server together: the report of execute is the
-- request of handleResult, and its answer what ReportResult reads.
-- Commands: Commands/Config is internal/config/config.go, Commands/Dsn resolve of
-- internal/db/db.go, Commands/Register registerChallenge of cmd/ctf-evals/register.go.
-- Bundle: internal/bundle/bundle.go. Bundle/Path is filepath.Clean and Join over bytes,
-- Bundle/Extract is writeEntry and Extract.
-- Server/Action is the state and the calls: the tables, the hub, hbCache and the faults of the
-- database. A handler is an Action: it goes on with a value or stops with the response that it
-- wrote. Each call of the client takes the next entry of the list of faults, which may make it
-- fail, so that a theorem on every World is one on every way in which the database fails.
-- `transaction` puts the tables back on every way out but the commit.
-- Server/Lifecycle is the specification: the moves of a run's row, the invariant of the table, and
-- Reach, any number of moves and insertions, in which a suite may only be sealed and a submission
-- only added. Its children show for each handler that what it does is such a step. Server/Outcomes
-- has the rules for what holds of the value of an action and of its early reply, Server/Progress
-- those by which an action runs to a value. Server/Service puts every request and tick that
-- writes, and the registration of a challenge, into one type and runs a list of them; seed-demo,
-- which fills a database for a demonstration, is not among them.
-- A child module named for what it states stands below each part: Claim/Choice, Result/Lateness,
-- Result/Stored, Result/Columns, Result/Reports, Cancel/Effects, Cancel/Rerun, Sweeper/Reclaim,
-- Sweeper/Alive, Heartbeat/Freshness, Submit/Plan, Submit/Atomic, Submit/Progress,
-- Submit/Reevaluate, SuiteIds/Meaning, Auth/Access, Leaderboard/Order, Leaderboard/Totals,
-- Suites/Created, Suites/Cloned, Listings/Tallies, Queue/Means, Queue/Backlog, Slug/Shape,
-- Analytics/Scores, Analytics/Groups, Analytics/Distributions, Service/Refinement,
-- Service/History, Service/Catalogue, Service/RoundTrip, Hub/Nudges, Worker/Tail/Last,
-- Worker/Execute/Branches, Worker/Execute/Filenames, Worker/Execute/Polls,
-- Worker/Execute/Preparation, Worker/Execute/Verdict, Worker/Pool/Slots, Worker/Pool/Drain,
-- Bundle/Path/Inside, Bundle/Extract/Contained, Bundle/Extract/Atomic, Commands/Config/Loading,
-- Commands/Register/Again.
-- Tests: a sample database, and the theorems applied to it.
--
-- Choices. The handlers and the tick that change a run hold writeMu; persistSubmission does not,
-- but it inserts in one transaction, and no request deletes a row that it reads before. So
-- requests are steps one after another, and their interleavings are the orders of the list. Times
-- are nanoseconds since 1970 and go through the code as arguments; a subtraction of times stands
-- on the other side of the comparison. Sizes, counts and keys are natural numbers, an int that a
-- request can make negative is ℤ; neither reaches 2^63. A table is a list in the order of
-- insertion, which is also the order of a query without ORDER BY. What the database leaves open is
-- a parameter: which first row a LIMIT 1 gives (IsFirst), and the order in which a map is ranged
-- over. The rounding operations on float64 are the parameter Arith; the digest of an upload and
-- the decoder of base64 are parameters too. A decoder's result arrives decoded or malformed. Where
-- the text of an error prints a value or another answer, the model keeps the fixed part of the
-- text. ORDER BY in a query whose order is not stated as a property, GROUP BY and sort.Slice are
-- parameters, of which a theorem assumes no more than that they permute. strings.ToLower is exact
-- as far as its result is ASCII, which is all that slug asks. A path is its bytes. How a call of
-- the system ends (a file, a process, a connection) is an argument, so that a theorem is one on
-- every way in which it ends; SHA-256, JSON and the text that JSON makes of bytes are arguments
-- too. The loops of the code run along lists, and so does the model, but for the digits of a
-- number, whose fuel is one more than the number.
--
-- Not modelled. The text of the CSV columns in exportSuite; Pack, collect and Hash of bundle.go;
-- db.Open, and the commands under cmd other than registerChallenge; routing, multipart parsing,
-- JSON encoding, the SPA handler and the event stream's HTTP side; process groups, the environment
-- of the wrapper and the log files on disk; the saturation of time.Duration in a subtraction of
-- times 292 years apart; logging; generated code under ent other than the calls above; the toy
-- challenge; the web page. Contexts that end in the middle of a request appear as faults of the
-- database only.
pub mod Prelude
pub mod Go
pub mod Ent
pub mod Wireapi
pub mod Scoring
pub mod Server
pub mod Bundle
pub mod Commands
pub mod Worker
pub mod Tests
