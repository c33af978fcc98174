-- ===== src/Lib.antt =====
-- rootwell: a model of the certificate store's decisions and of its DNS operations, with proofs.
--
-- The program keeps public certificates in one encrypted, authenticated image of numbered
-- generations (internal/inventorystore). Each write takes one generation and one event of a bounded
-- history. A certificate is renewed through a certificate authority: the renewal policy
-- (internal/renewalpolicy) names the instant, the renewal cycle decides the next action from a
-- snapshot of the image, and DNS operations create and remove the challenge records at a provider.
-- An operation is begun by saving its intent, which mints a lease, and executed under that lease;
-- a failed call leaves the intent with a longer wait, by the retry policy
-- (internal/providerretry).
--
-- Prelude: shared names, Boolean tests on the native numbers, lists, bytes.
-- Clock: Go's time. An instant is the number of nanoseconds since 0001-01-01 UTC, and a saved
--   timestamp text is blank, the text of a whole second, or malformed. All instants are in UTC.
-- Retry: internal/providerretry/policy.go. State, Hint, valid (Valid), ready (Ready), begin (Begin),
--   apply (Apply) and, in Retry.Header, retry_after (RetryAfter). Begin, Apply and Runs hold the
--   proofs.
-- Policy: internal/renewalpolicy/selection.go and information.go. fallback_window (FallbackWindow),
--   select_at (selectAt, with the random draw as an argument), next_check (NextCheck),
--   error_check_at (ErrorCheckAt). Fallback, Select and Checks hold the proofs.
-- Dns: internal/inventorystore/dns_plan.go, the saved plan and its rows. Dns.Maintain is
--   dns_maintenance.go, Dns.Check is validDNSPlanRecord of dns_operation.go, and Dns.Reserve is
--   dnsPlanReserve.
-- Fingerprint: ValidFingerprint of internal/publicinventory/compare.go.
-- Image: internal/inventorystore/manifest.go, the decrypted image with the errors of the package.
--   Image.Reserve is dnsTotalReserve and reservedImageBytes, and Image.History is addEvent and
--   validEvent of history.go.
-- Operation: beginDNSOperationAt and sealDNSPlan of dns_plan.go (begin_operation, seal_plan).
--   Operation.Settle is the row after a call, Operation.Execute is executeStagingDNSAttemptAt and
--   deferStagingDNSAttemptAt. Begin, its children, Settle.Frees, Settle.Keeps, Execute.Sealing and
--   Execute.Funded hold the proofs, and Operation.Life is every life of a row as a step relation.
-- Archive: internal/inventorystore/history_archive.go (archive_history) and openHistory of
--   history.go (open_history), with the proofs in Pages, Keeps and Writes.
-- Closing: internal/inventorystore/closed_requests.go and request_archive.go (close_eligibility,
--   request_status, close_request, archive_requests; item_ok, chronicle and ledger_ok are the tests
--   of openClosedRequest and authenticateClosedRequests). Chronicle, Eligible, Kept, Runs and
--   Settled hold the proofs. A Ledger is the part of the manifest that they read, with each payload
--   opened.
-- Cycle: internal/inventorystore/renewal_cycle.go. Cycle is the snapshot, Cycle.Rows the loop over
--   the DNS records, Cycle.Decide is DecideRenewalCycle (decide). Rows.Held, Rows.Named, Guards,
--   Stages, Before, Choices, Staged and Actions hold the proofs.
-- Outcome: results with the errors of these packages. Text: Go's strings and bytes functions on lists
--   of bytes (trim_space is bytes.TrimSpace, with the white space of Unicode; trim_ascii is
--   strings.TrimSpace on ASCII texts), and in Text.Runes utf8 and unicode.
-- Inspect: internal/certinspect/inspect.go (inspect is Inspect, result_from is
--   resultFromCertificate). Bounds and Fingerprints hold the proofs; Toy has decoders to run it with.
-- Bundle: internal/publicbundle/bundle.go (parse_bundle is Parse), with the proofs in Rounds and
--   Distinct.
-- Catalog: internal/publicinventory/catalog.go and expiry.go (Add, AssociateLocation,
--   RenameLocation, RemoveLocation, UpdateOwner, ObserveExpiry). Notes, Remove, Rename and Refine
--   hold the proofs on notes, Added those on imports.
-- Records: internal/inventorystore/manifest.go (append is Append; change_note is AssociateLocation,
--   UpdateOwner and ChangeLocation; reseal_record is resealRecord), with the proofs in Keeps.
-- Names: dns and NormalizeDNSNames of internal/csrworkbench/request.go, Check of
--   internal/acmeplan/plan.go, Names and CanonicalNames of internal/acmeorder/model.go. Fold, Order,
--   Unique and Canonical hold the proofs.
-- Profile: internal/acmeprofile/profile.go, and ValidInstructions of acmeorder, with the proofs in
--   Bound.
-- Gate: cmd/rootwelld/gate.go, the sessions of the access gate (currentSession, issueSession,
--   forgetSessionLocked, revokeAll) with the pausing of the jobs that a session owns
--   (cmd/rootwelld/renewal_job.go and timing_watch.go), and allowAttempt. Sessions, Issued,
--   Evicts and Attempts hold the proofs; Evicts has the loop of issueSession as it is written.
--
-- The image is modelled after decryption and authentication: its payloads are values. The lengths
-- of encodings and the digest of an image are the fields of a Codec, which no proof restricts. What
-- the clock, the random source, the provider and the caller's permit answer is an argument of each
-- definition. The clock that addEvent reads is read at the instant of its operation. Go's negative
-- numbers, which the validators refuse, and texts of timestamps in other layouts are not
-- represented. Loops are structural recursions over their lists; the loop that makes room for a
-- session runs on as much fuel as there are sessions, which is enough, since each round removes one.
-- The loop over the blocks of a bundle runs on the number of certificates that may still come, and
-- reports too many where the code does.
--
-- The decoders of PEM, ASN.1, X.509 and SHA-256 are the fields of a record that the code is given. The
-- names of an order are ASCII texts, as the setup check demands before it folds them, and an address
-- is recognized by its four decimal fields, since the label test refuses a colon. Sorting is by
-- insertion; the standard library promises no more than the order.
--
-- Not modelled: parsing and building of X.509, PKCS and JSON, encryption, files, HTTP, the pages
-- and the ticks of the daemon's jobs; of the store, the timing plans, orders, issuance, accounts
-- and keys beyond the flags that the modelled operations read, the checks of openDNSPlan across
-- rows, and of a closed request the binding of a renewal, the request and the DNS plan inside it, and
-- the deletion of its completion. Of the reading back of a written image only the tests on counters
-- and limits are modelled, with a DNS plan. An HTTP date is parsed by the time package, which is an argument.
-- The name check of decide is an argument; the code passes CanonicalNames, which is
-- Names.canonical_names.
pub mod Prelude
pub mod Clock
pub mod Retry
pub mod Policy
pub mod Cycle
pub mod Gate
pub mod Dns
pub mod Fingerprint
pub mod Image
pub mod Operation
pub mod Archive
pub mod Outcome
pub mod Text
pub mod Inspect
pub mod Bundle
pub mod Catalog
pub mod Names
pub mod Profile
pub mod Records
pub mod Closing
