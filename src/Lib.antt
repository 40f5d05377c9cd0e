-- ===== src/Lib.antt =====
-- Tanden Trust, the audit library and its development scripts (kognavi/tanden-trust-audit-poc).
-- The program signs evidence, records it in a hash-chained ledger in PostgreSQL, lets a sidecar of
-- signed metadata attest it, and anchors its digest on an external ledger behind a gate of checks.
-- A second part, the development scripts, moves a feature through Builder, Reviewer, Security
-- Reviewer and Verification in a task graph that is a JSON file.
--
-- The files of this development, and the code that they model:
--
-- - Base, Json, Platform: lists and texts measured by native numbers, code that throws (Result),
--   JSON values, and what the code takes from Node and npm: the RFC 8785 serialiser, SHA-256, and
--   the keys of node:crypto. Those are parameters.
-- - TaskGraph: scripts/agent-task-graph.js. Model and Events hold the graph and applyEvent, with
--   createInitialGraph and resetForRetry; Paths is where the files of a feature lie, and
--   Files holds initGraph and transitionGraph over the files of all features; Document is a graph as JSON; Workflow is the abstract state machine,
--   Refinement, Reachable and Store the proofs. validateFeatureSlug is that of
--   scripts/scaffold-spec-from-context.js.
-- - Work: validateTaskGraphState of scripts/work-development-orchestrator.js.
-- - Gates: scripts/run-verification-evidence-gate.js. Review and Documents read the reviews, the
--   delegation and the task graph, Gate is the verdict, and Stable the evidence document; Empty,
--   Delegated, Reviewed, AtVerification, FourEyes and Workflow are the proofs on the gate, Reordered and
--   EvidenceDocument those on the document. The payload that a passed gate writes is not modelled.
--   Delegation is scripts/create-agent-delegation.js, and DelegationRead its proof.
-- - Ledger: lib/pg-signing-logger.js. Row, Verify, Logger and Readers are PgSigningLogger's
--   methods, and Session is the transaction of appendEvent, as statements on a connection that
--   writes to a copy of the table from BEGIN on, and to the table itself without one. Table is what
--   they use of PostgreSQL, a record whose laws (IsLawful) the theorems take: they say what JSONB
--   stores of a payload that is an object, since node-postgres sends other payloads in ways of its
--   own. Accepted, Outcome, Chain, Append, Appended, Results and Tamper are the proofs.
-- - Kms: lib/aws-kms-provider.js. Der and Encode are its DER codec; Client, Provider and Evidence
--   are AwsKmsProvider over a KMS client, which is a parameter, with a log of the commands that
--   were sent. RoundTrip, Bounds, Guarded, Commands, Signs, SignVerify and EvidenceVerified are the
--   proofs.
-- - Signing: lib/signature-digest.js, lib/signing-contract.js and lib/local-ecdsa-provider.js.
--   Provider is the interface that the two clients below take, and Providers fills it with the
--   local and the KMS provider.
-- - Store: lib/pg-evidence-store.js. Sql is what its statements say, and the table
--   evidence_versions behind them a record whose laws (IsVersionTable) take those statements;
--   Request and Methods are PgEvidenceStore, Accepted and WriteOnce the proofs.
-- - ObjectStore: lib/json-object-store.js (Key, Local) and lib/s3-json-object-store.js (Bucket),
--   over node:fs and the S3 client, which are parameters; of node:fs only that a
--   file that was written is read back is used; Files and Worm are the proofs.
-- - Audit: lib/audit-manager.js, over any signing provider and the ledger.
-- - Processing: lib/evidence-processing-service.js, over any signing provider, the store and the
--   ledger; Event and Confirmed join it to lib/internal-ledger-verifier.js.
-- - Metadata: lib/metadata.js, lib/metadata-signing.js and lib/metadata-signature.js.
-- - Anchor: lib/sidecar-verifier.js, lib/internal-ledger-verifier.js and lib/verified-anchor-
--   service.js. The gate composes the modules above as the service does, and records the calls of
--   the anchor client.
-- - Tests: concrete runs.
--
-- Every loop of the modelled code walks a list or a text and is structural recursion, so no fuel
-- is used. An awaited call that may fail is a value that says whether it fails; a method returns
-- its result beside the new state. One request runs at a time: the advisory lock of the ledger
-- serialises the appends, and interleavings of other requests are not modelled. JSON numbers are
-- the texts that JavaScript prints, since the code does not compute with them.
--
-- Not modelled: command lines and printing, the AWS clients, the schema checks of the Ajv package,
-- the collectors, the Solidity contract, and the parts of lib/ and scripts/ that no file above
-- names.
pub mod Base
pub mod TaskGraph
pub mod Work
pub mod Json
pub mod Platform
pub mod Ledger
pub mod Kms
mod Tests
pub mod Metadata
pub mod Signing
pub mod Anchor
pub mod Store
pub mod Audit
pub mod Processing
pub mod ObjectStore
pub mod Gates
