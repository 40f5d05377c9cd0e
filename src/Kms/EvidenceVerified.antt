-- ===== src/Kms/EvidenceVerified.antt =====
-- lib/aws-kms-provider.js: evidence that KMS has signed passes its verification, when KMS answers.
use tanden_trust_audit_poc.Json.{Json}
use tanden_trust_audit_poc.Kms.Provider.{Kms}
