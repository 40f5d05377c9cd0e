-- ===== src/TaskGraph/Paths.antt =====
-- scripts/agent-task-graph.js and scripts/create-agent-delegation.js: where the files of a feature
-- lie. `path.join` and the file system belong to the platform, so the file that
-- `path.join(root, ".kiro", "specs", slug, name)` names is a parameter. A slug with dots or slashes
-- may name the file of another feature.
use tanden_trust_audit_poc.Base.{String, ok, ◌≡◌, ◌≢◌}
use tanden_trust_audit_poc.TaskGraph.Model.{validate_feature_slug}

-- Slugs that `validateFeatureSlug` accepts are one segment of the path, so two of them lie in
-- different directories, and name different files (none is a link to another).
pub record KeepsApart (path : String → String) : Type 0 where
  pub apart_lem :
      (slug other : String)
      → validate_feature_slug slug ≡ ok tt
      → validate_feature_slug other ≡ ok tt
      → other ≢ slug
      → path other ≢ path slug
