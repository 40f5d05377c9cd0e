-- ===== src/TaskGraph/Files.antt =====
-- scripts/agent-task-graph.js: `initGraph` and `transitionGraph`. A feature's file
-- `.kiro/specs/<feature>/agent-task-graph.json` is the graph that it holds: JSON.parse and
-- JSON.stringify are the platform's, and take a document of this shape to itself.
-- `path slug` is the file that `graphPath` names. What a write that fails leaves in its file is not
-- known, so an error comes without files.
use tanden_trust_audit_poc.Base.{
  String, Option, none, some, if◌then◌else◌, str_eq, Number, Result, ok, err, ◌>>=◌, ◌>>◌, require,
  map_err,
}
use tanden_trust_audit_poc.TaskGraph.Model.{
  Roles, Graph, OrchestratorError, write_failed, graph_missing, feature_mismatch,
  invalid_delegation, create_initial_graph,
}
use tanden_trust_audit_poc.TaskGraph.Events.{apply_event}

-- The graph in each file.
abbrev pub Files : Type 0
Files = String → Option Graph

-- fs.writeFileSync(outputPath, ...), with the error that it throws, if any.
unfoldable pub write_graph :
    Option String → Files → String → Graph → Result OrchestratorError (Graph × Files)
write_graph (some e) files file g = err (write_failed e)
write_graph none files file g = ok (g, λ other. if str_eq other file then some g else files other)

-- `if (!fs.existsSync(outputPath)) throw ...`.
abbrev pub or_missing : Option Graph → Result OrchestratorError Graph
or_missing none = err graph_missing
or_missing (some g) = ok g

module _ (path : String → String) (fault : Option String) where
  -- `delegation` is the result of `readDelegation`: the roles, or the error that it reports.
  unfoldable pub init_graph :
      Files
      → String
      → Result String Roles
      → Number
      → Option String
      → String
      → String
      → Result OrchestratorError (Graph × Files)
  init_graph files slug delegation max_retries now clock_1 clock_2 = do
    roles ← map_err invalid_delegation delegation
    g ← create_initial_graph slug roles max_retries now clock_1 clock_2
    write_graph fault files (path slug) g

  unfoldable pub transition_graph :
      Files → String → String → Option String → String → Result OrchestratorError (Graph × Files)
  transition_graph files slug event now clock = do
    current ← or_missing (files (path slug))
    require (str_eq current.feature slug) feature_mismatch
    g ← apply_event current event now clock
    write_graph fault files (path slug) g
