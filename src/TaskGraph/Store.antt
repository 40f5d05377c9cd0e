-- ===== src/TaskGraph/Store.antt =====
-- The files of several features: each holds a reachable graph of its own feature.
use tanden_trust_audit_poc.Base.{
  ◌≡◌, ◌≢◌, String, Option, none, some, Result, ok, err, Number, arith, eq_iff, eq_refl, str_eq,
  inl, if◌then◌else◌, inr, Bool, Bool-cases, sym, ap, true, false, subst, ◌∙◌, refl, require, ◌>>=◌,
  ◌>>◌,
}
use tanden_trust_audit_poc.TaskGraph.Model.{
  Roles, Graph, OrchestratorError, create_initial_graph, feature_mismatch, validate_feature_slug,
}
use tanden_trust_audit_poc.TaskGraph.Events.{apply_event}
use tanden_trust_audit_poc.TaskGraph.Paths.{KeepsApart}
use tanden_trust_audit_poc.TaskGraph.Files.{
  Files, write_graph, or_missing, init_graph, transition_graph,
}
use tanden_trust_audit_poc.TaskGraph.Reachable.{
  Reachable, initial, after, create_initial_graph-feature, apply_event-feature,
}

-- A reachable graph in the file of the feature that it names, whose slug is valid.
pub record Belongs (path : String → String) (file : String) (g : Graph) : Type 0 where
  pub named : validate_feature_slug g.feature ≡ ok tt
  pub in_place : path g.feature ≡ file
  pub reachable : Reachable g

abbrev pub IsValid : (String → String) → Files → Type 0
IsValid path files = (file : String) (g : Graph) → files file ≡ some g → Belongs path file g

-- What a command that returns has done: its slug is valid, the file of its feature holds the graph
-- that it returns, the files stay valid, no other file has changed, and neither has the graph of any
-- other feature.
pub record Writes (path : String → String) (slug : String) (files files' : Files) (g : Graph)
    : Type 0 where
  pub named : validate_feature_slug slug ≡ ok tt
  pub feature : g.feature ≡ slug
  pub held : files' (path slug) ≡ some g
  pub files_valid : IsValid path files'
  pub others : (file : String) → file ≢ path slug → files' file ≡ files file
  pub other_features :
      (other : String)
      → validate_feature_slug other ≡ ok tt
      → other ≢ slug
      → files' (path other) ≡ files (path other)

create_initial_graph-named :
    (slug : String) (roles : Roles) (n : Number) (now : Option String) (c₁ c₂ : String) {g : Graph}
    → create_initial_graph slug roles n now c₁ c₂ ≡ ok g
    → validate_feature_slug slug ≡ ok tt
unfolding create_initial_graph validate_feature_slug
create_initial_graph-named slug roles n now c₁ c₂ h = ground arith

result_or : Graph × Files → Result OrchestratorError (Graph × Files) → Graph × Files
result_or r (ok r') = r'
result_or r (err e) = r

module _ (path : String → String) (apart : KeepsApart path) where
  -- A reachable graph of a valid feature, written to the file of this feature.
  write-Writes :
      (fault : Option String) (files files' : Files) (slug : String) (g g' : Graph)
      → IsValid path files
      → validate_feature_slug slug ≡ ok tt
      → g.feature ≡ slug
      → Reachable g
      → write_graph fault files (path slug) g ≡ ok (g', files')
      → Writes path slug files files' g'
  write-Writes (some e) files files' slug g g' v n f r h =
      absurd (unfold write_graph in ground arith)
  write-Writes none files files' slug g g' v n f r h =
      subst (λ (p : Graph × Files). Writes path slug files p.1 p.0) answer
        (record {
          named = n;
          feature = f;
          held = ground (arith, eq_refl (path slug));
          files_valid = valid;
          others = other;
          other_features = λ slug' named differs.
              other (path slug') (apart.apart_lem slug slug' n named differs);
        })
    where
      after_write : Files
      after_write file = if str_eq file (path slug) then some g else files file

      answer : ◌≡◌ {A = Graph × Files} (g, after_write) (g', files')
      answer = unfold result_or write_graph in ap (result_or (g, after_write)) h

      other : (file : String) → file ≢ path slug → after_write file ≡ files file
      other file differs = ground (arith, eq_iff file (path slug))

      here : Belongs path (path slug) g
      here = record { named = ap validate_feature_slug f ∙ n; in_place = ap path f; reachable = r }

      valid : IsValid path after_write
      valid file x h = elim (Bool-cases (str_eq file (path slug))) [
        | inl same ↦
            let at : g ≡ x = ground arith in
            let place : path slug ≡ file = sym ((eq_iff file (path slug)).0 same) in
            subst (λ y. Belongs path file y) at (subst (λ y. Belongs path y g) place here)
        | inr differs ↦ v file x (ground arith)
      ]

  -- An `initGraph` that returns, on valid files, was given a valid slug, has written only the file of
  -- its feature, and leaves valid files.
  pub init_graph-Writes :
      (fault : Option String) (files files' : Files) (slug : String)
      (delegation : Result String Roles) (n : Number) (now : Option String) (c₁ c₂ : String)
      (g : Graph)
      → IsValid path files
      → init_graph path fault files slug delegation n now c₁ c₂ ≡ ok (g, files')
      → Writes path slug files files' g
  init_graph-Writes fault files files' slug (err e) n now c₁ c₂ g v h =
      absurd (unfold init_graph in ground arith)
  init_graph-Writes fault files files' slug (ok roles) n now c₁ c₂ g v h =
      go (create_initial_graph slug roles n now c₁ c₂) refl (unfold init_graph in h)
    where
      go :
          (m : Result OrchestratorError Graph)
          → create_initial_graph slug roles n now c₁ c₂ ≡ m
          → (m >>= λ x. write_graph fault files (path slug) x) ≡ ok (g, files')
          → Writes path slug files files' g
      go (err e) eq k = absurd (ground arith)
      go (ok x) eq k =
          write-Writes fault files files' slug x g v
            (create_initial_graph-named slug roles n now c₁ c₂ eq)
            (create_initial_graph-feature slug roles n now c₁ c₂ eq)
            (initial slug roles n now c₁ c₂ eq) k

  -- A `transitionGraph` that returns, on valid files, was given the slug of the graph that it has
  -- found, which is a valid one, has written only the file of this feature, and leaves valid files.
  pub transition_graph-Writes :
      (fault : Option String) (files files' : Files) (slug event : String) (now : Option String)
      (clock : String) (g : Graph)
      → IsValid path files
      → transition_graph path fault files slug event now clock ≡ ok (g, files')
      → Writes path slug files files' g
  transition_graph-Writes fault files files' slug event now clock g v h =
      top (files (path slug)) refl (unfold transition_graph in h)
    where
      at_event :
          (current : Graph)
          → current.feature ≡ slug
          → Belongs path (path slug) current
          → (m : Result OrchestratorError Graph) → apply_event current event now clock ≡ m
          → (m >>= λ x. write_graph fault files (path slug) x) ≡ ok (g, files')
          → Writes path slug files files' g
      at_event current same b (err e) eq k = absurd (ground arith)
      at_event current same b (ok x) eq k =
          write-Writes fault files files' slug x g v (ap validate_feature_slug (sym same) ∙ b.named)
            (apply_event-feature current event now clock eq ∙ same)
            (after event now clock b.reachable eq) k

      at_feature :
          (current : Graph)
          → Belongs path (path slug) current
          → (same : Bool) → str_eq current.feature slug ≡ same
          → (require same feature_mismatch
              >> (apply_event current event now clock >>= λ x.
                  write_graph fault files (path slug) x))
            ≡ ok (g, files')
          → Writes path slug files files' g
      at_feature current b false eq k = absurd (ground arith)
      at_feature current b true eq k =
          at_event current ((eq_iff current.feature slug).0 eq) b
            (apply_event current event now clock) refl k

      top :
          (o : Option Graph)
          → files (path slug) ≡ o
          → (or_missing o >>= λ current.
              require (str_eq current.feature slug) feature_mismatch
              >> (apply_event current event now clock >>= λ x.
                  write_graph fault files (path slug) x))
            ≡ ok (g, files')
          → Writes path slug files files' g
      top none eq k = absurd (ground arith)
      top (some current) eq k =
          at_feature current (v (path slug) current eq) (str_eq current.feature slug) refl k
