-- ===== src/TaskGraph/Reachable.antt =====
-- What holds of every graph that the script can have written.
use tanden_trust_audit_poc.Base.{
  ℕ, ◌+◌, ◌*◌, ◌≤◌, ◌≡◌, refl, String, Bool, Option, none, some, arith, is_truthy, or_else, Number,
  ok, length, length_snoc, leb, inl, inr, Option-cases, if◌then◌else◌,
}
use tanden_trust_audit_poc.TaskGraph.Model.{
  builder, reviewer, security_reviewer, verification, pass, skipped, complete, Event, Roles, Graph,
  create_initial_graph, parse_event,
}
use tanden_trust_audit_poc.TaskGraph.Events.{apply_known, apply_event}
use tanden_trust_audit_poc.TaskGraph.Workflow.{
  Position, working, done, stopped, next, retries_used, StandsAt,
}
use tanden_trust_audit_poc.TaskGraph.Refinement.{Implements, apply_known-Implements}

-- How many more events a graph at a position accepts, if no failure is routed back.
abbrev steps_left : Position → ℕ
steps_left (working builder) = 4
steps_left (working reviewer) = 3
steps_left (working security_reviewer) = 2
steps_left (working verification) = 1
steps_left done = 0
steps_left (stopped _) = 0

-- The invariant: a place in the workflow, the retries within their limit, and a history that the
-- retries and the steps left bound.
pub record IsSound (d : Bool) (p : Position) (g : Graph) : Type 0 where
  pub stands : StandsAt d p g
  pub retries : g.retry_count ≤ g.max_retries
  pub bounded : length g.history + steps_left p ≤ 4 * (g.retry_count + 1)

create_initial_graph-IsSound :
    (slug : String) (roles : Roles) (n : Number) (now : Option String) (c₁ c₂ : String) {g : Graph}
    → create_initial_graph slug roles n now c₁ c₂ ≡ ok g
    → IsSound (is_truthy roles.security_reviewer) (working builder) g
unfolding create_initial_graph
create_initial_graph-IsSound slug roles n now c₁ c₂ h = ground arith

pub create_initial_graph-feature :
    (slug : String) (roles : Roles) (n : Number) (now : Option String) (c₁ c₂ : String) {g : Graph}
    → create_initial_graph slug roles n now c₁ c₂ ≡ ok g
    → g.feature ≡ slug
unfolding create_initial_graph
create_initial_graph-feature slug roles n now c₁ c₂ h = ground arith

-- What an accepted event leaves alone, and the entry that it adds.
apply_known_frame :
    (g : Graph) (e : Event) (now : String) {g' : Graph}
    → apply_known g e now ≡ ok g'
    → (length g'.history ≡ length g.history + 1)
      × (g'.max_retries ≡ g.max_retries)
      × (g'.feature ≡ g.feature)
      × (g'.roles ≡ g.roles)
unfolding apply_known
apply_known_frame g e now h = grind (arith, length_snoc)

-- The measure falls at every accepted event, and a retry pays for a new round.
next-steps_left :
    (d x : Bool) (p p' : Position) (e : Event)
    → next d x p e ≡ some p'
    → steps_left p' + 1 ≤ steps_left p + 4 * retries_used x e
next-steps_left d x (working builder) p' e h = ground arith
next-steps_left d x p p' e h = ground arith

-- An accepted event keeps the invariant, at the next position.
apply_known-IsSound :
    (d : Bool) (p : Position) (g : Graph) (e : Event) (now : String) {g' : Graph}
    → IsSound d p g
    → apply_known g e now ≡ ok g'
    → (p' : Position) × IsSound d p' g'
apply_known-IsSound d p g e now {g'} s h =
    advance (next d x p e) refl (rw h at (apply_known-Implements d p g e now s.stands))
  where
    x : Bool
    x = leb g.max_retries g.retry_count

    advance :
        (q : Option Position)
        → next d x p e ≡ q
        → Implements d (g.retry_count + retries_used x e) q (ok g')
        → (p' : Position) × IsSound d p' g'
    advance none eq i = absurd i
    advance (some p') eq i = (
      p',
      record {
        stands = i.0;
        retries = ground (arith, apply_known_frame g e now h);
        bounded =
            ground (arith, apply_known_frame g e now h, next-steps_left d x p p' e eq, s.bounded);
      },
    )

-- The graphs that `createInitialGraph` and any accepted events lead to.
pub data Reachable : Graph → Type 0 where
  initial :
      (slug : String) (roles : Roles) (n : Number) (now : Option String) (c₁ c₂ : String)
      {g : Graph}
      → create_initial_graph slug roles n now c₁ c₂ ≡ ok g
      → Reachable g
  after :
      (event : String) (now : Option String) (clock : String) {g g' : Graph}
      → Reachable g
      → apply_event g event now clock ≡ ok g'
      → Reachable g'

-- An accepted text names one of the eight events.
apply_event-eq-ok :
    (g : Graph) (event : String) (now : Option String) (clock : String) {g' : Graph}
    → apply_event g event now clock ≡ ok g'
    → (e : Event) × (apply_known g e (or_else now clock) ≡ ok g')
unfolding apply_event
apply_event-eq-ok g event now clock h = elim (Option-cases (parse_event event)) [
  | inl unknown ↦ absurd (ground arith)
  | inr (e, known) ↦ (e, ground arith)
]

pub apply_event-feature :
    (g : Graph) (event : String) (now : Option String) (clock : String) {g' : Graph}
    → apply_event g event now clock ≡ ok g'
    → g'.feature ≡ g.feature
apply_event-feature g event now clock h =
    let (e, known) = apply_event-eq-ok g event now clock h in
    (apply_known_frame g e (or_else now clock) known).2

-- Every reachable graph stands at a place of the workflow, has granted at most `maxRetries`
-- retries, and has a history that the granted retries bound.
pub Reachable-IsSound : {g : Graph} → Reachable g → (d : Bool) × (p : Position) × IsSound d p g
Reachable-IsSound (initial slug roles n now c₁ c₂ h) = (
  is_truthy roles.security_reviewer,
  working builder,
  create_initial_graph-IsSound slug roles n now c₁ c₂ h,
)
Reachable-IsSound (after event now clock {g} r h) =
    let (d, p, s) = Reachable-IsSound r in
    let (e, known) = apply_event-eq-ok g event now clock h in
    let (p', s') = apply_known-IsSound d p g e (or_else now clock) s known in (d, p', s')

-- A reachable graph has accepted at most four events for each round, and there are at most
-- `maxRetries + 1` rounds: no workflow goes on for ever.
pub Reachable-history_bounded :
    {g : Graph} → Reachable g → length g.history ≤ 4 * (g.max_retries + 1)
Reachable-history_bounded r =
    let (d, p, s) = Reachable-IsSound r in omega (arith, s.bounded, s.retries)

-- A reachable graph that is COMPLETE has the Builder, the Reviewer and the Verification Gate on
-- PASS, and the Security Reviewer too where one is delegated (SKIPPED where none is).
pub Reachable-complete :
    {g : Graph}
    → Reachable g
    → g.status ≡ complete
    → (g.tasks.builder.status ≡ pass)
      × (g.tasks.reviewer.status ≡ pass)
      × (g.tasks.security_reviewer.status
          ≡ (if is_truthy g.roles.security_reviewer then pass else skipped))
      × (g.tasks.verification.status ≡ pass)
Reachable-complete r c = let (d, p, s) = Reachable-IsSound r in ground (arith, s.stands)
