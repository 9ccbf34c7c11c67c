-- ===== src/Suppression.antt =====
-- analyzer/src/analyzer/suppression.py: detections grouped into incidents, and incidents that echo a
-- deeper one. A time is in nanoseconds. The set `edges` is a list in the order in which Python visits it.
pub mod Runs
pub mod Chains
pub mod Endings
pub mod Echoes
pub mod Outcomes
mod Samples
use Prim.Native.String.{◌++◌ as str_append, compare}
use Prim.Native.Nat.{Ordering}
use distributed_tracing_plat.Prelude.{
  ℕ, zero, suc, ◌+◌, ◌-◌, ◌*◌, ◌/◌, ◌%◌, Bool, true, false, ◌&&◌, ◌||◌, not, String, string_eq,
  pair_eq, Eq, ◌==◌, Option, none, some, List, [], ◌∷◌, ◌++◌, map, filter, length, ltb, leb, eqb,
  if◌then◌else◌, contains, lookup, insert, insert_all, group, get_group, get_or, vals,
}
use distributed_tracing_plat.Prelude.Floats.{Floats}
use distributed_tracing_plat.Targets.{
  TargetKind, service, edge, kind_text, kind_eq, TargetKey, label,
}
use distributed_tracing_plat.Detectors.{Detection, Severity, warning, critical}

abbrev pub severity_rank : Severity → ℕ
severity_rank warning = 1
severity_rank critical = 2

pub record GroupedIncident (F : Type 0) : Type 0 where
  pub incident_id : String
  pub target : TargetKey
  pub detector : String
  pub start_window : ℕ
  pub end_window : ℕ
  pub window_count : ℕ
  pub peak_severity : Severity
  pub peak_deviation : F
  pub derived : Bool
  pub root_cause_incident_id : String

-- The key of `by_key` and of `by_target`: kind, label and detector.
abbrev pub Key : Type 0
Key = TargetKind × (String × String)

abbrev pub detection_key : {F : Type 0} → Detection F → Key
detection_key d = (d.target.kind, (label d.target, d.detector))

-- `sort(key=lambda d: d.window_start)`, which is stable.
unfoldable pub insert_by_start :
    {F : Type 0} → Detection F → List (Detection F) → List (Detection F)
insert_by_start d [] = d ∷ []
insert_by_start d (c ∷ cs) =
    let rest = insert_by_start d cs in
    if leb d.window_start c.window_start then d ∷ c ∷ cs else c ∷ rest

unfoldable pub sort_by_start : {F : Type 0} → List (Detection F) → List (Detection F)
sort_by_start [] = []
sort_by_start (d ∷ ds) = insert_by_start d (sort_by_start ds)

-- The inner loop of `group_detections`: `last` is the end of the current run `run`, which is in its order.
unfoldable pub runs_from :
    {F : Type 0}
    → ℕ
    → List (Detection F)
    → Detection F
    → List (Detection F)
    → List (List (Detection F))
runs_from window run last [] = run ∷ []
runs_from window run last (d ∷ ds) =
    let longer = runs_from window (run ++ d ∷ []) d ds in
    let fresh = runs_from window (d ∷ []) d ds in
    if leb (d.window_start - last.window_start) window then longer else run ∷ fresh

unfoldable pub runs : {F : Type 0} → ℕ → List (Detection F) → List (List (Detection F))
runs window [] = []
runs window (d ∷ ds) = runs_from window (d ∷ []) d ds

-- `run[-1]`, of a run with the first element `d`.
abbrev pub last_of : {F : Type 0} → Detection F → List (Detection F) → Detection F
last_of d [] = d
last_of d (e ∷ es) = last_of e es

-- The decimal digits of a number; a number has at most as many digits as its value plus one.
abbrev pub digit : ℕ → String
digit n = get_or ("0" ∷ "1" ∷ "2" ∷ "3" ∷ "4" ∷ "5" ∷ "6" ∷ "7" ∷ "8" ∷ []) n "9"

pub decimal_from : ℕ → ℕ → String
decimal_from zero n = ""
decimal_from (suc fuel) n = elim (ltb n 10) [
  | true ↦ digit n
  | false ↦ str_append (decimal_from fuel (n / 10)) (digit (n % 10))
]

-- `f"{seconds:.0f}"`, which rounds a half to the even number.
pub whole_seconds : ℕ → ℕ
whole_seconds ns =
    let q = ns / 1_000_000_000 in
    let r = ns % 1_000_000_000 in
    if ltb r 500_000_000 then q else if ltb 500_000_000 r then q + 1 else q + q % 2

abbrev pub incident_id_of : TargetKey → String → ℕ → String
incident_id_of target detector start = str_append (kind_text target.kind) (
    str_append ":" (
      str_append (label target) (
        str_append ":" (
          str_append detector
            (str_append ":" (decimal_from (whole_seconds start + 1) (whole_seconds start)))))))

module _ {F : Type 0} ⦃f : Floats F⦄ where
  -- The order of `(_SEVERITY_RANK[d.severity], abs(d.deviation))`.
  pub higher : Detection F → Detection F → Bool
  higher a b =
      ltb (severity_rank b.severity) (severity_rank a.severity)
      || (eqb (severity_rank b.severity) (severity_rank a.severity)
          && f.lt (f.abs_of b.deviation) (f.abs_of a.deviation))

  -- `max(run, key=...)`: the first of the highest.
  pub peak : Detection F → List (Detection F) → Detection F
  peak best [] = best
  peak best (d ∷ ds) = peak (if higher d best then d else best) ds

  -- `_build_incident`, on a run with the first element `first`.
  pub build_incident : String → Detection F → List (Detection F) → GroupedIncident F
  build_incident detector first rest =
      let p = peak first rest in
      record {
        incident_id = incident_id_of first.target detector first.window_start;
        target = first.target;
        detector = detector;
        start_window = first.window_start;
        end_window = (last_of first rest).window_start;
        window_count = length (first ∷ rest);
        peak_severity = p.severity;
        peak_deviation = p.deviation;
        derived = false;
        root_cause_incident_id = "";
      }

  unfoldable pub build_incidents : String → List (List (Detection F)) → List (GroupedIncident F)
  build_incidents detector [] = []
  build_incidents detector ([] ∷ rs) = build_incidents detector rs
  build_incidents detector ((d ∷ ds) ∷ rs) =
      build_incident detector d ds ∷ build_incidents detector rs

  unfoldable pub incidents_of : ℕ → List (Key × List (Detection F)) → List (GroupedIncident F)
  incidents_of window [] = []
  incidents_of window ((key, ds) ∷ groups) =
      build_incidents key.1.1 (runs window (sort_by_start ds)) ++ incidents_of window groups

  unfoldable pub group_detections : List (Detection F) → ℕ → List (GroupedIncident F)
  group_detections detections window =
      incidents_of window (group (map (λ d. (detection_key d, d)) detections))

-- Propagation. `by_target` keeps one incident of each key: the last.
abbrev pub incident_key : {F : Type 0} → GroupedIncident F → Key
incident_key i = (i.target.kind, (label i.target, i.detector))

abbrev pub by_target_of : {F : Type 0} → List (GroupedIncident F) → List (Key × GroupedIncident F)
by_target_of incidents = insert_all [] (map (λ i. (incident_key i, i)) incidents)

pub overlaps : {F : Type 0} → GroupedIncident F → GroupedIncident F → Bool
overlaps a b = leb a.start_window b.end_window && leb b.start_window a.end_window

abbrev pub string_ltb : String → String → Bool
string_ltb s t = elim (compare s t) [ Ordering.lt ↦ true | _ ↦ false ]

-- `min(candidates, key=lambda c: c.target.label())`: the first of the least.
pub least_label : {F : Type 0} → GroupedIncident F → List (GroupedIncident F) → GroupedIncident F
least_label best [] = best
least_label best (c ∷ cs) =
    least_label (if string_ltb (label c.target) (label best.target) then c else best) cs

-- `if downstream is not None and overlaps(incident, downstream)`
abbrev pub keep_affected :
    {F : Type 0}
    → GroupedIncident F
    → Option (GroupedIncident F)
    → List (GroupedIncident F)
    → List (GroupedIncident F)
keep_affected incident none rest = rest
keep_affected incident (some downstream) rest =
    if overlaps incident downstream then downstream ∷ rest else rest

module _ {F : Type 0} (by_target : List (Key × GroupedIncident F))
    (outgoing : List (String × List String)) where
  -- The incidents that the loop of `resolve_root` goes on to.
  pub affected : GroupedIncident F → List String → List (GroupedIncident F)
  affected incident [] = []
  affected incident (callee ∷ callees) =
      keep_affected incident (lookup (service, (callee, incident.detector)) by_target)
        (affected incident callees)

  abbrev pub downstream_of : GroupedIncident F → List (GroupedIncident F)
  downstream_of incident = affected incident (get_group incident.target.callee outgoing)

  pub choose : GroupedIncident F → List (GroupedIncident F) → GroupedIncident F
  choose incident [] = incident
  choose incident (c ∷ cs) = least_label c cs

  -- `resolve_root`, with fuel.
  pub resolve_root : ℕ → GroupedIncident F → List String → GroupedIncident F
  resolve_root zero incident visiting = incident
  resolve_root (suc fuel) incident visiting =
      if not (incident.target.kind == service) || contains visiting incident.incident_id
      then incident
      else choose incident (
          map (λ d. resolve_root fuel d (incident.incident_id ∷ visiting)) (downstream_of incident))

  abbrev pub mark_derived : GroupedIncident F → GroupedIncident F → GroupedIncident F
  mark_derived incident root = record incident {
    derived = true;
    root_cause_incident_id = root.incident_id;
  }

  -- A step of the recursion adds the identifier of an incident of `by_target`, so this is enough fuel.
  abbrev pub root_of : GroupedIncident F → GroupedIncident F
  root_of incident = resolve_root (length by_target + 1) incident []

  -- The bodies of the two loops that fill `resolved`.
  pub resolve_service :
      List (String × GroupedIncident F) → GroupedIncident F → List (String × GroupedIncident F)
  resolve_service resolved incident =
      let root = root_of incident in
      if not (incident.target.kind == service) || (root.incident_id == incident.incident_id)
      then resolved
      else insert incident.incident_id (mark_derived incident root) resolved

  pub derive_edge :
      List (String × GroupedIncident F)
      → GroupedIncident F
      → Option (GroupedIncident F)
      → List (String × GroupedIncident F)
  derive_edge resolved incident none = resolved
  derive_edge resolved incident (some callee_incident) =
      if not (overlaps incident callee_incident)
      then resolved
      else insert incident.incident_id (mark_derived incident (root_of callee_incident)) resolved

  pub resolve_edge :
      List (String × GroupedIncident F) → GroupedIncident F → List (String × GroupedIncident F)
  resolve_edge resolved incident =
      if not (incident.target.kind == edge)
      then resolved
      else derive_edge resolved incident
          (lookup (service, (incident.target.callee, incident.detector)) by_target)

  pub resolve_all :
      (List (String × GroupedIncident F) → GroupedIncident F → List (String × GroupedIncident F))
      → List (String × GroupedIncident F)
      → List (GroupedIncident F)
      → List (String × GroupedIncident F)
  resolve_all step resolved [] = resolved
  resolve_all step resolved (i ∷ is) = resolve_all step (step resolved i) is

  pub resolved_incidents : List (String × GroupedIncident F)
  resolved_incidents =
      resolve_all resolve_edge (resolve_all resolve_service [] (vals by_target)) (vals by_target)

abbrev pub or_else : {A : Type 0} → A → Option A → A
or_else a none = a
or_else a (some b) = b

-- `resolved.get(i.incident_id, i)`
pub replace_resolved :
    {F : Type 0} → List (String × GroupedIncident F) → GroupedIncident F → GroupedIncident F
replace_resolved resolved i = or_else i (lookup i.incident_id resolved)

pub suppress_propagated :
    {F : Type 0} → List (GroupedIncident F) → List (String × String) → List (GroupedIncident F)
suppress_propagated incidents edges =
    map (replace_resolved (resolved_incidents (by_target_of incidents) (group edges))) incidents
