-- ===== src/Listener/Watch.antt =====
-- internal/listener/kubernetes/listener.go: the objects that a Kubernetes watch reports.
pub mod Changes
use Prim.Native.String.{◌++◌ as ◌+++◌}
use reloader.Prelude.{
  String, Bool, true, false, ◌==◌, Option, none, some, List, [], ◌∷◌, if◌then◌else◌, Map, lookup,
  insert, is_some,
}
use reloader.Events.{SecretRotationEvent}
use reloader.Manager.{NamespacedName, name_eq}

-- An object that the watch reports, and the time of the report.
pub record Report : Type 0 where
  pub name : NamespacedName
  pub resource_version : String
  pub deletion_timestamp : Option String
  pub now : String

-- The versions by name, and the events that are published.
abbrev pub Watched : Type 0
Watched = Map NamespacedName String × List SecretRotationEvent

abbrev pub event_of : Report → SecretRotationEvent
event_of r = record {
  secret_identifier = r.name.name;
  rotation_timestamp = r.now;
  trigger_source = "KubernetesSecret/" +++ r.name.name;
  namespace = r.name.namespace;
}

-- The map function of the watch: the versions that it leaves, and the event that it publishes.
unfoldable pub map_report :
    Report → Map NamespacedName String → Map NamespacedName String × Option SecretRotationEvent
map_report r versions =
    if is_some r.deletion_timestamp then (versions, none) else elim (lookup r.name versions) [
      | none ↦ (insert r.name r.resource_version versions, none)
      | some stored_version ↦
          if r.resource_version == stored_version
          then (versions, none)
          else (insert r.name r.resource_version versions, some (event_of r))
    ]

-- The versions after a run of reports.
unfoldable pub versions_after : List Report → Map NamespacedName String → Map NamespacedName String
unfolding map_report
versions_after [] versions = versions
versions_after (r ∷ rs) versions = versions_after rs (map_report r versions).0
