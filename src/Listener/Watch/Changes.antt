-- ===== src/Listener/Watch/Changes.antt =====
-- The watch publishes changes of a version, and nothing else.
use reloader.Prelude.{
  String, false, ◌==◌, eq_iff, ◌≡◌, ◌≢◌, ◌↔◌, inl, inr, refl, sym, ap, ◌∙◌, Option, none, some,
  some-injective, List, [], ◌∷◌, if◌then◌else◌, Map, lookup, lookup-insert, is_some, Bool-cases,
  Option-cases,
}
use reloader.Events.{SecretRotationEvent}
use reloader.Manager.{NamespacedName, name_eq, same_name, same_name_iff}
use reloader.Listener.Watch.{Report, event_of, map_report, versions_after}

-- The version of an object in the last report of it that was not of its deletion, told from the
-- reports themselves; `before` is its version before them.
unfoldable pub last_version : NamespacedName → List Report → Option String → Option String
last_version n [] before = before
last_version n (r ∷ rs) before = last_version n rs (
    if is_some r.deletion_timestamp
    then before
    else if same_name r.name n
    then some r.resource_version
    else before)

unchanged :
    (n : NamespacedName) (r : Report) (versions : Map NamespacedName String) {v : String}
    → lookup r.name versions ≡ some v
    → r.resource_version ≡ v
    → lookup n versions
      ≡ (if same_name r.name n then some r.resource_version else lookup n versions)
unchanged n r versions {v} known same = elim (Bool-cases (same_name r.name n)) [
  | inr other ↦ rw other refl
  | inl this ↦ rw this (
      ap (λ m. lookup m versions) (sym ((same_name_iff r.name n).0 this))
      ∙ known
      ∙ ap some (sym same))
]

lookup-map_report :
    (n : NamespacedName) (r : Report) (versions : Map NamespacedName String)
    → lookup n (map_report r versions).0 ≡ (
        if is_some r.deletion_timestamp
        then lookup n versions
        else if same_name r.name n
        then some r.resource_version
        else lookup n versions)
unfolding map_report
lookup-map_report n r versions = elim (Bool-cases (is_some r.deletion_timestamp)) [
  | inl dying ↦ rw (dying, map_report) refl
  | inr alive ↦ elim (Option-cases (lookup r.name versions)) [
    | inl new ↦ rw (alive, new, map_report) (lookup-insert r.name n r.resource_version versions)
    | inr (v, known) ↦ elim (Bool-cases (r.resource_version == v)) [
      | inl same ↦
          rw (alive, known, same, map_report)
            (unchanged n r versions known ((eq_iff r.resource_version v).0 same))
      | inr changed ↦
          rw (alive, known, changed, map_report)
            (lookup-insert r.name n r.resource_version versions)
    ]
  ]
]

versions-last :
    (n : NamespacedName) (rs : List Report) (versions : Map NamespacedName String)
    → lookup n (versions_after rs versions) ≡ last_version n rs (lookup n versions)
unfolding versions_after last_version
versions-last n [] versions = refl
versions-last n (r ∷ rs) versions =
    versions-last n rs (map_report r versions).0
    ∙ ap (last_version n rs) (lookup-map_report n r versions)

publishes_to :
    (r : Report) (versions : Map NamespacedName String) (event : SecretRotationEvent)
    → (map_report r versions).1 ≡ some event
    → (event ≡ event_of r)
      × ((is_some r.deletion_timestamp ≡ false)
          × ((v : String) × ((lookup r.name versions ≡ some v) × (r.resource_version ≢ v))))
unfolding map_report
publishes_to r versions event e = elim (Bool-cases (is_some r.deletion_timestamp)) [
  | inl dying ↦ absurd (cc (rw (dying, map_report) at e))
  | inr alive ↦ elim (Option-cases (lookup r.name versions)) [
    | inl new ↦ absurd (cc (rw (alive, new, map_report) at e))
    | inr (v, known) ↦ elim (Bool-cases (r.resource_version == v)) [
      | inl same ↦ absurd (cc (rw (alive, known, same, map_report) at e))
      | inr changed ↦ (
        sym (some-injective (event_of r) event (rw (alive, known, changed, map_report) at e)),
        (alive, (v, (known, λ h. absurd (cc (sym ((eq_iff r.resource_version v).1 h) ∙ changed))))),
      )
    ]
  ]
]

publishes_from :
    (r : Report) (versions : Map NamespacedName String) (v : String)
    → is_some r.deletion_timestamp ≡ false
    → lookup r.name versions ≡ some v
    → r.resource_version ≢ v
    → (map_report r versions).1 ≡ some (event_of r)
unfolding map_report
publishes_from r versions v alive known changed = elim (Bool-cases (r.resource_version == v)) [
  | inl same ↦ absurd (changed ((eq_iff r.resource_version v).0 same))
  | inr other ↦ rw (alive, known, other, map_report) refl
]

-- After any run of reports, from a watch that has just started, the next report publishes an event
-- exactly if it is not of a deletion, an earlier report gave the object's version, and the last such
-- version differs from the reported one; the event names the object and its namespace.
pub map_report-publishes_iff :
    (past : List Report) (r : Report) (event : SecretRotationEvent)
    → ((map_report r (versions_after past [])).1 ≡ some event) ↔ (
        (event ≡ event_of r)
        × ((is_some r.deletion_timestamp ≡ false)
            × ((v : String) × ((last_version r.name past none ≡ some v)
                  × (r.resource_version ≢ v)))))
unfolding lookup
map_report-publishes_iff past r event =
    let last = versions-last r.name past [] in
    (
      (λ e.
          let (named, (alive, (v, (known, changed)))) =
            publishes_to r (versions_after past []) event e in
          (named, (alive, (v, (sym last ∙ known, changed))))),
      (λ (named, (alive, (v, (known, changed)))).
          publishes_from r (versions_after past []) v alive (last ∙ known) changed
          ∙ ap some (sym named)),
    )
