-- ===== src/Handler/Matching.antt =====
-- Which objects a destination watches: internal/util/resource_watch.go and the `isResourceWatched`
-- of the four handlers, which have the same text.
pub mod Selectors
pub mod Watched
use reloader.Prelude.{
  String, Bool, true, false, ◌&&◌, ◌||◌, ◌==◌, Option, none, some, List, [], ◌∷◌, Result, ok, err,
  ◌>>=◌, Map, any, if◌then◌else◌,
}
use reloader.Api.{LabelSelector, DestinationCriteria, DestinationToWatch}
use reloader.Secrets.{ClientError}
use reloader.Handler.Objects.{
  ObjectMeta, Deployment, ExternalSecret, PushSecret, WorkflowRunTemplate, Cluster,
}

abbrev pub Labels : Type 0
Labels = Map String String

abbrev pub Selector : Type 0
Selector = Labels → Bool

pub data WatchError : Type 0 where
  wrong_type : WatchError
  invalid_namespace_selector : WatchError
  invalid_label_selector : WatchError
  namespace_failed : ClientError → WatchError

module _ {W : Type 0} (cluster : Cluster W) (w : W) where
  -- MatchesAnyNamespaceSelector
  unfoldable pub matches_any_namespace_selector :
      ObjectMeta → List Selector → Result WatchError Bool
  matches_any_namespace_selector meta [] = ok true
  matches_any_namespace_selector meta (s ∷ ss) = elim (cluster.namespace_labels w meta.namespace) [
    | err e ↦ err (namespace_failed e)
    | ok labels ↦ ok (any (λ (selector : Selector). selector labels) (s ∷ ss))
  ]

  -- MatchesLabelSelectors
  unfoldable pub matches_label_selectors : ObjectMeta → Option Selector → Bool
  matches_label_selectors meta none = true
  matches_label_selectors meta (some selector) = selector meta.labels

  -- IsNameInList
  unfoldable pub is_name_in_list : ObjectMeta → List String → Bool
  is_name_in_list meta [] = true
  is_name_in_list meta (n ∷ ns) = any (λ name. name == meta.name) (n ∷ ns)

  -- The loop that reads the namespace selectors.
  unfoldable pub read_selectors : List LabelSelector → Result WatchError (List Selector)
  read_selectors [] = ok []
  read_selectors (s ∷ ss) = elim (cluster.as_selector s) [
    | none ↦ err invalid_namespace_selector
    | some selector ↦ elim (read_selectors ss) [
      | err e ↦ err e
      | ok selectors ↦ ok (selector ∷ selectors)
    ]
  ]

  unfoldable pub read_label_selector : Option LabelSelector → Result WatchError (Option Selector)
  read_label_selector none = ok none
  read_label_selector (some s) = elim (cluster.as_selector s) [
    | none ↦ err invalid_label_selector
    | some selector ↦ ok (some selector)
  ]

  unfoldable pub is_watched : ObjectMeta → Option DestinationCriteria → Result WatchError Bool
  is_watched meta none = err wrong_type
  is_watched meta (some criteria) = do
    namespace_selectors ← read_selectors criteria.namespace_selectors
    label_selector ← read_label_selector criteria.label_selectors
    namespace_match ← matches_any_namespace_selector meta namespace_selectors
    ok (
        namespace_match
        && (matches_label_selectors meta label_selector && is_name_in_list meta criteria.names))

  -- `isResourceWatched` of each handler.
  abbrev pub is_deployment_watched : Deployment → DestinationToWatch → Result WatchError Bool
  is_deployment_watched d dest = is_watched d.meta dest.deployment

  abbrev pub is_external_secret_watched :
      ExternalSecret → DestinationToWatch → Result WatchError Bool
  is_external_secret_watched e dest = is_watched e.meta dest.external_secret

  abbrev pub is_push_secret_watched : PushSecret → DestinationToWatch → Result WatchError Bool
  is_push_secret_watched p dest = is_watched p.meta dest.push_secret

  abbrev pub is_workflow_watched : WorkflowRunTemplate → DestinationToWatch → Result WatchError Bool
  is_workflow_watched wf dest = is_watched wf.meta dest.workflow_run_template
