-- ===== src/Handler/Objects.antt =====
-- The Kubernetes objects that the handlers read and change, by the fields that the code uses, and
-- the cluster that they are read from. The types and the client are not part of this repository.
use reloader.Prelude.{
  true, eq_iff, ◌≡◌, ◌↔◌, ap, some-injective, false, ◌==◌, none, some, ℕ, String, Bool, Option,
  List, Map, Result,
}
use reloader.Api.{LabelSelector}
use reloader.Secrets.{ClientError}

pub record ObjectMeta : Type 0 where
  pub name : String
  pub namespace : String
  pub labels : Map String String
  pub annotations : Map String String

pub record EnvVarSource : Type 0 where
  pub secret_key_ref : Option String
  pub config_map_key_ref : Option String

pub record EnvVar : Type 0 where
  pub value_from : Option EnvVarSource

pub record EnvFromSource : Type 0 where
  pub secret_ref : Option String
  pub config_map_ref : Option String

pub record Container : Type 0 where
  pub env : List EnvVar
  pub env_from : List EnvFromSource

pub record DeploymentCondition : Type 0 where
  pub type : String
  pub status : String
  pub reason : String

pub record Deployment : Type 0 where
  pub meta : ObjectMeta
  pub generation : ℕ
  pub observed_generation : ℕ
  pub paused : Bool
  pub replicas : Option ℕ
  pub updated_replicas : ℕ
  pub available_replicas : ℕ
  pub ready_replicas : ℕ
  pub conditions : List DeploymentCondition
  pub template_annotations : Map String String
  pub containers : List Container

-- `find` is none, or the regular expression of the name to find, if there is one.
pub record DataFrom : Type 0 where
  pub extract : Option String
  pub find : Option (Option String)

pub record TemplateFrom : Type 0 where
  pub config_map : Option String
  pub secret : Option String

pub record ExternalSecret : Type 0 where
  pub meta : ObjectMeta
  pub remote_keys : List String
  pub data_from : List DataFrom
  pub template : Option (List TemplateFrom)

pub record PushSecret : Type 0 where
  pub meta : ObjectMeta
  pub selector_secret : Option String
  pub remote_keys : List String

pub record WorkflowRunTemplate : Type 0 where
  pub meta : ObjectMeta

-- client.Object
pub data Object : Type 0 where
  deployment : Deployment → Object
  external_secret : ExternalSecret → Object
  push_secret : PushSecret → Object
  workflow : WorkflowRunTemplate → Object

abbrev pub get_meta : Object → ObjectMeta
get_meta (deployment d) = d.meta
get_meta (external_secret e) = e.meta
get_meta (push_secret p) = p.meta
get_meta (workflow w) = w.meta

-- `SetAnnotations` on any object.
abbrev pub set_meta : (ObjectMeta → ObjectMeta) → Object → Object
set_meta f (deployment d) = deployment (record d { meta = f d.meta })
set_meta f (external_secret e) = external_secret (record e { meta = f e.meta })
set_meta f (push_secret p) = push_secret (record p { meta = f p.meta })
set_meta f (workflow w) = workflow (record w { meta = f w.meta })

-- A reference that may be nil, to the name.
abbrev pub is_named : String → Option String → Bool
is_named name none = false
is_named name (some other) = other == name

pub is_named_iff : (name : String) (o : Option String) → (is_named name o ≡ true) ↔ (o ≡ some name)
is_named_iff name none = ((λ e. absurd (cc e)), (λ e. absurd (cc e)))
is_named_iff name (some other) = (
  (λ e. ap some ((eq_iff other name).0 e)),
  (λ e. (eq_iff other name).1 (some-injective other name e)),
)

-- What a step of waiting for a Deployment meets: the timeout, or a read of it.
pub data Tick : Type 0 where
  timeout : Tick
  read : Result ClientError Deployment → Tick

-- The client, over the states `W` of the cluster; the meaning of a label selector, `none` if it is
-- invalid; and whether a regular expression matches a text, `none` if it does not compile.
pub record Cluster (W : Type 0) : Type 0 where
  pub as_selector : LabelSelector → Option (Map String String → Bool)
  pub regexp_matches : String → String → Option Bool
  pub namespace_labels : W → String → Result ClientError (Map String String)
  pub list_deployments : W → Option String → Result ClientError (List Deployment)
  pub list_external_secrets : W → Result ClientError (List ExternalSecret)
  pub list_push_secrets : W → Result ClientError (List PushSecret)
  pub list_workflows : W → Result ClientError (List WorkflowRunTemplate)
  pub update : Object → W → Result ClientError (Unit {0}) × W
  pub tick : String → String → W → Tick × W
