-- ===== src/Api/Destinations.antt =====
-- api/v1alpha1: the destinations to watch, their strategies, and the specification of a Config.
use reloader.Prelude.{ℕ, String, Option, List}
use reloader.Api.Sources.{LabelSelector, NotificationSource}

-- The fields that all four destination types have.
pub record DestinationCriteria : Type 0 where
  pub namespace_selectors : List LabelSelector
  pub label_selectors : Option LabelSelector
  pub names : List String

pub record PatchOperationConfig : Type 0 where
  pub path : String
  pub template : String

pub record UpdateStrategy : Type 0 where
  pub operation : String
  pub patch_operation_config : Option PatchOperationConfig

pub record Condition : Type 0 where
  pub value : String
  pub operation : String

pub record MatchStrategy : Type 0 where
  pub path : String
  pub conditions : List Condition

pub record WaitForCondition : Type 0 where
  pub retry_timeout : Option ℕ
  pub max_retries : Option ℕ
  pub type : String
  pub status : String
  pub message : String
  pub reason : String
  pub transitioned_after : Option ℕ
  pub updated_after : Option ℕ

pub record WaitStrategy : Type 0 where
  pub time : Option ℕ
  pub condition : Option WaitForCondition

pub record DestinationToWatch : Type 0 where
  pub type : String
  pub workflow_run_template : Option DestinationCriteria
  pub external_secret : Option DestinationCriteria
  pub push_secret : Option DestinationCriteria
  pub deployment : Option DestinationCriteria
  pub update_strategy : Option UpdateStrategy
  pub match_strategy : Option MatchStrategy
  pub wait_strategy : Option WaitStrategy

pub record ConfigSpec : Type 0 where
  pub notification_sources : List NotificationSource
  pub destinations_to_watch : List DestinationToWatch
