-- ===== src/Handler/Matching/Watched.antt =====
-- An object is watched exactly if it meets all three parts of a destination's criteria.
use reloader.Prelude.{List, [], ok, All, Any, ◌≡◌, ◌⊎◌}
use reloader.Api.{LabelSelector, DestinationCriteria}
use reloader.Handler.Objects.{ObjectMeta, Cluster}
use reloader.Handler.Matching.{Labels}
use reloader.Handler.Matching.Selectors.{Selects, IsValidSelector, SelectedBy}

module _ {W : Type 0} (cluster : Cluster W) (w : W) where
  -- A destination watches an object: all its namespace selectors are valid and one of them, if there
  -- is one, matches the labels of the object's namespace; its label selector, if there is one,
  -- matches the object's labels; and its names, if there are any, hold the object's name.
  pub record Watched (meta : ObjectMeta) (c : DestinationCriteria) : Type 0 where
    pub valid : All (IsValidSelector cluster w) c.namespace_selectors
    pub namespaced :
        (c.namespace_selectors ≡ [])
        ⊎ ((labels : Labels) × (cluster.namespace_labels w meta.namespace ≡ ok labels)
            × Any (λ s. Selects cluster w s labels) c.namespace_selectors)
    pub labelled : SelectedBy cluster w c.label_selectors meta.labels
    pub named : (c.names ≡ []) ⊎ Any (λ n. n ≡ meta.name) c.names

  -- Some namespace selector matches, or there is none.
  abbrev pub InNamespace : ObjectMeta → List LabelSelector → Type 0
  InNamespace meta ss =
      (ss ≡ [])
      ⊎ ((labels : Labels) × (cluster.namespace_labels w meta.namespace ≡ ok labels)
          × Any (λ s. Selects cluster w s labels) ss)
