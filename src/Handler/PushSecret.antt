-- ===== src/Handler/PushSecret.antt =====
-- internal/handler/pushsecret: the handler of PushSecrets.
pub mod References
pub mod Selected
use reloader.Prelude.{
  String, Bool, ◌||◌, ◌==◌, List, [], ◌∷◌, Result, ok, err, string_eq, insert, any, if◌then◌else◌,
  is_some,
}
use reloader.Events.{SecretRotationEvent}
use reloader.Api.{DestinationToWatch}
use reloader.Handler.Objects.{
  ObjectMeta, PushSecret, Object, is_named, set_meta, push_secret, Cluster,
}
use reloader.Handler.Matching.{is_push_secret_watched}
use reloader.Handler.Schema.{
  HandlerError, wrong_destination, list_failed, wrong_object, update_failed, Provider,
}

-- `_references`
unfoldable pub references : Object → String → Result HandlerError Bool
references (push_secret p) identifier =
    ok (is_named identifier p.selector_secret || any (λ key. key == identifier) p.remote_keys)
references _ identifier = err wrong_object

-- The annotations that an update sets.
unfoldable pub annotate : SecretRotationEvent → ObjectMeta → ObjectMeta
annotate event m = record m {
  annotations =
      insert "reloader/trigger-source" event.trigger_source
        (insert "reloader/last-rotated" event.rotation_timestamp m.annotations);
}

module _ {W : Type 0} (cluster : Cluster W) where
  -- The loop of `Filter`: an object that fails to be matched is skipped.
  unfoldable pub filter_items : W → DestinationToWatch → List PushSecret → List Object
  filter_items w dest [] = []
  filter_items w dest (p ∷ ps) =
      let rest = filter_items w dest ps in
      elim (is_push_secret_watched cluster w p dest) [
        | err _ ↦ rest
        | ok watched ↦ if watched then push_secret p ∷ rest else rest
      ]

  -- The event's namespace is not looked at.
  unfoldable pub filter :
      DestinationToWatch
      → DestinationToWatch
      → SecretRotationEvent
      → W
      → Result HandlerError (List Object)
  filter cache dest event w =
      if is_some dest.push_secret
      then elim (cluster.list_push_secrets w) [
        | err e ↦ err (list_failed e)
        | ok items ↦ ok (filter_items w cache items)
      ]
      else err wrong_destination

  -- `_apply`, which takes any object.
  unfoldable pub apply : Object → SecretRotationEvent → W → Result HandlerError (Unit {0}) × W
  apply obj event w =
      let (r, w') = cluster.update (set_meta (annotate event) obj) w in
      (elim r [ ok _ ↦ ok tt | err e ↦ err (update_failed e) ], w')

  -- `_waitFor`
  unfoldable pub wait_for : Object → W → Result HandlerError (Unit {0}) × W
  wait_for obj w = (ok tt, w)

  -- `NewHandler`
  abbrev pub new_handler : Provider W
  new_handler cache = record {
    filter = filter cache;
    references = references;
    apply = apply;
    wait_for = wait_for;
  }
