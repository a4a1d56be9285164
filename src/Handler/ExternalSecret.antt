-- ===== src/Handler/ExternalSecret.antt =====
-- internal/handler/externalsecret: the handler of ExternalSecrets.
pub mod References
pub mod Annotated
use reloader.Prelude.{
  String, Bool, true, false, ◌||◌, ◌==◌, Option, none, some, List, [], ◌∷◌, Result, ok, err,
  string_eq, insert, any, if◌then◌else◌, is_some,
}
use reloader.Events.{SecretRotationEvent}
use reloader.Api.{DestinationToWatch}
use reloader.Handler.Objects.{
  ObjectMeta, DataFrom, TemplateFrom, ExternalSecret, Object, is_named, set_meta, external_secret,
  Cluster,
}
use reloader.Handler.Matching.{is_external_secret_watched}
use reloader.Handler.Schema.{
  HandlerError, wrong_destination, list_failed, wrong_object, regexp_panic, update_failed, Provider,
}

abbrev template_references : String → TemplateFrom → Bool
template_references identifier tf =
    is_named identifier tf.config_map || is_named identifier tf.secret

abbrev templates_reference : String → Option (List TemplateFrom) → Bool
templates_reference identifier none = false
templates_reference identifier (some tfs) = any (template_references identifier) tfs

-- The annotations that an update sets.
unfoldable pub annotate : SecretRotationEvent → ObjectMeta → ObjectMeta
annotate event m = record m {
  annotations =
      insert "reloader/trigger-source" event.trigger_source
        (insert "reloader/last-rotated" event.rotation_timestamp m.annotations);
}

module _ {W : Type 0} (cluster : Cluster W) where
  -- The pattern of `find.name`, if there is one; `MustCompile` panics if it does not compile.
  find_references : String → Option (Option String) → Result HandlerError Bool
  find_references identifier none = ok false
  find_references identifier (some none) = ok false
  find_references identifier (some (some pattern)) =
      elim (cluster.regexp_matches pattern identifier) [
        | none ↦ err regexp_panic
        | some matched ↦ ok matched
      ]

  -- The loop over `dataFrom`, and what follows it.
  data_from_references :
      String → Option (List TemplateFrom) → List DataFrom → Result HandlerError Bool
  data_from_references identifier template [] = ok (templates_reference identifier template)
  data_from_references identifier template (d ∷ ds) =
      let rest = data_from_references identifier template ds in
      if is_named identifier d.extract then ok true else elim (find_references identifier d.find) [
        | err e ↦ err e
        | ok found ↦ if found then ok true else rest
      ]

  -- `_references`
  unfoldable pub references : Object → String → Result HandlerError Bool
  unfolding data_from_references find_references
  references (external_secret e) identifier =
      if any (λ key. key == identifier) e.remote_keys
      then ok true
      else data_from_references identifier e.template e.data_from
  references _ identifier = err wrong_object

  -- The loop of `Filter`: an object that fails to be matched is skipped.
  unfoldable pub filter_items : W → DestinationToWatch → List ExternalSecret → List Object
  filter_items w dest [] = []
  filter_items w dest (e ∷ es) =
      let rest = filter_items w dest es in
      elim (is_external_secret_watched cluster w e dest) [
        | err _ ↦ rest
        | ok watched ↦ if watched then external_secret e ∷ rest else rest
      ]

  -- The event's namespace is not looked at.
  unfoldable pub filter :
      DestinationToWatch
      → DestinationToWatch
      → SecretRotationEvent
      → W
      → Result HandlerError (List Object)
  filter cache dest event w =
      if is_some dest.external_secret
      then elim (cluster.list_external_secrets w) [
        | err e ↦ err (list_failed e)
        | ok items ↦ ok (filter_items w cache items)
      ]
      else err wrong_destination

  -- `_apply`, which takes any object.
  unfoldable pub apply : Object → SecretRotationEvent → W → Result HandlerError (Unit {0}) × W
  apply obj event w =
      let (r, w') = cluster.update (set_meta (annotate event) obj) w in
      (elim r [ ok _ ↦ ok tt | err e ↦ err (update_failed e) ], w')

  -- `_waitFor`
  unfoldable pub wait_for : Object → W → Result HandlerError (Unit {0}) × W
  wait_for obj w = (ok tt, w)

  -- `NewHandler`
  abbrev pub new_handler : Provider W
  new_handler cache = record {
    filter = filter cache;
    references = references;
    apply = apply;
    wait_for = wait_for;
  }
