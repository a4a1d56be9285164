-- ===== src/Secrets.antt =====
-- Reading a key of a Kubernetes Secret: internal/util/secret_retriever.go, and its users in the
-- webhook route, the Kubernetes watch and internal/util/resolvers. The cluster is a parameter.
pub mod Reads
use reloader.Prelude.{
  String, ◌≡◌, refl, Option, none, some, Result, ok, err, Map, string_eq, lookup, Option-cases,
  Result-cases, inl, inr,
}
use reloader.Api.{SecretKeySelector}

-- An error of the API server, as far as the program looks at it.
pub data ClientError : Type 0 where
  not_found : ClientError
  failed : String → ClientError

-- `client.Get` of a Secret, by name and namespace; a Secret is its `Data`.
abbrev pub GetSecret : Type 0
GetSecret = String → String → Result ClientError (Map String String)

pub data SecretError : Type 0 where
  selector_nil : SecretError
  get_failed : ClientError → SecretError
  key_not_found : String → String → SecretError

unfoldable pub get_secret : GetSecret → String → String → Result SecretError (Map String String)
get_secret client name namespace = elim (client name namespace) [
  | ok secret ↦ ok secret
  | err e ↦ err (get_failed e)
]

abbrev at_key : SecretKeySelector → Option String → Result SecretError String
at_key sel none = err (key_not_found sel.key sel.name)
at_key sel (some v) = ok v

-- `decodeSecret` of the webhook route.
unfoldable pub decode_secret : GetSecret → SecretKeySelector → Result SecretError String
unfolding get_secret
decode_secret client config = elim (get_secret client config.name config.namespace) [
  | err e ↦ err e
  | ok secret ↦ at_key config (lookup config.key secret)
]

-- `fetchSecretKey` of the Kubernetes watch; a nil selector is refused.
unfoldable pub fetch_secret_key : GetSecret → Option SecretKeySelector → Result SecretError String
unfolding get_secret
fetch_secret_key client none = err selector_nil
fetch_secret_key client (some sel) = elim (get_secret client sel.name sel.namespace) [
  | err e ↦ err e
  | ok secret ↦ at_key sel (lookup sel.key secret)
]

-- `SecretKeyRef` of the resolvers, which calls the client itself.
unfoldable pub secret_key_ref : GetSecret → SecretKeySelector → Result SecretError String
secret_key_ref client ref = elim (client ref.name ref.namespace) [
  | err e ↦ err (get_failed e)
  | ok secret ↦ at_key ref (lookup ref.key secret)
]

-- A reading of the cluster that does not go by the program: the value that a selector denotes.
pub record Denotes (client : GetSecret) (sel : SecretKeySelector) (v : String) : Type 0 where
  pub secret : Map String String
  pub read : client sel.name sel.namespace ≡ ok secret
  pub entry : lookup sel.key secret ≡ some v
