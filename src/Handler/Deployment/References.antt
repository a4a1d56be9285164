-- ===== src/Handler/Deployment/References.antt =====
-- Which Deployments refer to a secret.
use reloader.Prelude.{
  String, true, ◌||◌, ◌≡◌, ◌↔◌, ◌⊎◌, inl, inr, sym, ap, ◌∙◌, some, some-injective, Any, any_iff,
  or_of, ok, Option-cases, ok-injective,
}
use reloader.Handler.Objects.{
  EnvVarSource, EnvVar, EnvFromSource, Container, Deployment, is_named, is_named_iff, deployment,
}
use reloader.Handler.Deployment.{env_references, env_from_references, contains_key, references}

-- A variable whose value comes from a key of the Secret or of the ConfigMap.
abbrev pub VarRefers : String → EnvVar → Type 0
VarRefers name v =
    (from : EnvVarSource) × ((v.value_from ≡ some from)
      × ((from.secret_key_ref ≡ some name) ⊎ (from.config_map_key_ref ≡ some name)))

-- A set of variables that is the Secret or the ConfigMap.
abbrev pub SetRefers : String → EnvFromSource → Type 0
SetRefers name e = (e.secret_ref ≡ some name) ⊎ (e.config_map_ref ≡ some name)

abbrev pub ContainerRefers : String → Container → Type 0
ContainerRefers name c = Any (VarRefers name) c.env ⊎ Any (SetRefers name) c.env_from

set_iff :
    (name : String) (e : EnvFromSource) → (env_from_references name e ≡ true) ↔ SetRefers name e
set_iff name e = or_of (is_named_iff name e.secret_ref) (is_named_iff name e.config_map_ref)

from_iff :
    (name : String) (from : EnvVarSource)
    → ((is_named name from.secret_key_ref || is_named name from.config_map_key_ref) ≡ true)
      ↔ ((from.secret_key_ref ≡ some name) ⊎ (from.config_map_key_ref ≡ some name))
from_iff name from =
    or_of (is_named_iff name from.secret_key_ref) (is_named_iff name from.config_map_key_ref)

var_iff : (name : String) (v : EnvVar) → (env_references name v ≡ true) ↔ VarRefers name v
var_iff name v = elim (Option-cases v.value_from) [
  | inl gone ↦ (
    (λ e. absurd (cc (rw (gone, env_references) at e))),
    (λ (from, (there, h)). absurd (cc (sym gone ∙ there))),
  )
  | inr (from, there) ↦ (
    (λ e. (from, (there, (from_iff name from).0 (rw (there, env_references) at e)))),
    (λ (other, (also, h)).
        let same : other ≡ from = some-injective other from (sym also ∙ there) in
        rw (there, env_references) ((from_iff name from).1 (rw same at h))),
  )
]

container_iff :
    (name : String) (c : Container) → (contains_key c name ≡ true) ↔ ContainerRefers name c
unfolding contains_key
container_iff name c =
    or_of (any_iff (env_references name) (var_iff name) c.env)
      (any_iff (env_from_references name) (set_iff name) c.env_from)

-- A Deployment refers to a name exactly if a variable of one of its containers takes its value from
-- a key of the Secret or the ConfigMap of that name, or one of its containers takes all its variables
-- from it.
pub references-deployment_iff :
    (d : Deployment) (name : String)
    → (references (deployment d) name ≡ ok true) ↔ Any (ContainerRefers name) d.containers
unfolding references
references-deployment_iff d name =
    let (to, from) =
      any_iff (λ (c : Container). contains_key c name) (container_iff name) d.containers in
    ((λ e. to (ok-injective e)), (λ h. ap ok (from h)))
