-- ===== src/Handler/PushSecret/References.antt =====
-- Which PushSecrets refer to a secret.
use reloader.Prelude.{
  String, true, ◌==◌, eq_iff, ◌≡◌, ◌↔◌, ◌⊎◌, ap, some, Any, any_iff, or_of, ok, ok-injective,
}
use reloader.Handler.Objects.{PushSecret, is_named_iff, push_secret}
use reloader.Handler.PushSecret.{references}

-- A PushSecret refers to a name exactly if it selects the Secret of that name, or pushes to a remote
-- key of that name.
pub references-push_secret_iff :
    (p : PushSecret) (name : String)
    → (references (push_secret p) name ≡ ok true)
      ↔ ((p.selector_secret ≡ some name) ⊎ Any (λ key. key ≡ name) p.remote_keys)
unfolding references
references-push_secret_iff p name =
    let (to, from) =
      or_of (is_named_iff name p.selector_secret)
        (any_iff (λ key. key == name) (λ key. eq_iff key name) p.remote_keys) in
    ((λ e. to (ok-injective e)), (λ h. ap ok (from h)))
