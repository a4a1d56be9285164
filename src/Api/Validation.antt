-- ===== src/Api/Validation.antt =====
-- api/v1alpha1/config_validation.go: at most one webhook source for each path suffix.
pub mod Unique
use reloader.Prelude.{
  ℕ, zero, suc, String, ◌≡◌, refl, ◌≢◌, ◌↔◌, ap, Option, none, some, List, [], ◌∷◌, ◌++◌, arith,
  ◌==◌, eq_iff, if◌then◌else◌, Map, string_eq, lookup, insert, lookup-insert, trim_space, All,
  Distinct, Result, ok, err, Bool-cases, Option-cases, inl, inr, true, false,
}
use reloader.Api.Sources.{NotificationSource, WebhookConfig}
use reloader.Api.Destinations.{ConfigSpec}

abbrev pub webhook_notification_source_type : String
webhook_notification_source_type = "Webhook"

-- The messages about a suffix that is used twice.
pub data Duplicate : Type 0 where
  both_omit : ℕ → ℕ → Duplicate
  duplicates : ℕ → String → ℕ → Duplicate

abbrev Seen : Type 0
Seen = Map String ℕ × List Duplicate

unfoldable pub suffix_of : NotificationSource → String
suffix_of source = elim source.webhook [ none ↦ "" | some w ↦ trim_space w.path_suffix ]

-- The body of the loop, at index `i`.
unfoldable pub validate_step : ℕ → NotificationSource → Seen → Seen
validate_step i source (seen, dups) =
    if source.type == webhook_notification_source_type
    then elim (lookup (suffix_of source) seen) [
      | some first_index ↦ (
        seen,
        dups
            ++ (if suffix_of source == ""
                then both_omit first_index i
                else duplicates i (suffix_of source) first_index)
              ∷ [],
      )
      | none ↦ (insert (suffix_of source) i seen, dups)
    ]
    else (seen, dups)

unfoldable pub validate_from : ℕ → List NotificationSource → Seen → Seen
validate_from i [] st = st
validate_from i (source ∷ rest) st = validate_from (suc i) rest (validate_step i source st)

abbrev verdict : List Duplicate → Result (List Duplicate) (Unit {0})
verdict [] = ok tt
verdict (d ∷ ds) = err (d ∷ ds)

unfoldable pub validate_unique_webhook_path_suffixes :
    List NotificationSource → Result (List Duplicate) (Unit {0})
validate_unique_webhook_path_suffixes sources = verdict (validate_from 0 sources ([], [])).1

unfoldable pub validate : ConfigSpec → Result (List Duplicate) (Unit {0})
unfolding validate_unique_webhook_path_suffixes
validate s = validate_unique_webhook_path_suffixes s.notification_sources

-- The trimmed path suffixes of the webhook sources, in order.
unfoldable pub webhook_suffixes : List NotificationSource → List String
webhook_suffixes [] = []
webhook_suffixes (source ∷ rest) =
    let others = webhook_suffixes rest in
    if source.type == webhook_notification_source_type then suffix_of source ∷ others else others
