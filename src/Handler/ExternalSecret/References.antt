-- ===== src/Handler/ExternalSecret/References.antt =====
-- Which ExternalSecrets refer to a secret.
use reloader.Prelude.{
  String, Bool, true, false, ◌==◌, eq_iff, ◌≡◌, ◌≢◌, ◌↔◌, ◌⊎◌, inl, inr, refl, sym, ap, ◌∙◌, Option,
  none, some, some-injective, List, [], ◌∷◌, All, Any, any, any_iff, or_of, ok, Bool-cases,
  Option-cases, ok-injective,
}
use reloader.Handler.Objects.{
  DataFrom, TemplateFrom, ExternalSecret, is_named, is_named_iff, external_secret, Cluster,
}
use reloader.Handler.ExternalSecret.{
  template_references, templates_reference, find_references, data_from_references, references,
}

module _ {W : Type 0} (cluster : Cluster W) (name : String) where
  -- The pattern of `find`, if there is one, compiles.
  abbrev pub FindCompiles : Option (Option String) → Type 0
  FindCompiles none = Unit
  FindCompiles (some none) = Unit
  FindCompiles (some (some pattern)) = cluster.regexp_matches pattern name ≢ none

  abbrev pub Compiles : DataFrom → Type 0
  Compiles d = FindCompiles d.find

  abbrev pub FindRefers : Option (Option String) → Type 0
  FindRefers none = ⊥
  FindRefers (some none) = ⊥
  FindRefers (some (some pattern)) = cluster.regexp_matches pattern name ≡ some true

  -- An entry that extracts the secret, or whose pattern matches its name.
  abbrev pub EntryRefers : DataFrom → Type 0
  EntryRefers d = (d.extract ≡ some name) ⊎ FindRefers d.find

  abbrev pub TemplateRefers : TemplateFrom → Type 0
  TemplateRefers t = (t.config_map ≡ some name) ⊎ (t.secret ≡ some name)

  abbrev pub TemplatesRefer : Option (List TemplateFrom) → Type 0
  TemplatesRefer none = ⊥
  TemplatesRefer (some ts) = Any TemplateRefers ts

  templates_iff :
      (ts : Option (List TemplateFrom)) → (templates_reference name ts ≡ true) ↔ TemplatesRefer ts
  templates_iff none = ((λ e. absurd (cc e)), (λ h. absurd h))
  templates_iff (some ts) =
      any_iff (template_references name)
        (λ t. or_of (is_named_iff name t.config_map) (is_named_iff name t.secret)) ts

  find_iff :
      (f : Option (Option String))
      → FindCompiles f
      → (b : Bool) × ((find_references cluster name f ≡ ok b) × ((b ≡ true) ↔ FindRefers f))
  unfolding find_references
  find_iff none c = (false, (refl, ((λ e. absurd (cc e)), (λ h. absurd h))))
  find_iff (some none) c = (false, (refl, ((λ e. absurd (cc e)), (λ h. absurd h))))
  find_iff (some (some pattern)) c = elim (Option-cases (cluster.regexp_matches pattern name)) [
    | inl broken ↦ absurd (c broken)
    | inr (b, there) ↦ (
      b,
      (
        rw (there, find_references) refl,
        ((λ e. there ∙ ap some e), (λ h. some-injective b true (sym there ∙ h))),
      ),
    )
  ]

  entries_iff :
      (ts : Option (List TemplateFrom)) (ds : List DataFrom)
      → All Compiles ds
      → (data_from_references cluster name ts ds ≡ ok true)
        ↔ (Any EntryRefers ds ⊎ TemplatesRefer ts)
  unfolding data_from_references
  entries_iff ts [] c = (
    (λ e. inr ((templates_iff ts).0 (ok-injective e))),
    (λ h. elim h [ inl x ↦ absurd x | inr t ↦ ap ok ((templates_iff ts).1 t) ]),
  )
  entries_iff ts (d ∷ ds) (c, cs) =
      let ih = entries_iff ts ds cs in
      let (b, (found, matches)) = find_iff d.find c in
      elim (Bool-cases (is_named name d.extract)) [
        | inl here ↦
            rw (here, data_from_references)
              ((λ _. inl (inl (inl ((is_named_iff name d.extract).0 here)))), (λ _. refl))
        | inr other ↦ elim (Bool-cases b) [
          | inl hit ↦
              rw (other, found, hit, data_from_references)
                ((λ _. inl (inl (inr (matches.0 hit)))), (λ _. refl))
          | inr miss ↦
              rw (other, found, miss, data_from_references)
                (
                  (λ e. elim (ih.0 e) [ inl x ↦ inl (inr x) | inr t ↦ inr t ]),
                  (λ h. ih.1 (elim h [
                    | inr t ↦ inr t
                    | inl (inr x) ↦ inl x
                    | inl (inl (inl x)) ↦
                        absurd (cc (sym ((is_named_iff name d.extract).1 x) ∙ other))
                    | inl (inl (inr x)) ↦ absurd (cc (sym (matches.1 x) ∙ miss))
                  ])),
                )
        ]
      ]

  -- An ExternalSecret whose patterns compile refers to a name exactly if one of its remote keys is
  -- the name, one of its entries extracts it or has a pattern that matches it, or its template is
  -- taken from the ConfigMap or the Secret of that name.
  pub references-external_secret_iff :
      (e : ExternalSecret)
      → All Compiles e.data_from
      → (references cluster (external_secret e) name ≡ ok true) ↔ (
          Any (λ key. key ≡ name) e.remote_keys
          ⊎ (Any EntryRefers e.data_from ⊎ TemplatesRefer e.template))
  unfolding references
  references-external_secret_iff e c =
      let keys = any_iff (λ key. key == name) (λ key. eq_iff key name) e.remote_keys in
      let entries = entries_iff e.template e.data_from c in
      elim (Bool-cases (any (λ key. key == name) e.remote_keys)) [
        | inl here ↦ rw (here, references) ((λ _. inl (keys.0 here)), (λ _. refl))
        | inr other ↦
            rw (other, references)
              (
                (λ h. inr (entries.0 h)),
                (λ h. elim h [
                  | inl k ↦ absurd (cc (sym (keys.1 k) ∙ other))
                  | inr x ↦ entries.1 x
                ]),
              )
      ]
