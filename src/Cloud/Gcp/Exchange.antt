-- ===== src/Cloud/Gcp/Exchange.antt =====
-- The exchange of a service account's token for one of Google's, read off the calls that it makes.
use Prim.Native.String.{◌++◌ as ◌+++◌}
use reloader.Prelude.{
  eqb, eqb_iff, String, ◌==◌, eq_iff, ◌≡◌, ◌≢◌, ◌⊎◌, refl, sym, subst, ap, ◌∙◌, inl, inr, Option,
  none, some, [], ◌∷◌, Result, ok, err, bind-ok, bind_of, ok-injective, Bool-cases, Option-cases,
  Map, string_eq, lookup,
}
use reloader.Api.{GcpWorkloadIdentity, GooglePubSubAuth}
use reloader.Cloud.Gcp.{
  Google, GcpError, Token, TokenSource, Response, static_token_source, failing, annotation,
  read_token, id_pool_of, id_provider_of, cluster_project, generate_id_bind_token, impersonate,
}

pub failing-ok :
    {A : Type 0} (f : String → GcpError) (r : Result String A) {a : A}
    → failing f r ≡ ok a
    → r ≡ ok a
failing-ok f (ok b) e = ap ok (ok-injective e)
failing-ok f (err x) e = absurd (cc e)

-- The project whose pool vouches: the cluster's own, where the configuration names one.
abbrev pub IsProject : GcpWorkloadIdentity → String → String → Type 0
IsProject wi project p =
    ((wi.cluster_project_id ≡ "") × (p ≡ project))
    ⊎ ((wi.cluster_project_id ≢ "") × (p ≡ wi.cluster_project_id))

-- What Google's token service is sent for a cluster of a project.
abbrev pub request_for : String → GcpWorkloadIdentity → String → Map String String
request_for p wi k8s_token =
    ("grant_type", "urn:ietf:params:oauth:grant-type:token-exchange")
    ∷ ("subject_token_type", "urn:ietf:params:oauth:token-type:jwt")
    ∷ ("requested_token_type", "urn:ietf:params:oauth:token-type:access_token")
    ∷ ("subject_token", k8s_token)
    ∷ (
      "audience",
      "identitynamespace:"
          +++ ((p +++ ".svc.id.goog")
              +++ (":"
                  +++ ("https://container.googleapis.com/v1/projects/"
                      +++ (p
                          +++ ("/locations/"
                              +++ (wi.cluster_location +++ ("/clusters/" +++ wi.cluster_name))))))),
    )
    ∷ ("scope", "https://www.googleapis.com/auth/cloud-platform")
    ∷ []

-- The account of Google's that the annotations name.
abbrev pub NamesAccount : Option (Map String String) → String → Type 0
NamesAccount annotations sa =
    (m : Map String String) × ((annotations ≡ some m)
      × ((lookup "iam.gke.io/gcp-service-account" m ≡ some sa) × (sa ≢ "")))

module _ (google : Google) where
  -- Google's service answers the exchange of a token with the other one.
  pub record Binds (p : String) (wi : GcpWorkloadIdentity) (k8s_token : String) (token : Token)
      : Type 0 where
    pub body : String
    pub marshalled : google.marshal (request_for p wi k8s_token) ≡ ok body
    pub response : Response
    pub posted :
        google.post "https://securetoken.googleapis.com/v1/identitybindingtoken" body ≡ ok response
    pub accepted : response.status_code ≡ 200
    pub text : String
    pub read : response.body ≡ ok text
    pub parsed : google.unmarshal_token text ≡ ok token

  -- The source of tokens that a bound token gives: of the account that the annotations name, or itself.
  pub data Speaks (annotations : Option (Map String String)) (token : Token)
      : TokenSource → Type 0 where
    itself :
        ((sa : String) → ¬ NamesAccount annotations sa)
        → Speaks annotations token (static_token_source token)
    as_account :
        (sa access : String)
        → NamesAccount annotations sa
        → google.generate_access_token (record {
          name = "projects/-/serviceAccounts/" +++ sa;
          scope = google.default_auth_scopes;
          credentials = token;
        })
          ≡ ok access
        → Speaks annotations token (static_token_source (record { access_token = access }))

  abbrev bound : String → GcpWorkloadIdentity → String → Result GcpError Token
  bound p wi k8s_token =
      generate_id_bind_token google k8s_token (id_pool_of p) (id_provider_of p wi)

  pub bound-Binds :
      (p : String) (wi : GcpWorkloadIdentity) (k8s_token : String) {token : Token}
      → bound p wi k8s_token ≡ ok token
      → Binds p wi k8s_token token
  unfolding generate_id_bind_token
  bound-Binds p wi k8s_token e =
      let (body, (made, e1)) =
        bind-ok (failing _ (google.marshal (request_for p wi k8s_token))) _ e in
      let (response, (sent, e2)) = bind-ok (failing _ _) (read_token google) e1 in
      elim (Bool-cases (eqb response.status_code 200)) [
        | inr refused ↦ absurd (cc (rw (refused, read_token) at e2))
        | inl fine ↦
            let (text, (got, e3)) =
              bind-ok (failing _ response.body) _ (rw (fine, read_token) at e2) in
            record {
              body = body;
              marshalled = failing-ok _ _ made;
              response = response;
              posted = failing-ok _ _ sent;
              accepted = (eqb_iff response.status_code 200).0 fine;
              text = text;
              read = failing-ok _ _ got;
              parsed = failing-ok _ _ e3;
            }
      ]

  pub bound-eq :
      (p : String) (wi : GcpWorkloadIdentity) (k8s_token : String) {token : Token}
      → Binds p wi k8s_token token
      → bound p wi k8s_token ≡ ok token
  unfolding generate_id_bind_token
  bound-eq p wi k8s_token b = bind_of _ (ap (failing _) b.marshalled) (
      bind_of (read_token google) (ap (failing _) b.posted) (
        rw ((eqb_iff b.response.status_code 200).1 b.accepted, read_token)
          (bind_of _ (ap (failing _) b.read) (ap (failing _) b.parsed))))

  unnamed :
      (annotations : Option (Map String String)) (sa : String)
      → annotation "iam.gke.io/gcp-service-account" annotations ≡ ""
      → ¬ NamesAccount annotations sa
  unnamed annotations sa e (m, (is, (there, ne))) =
      ne (
        sym (ap (annotation "iam.gke.io/gcp-service-account") is ∙ rw (there, annotation) refl) ∙ e)

  named :
      (annotations : Option (Map String String))
      → annotation "iam.gke.io/gcp-service-account" annotations ≢ ""
      → NamesAccount annotations (annotation "iam.gke.io/gcp-service-account" annotations)
  named none ne = absurd (ne refl)
  named (some m) ne = elim (Option-cases (lookup "iam.gke.io/gcp-service-account" m)) [
    | inl gone ↦ absurd (ne (rw (gone, annotation) refl))
    | inr (sa, there) ↦
        let is : annotation "iam.gke.io/gcp-service-account" (some m) ≡ sa =
          rw (there, annotation) refl in
        (m, (refl, (there ∙ ap some (sym is), ne)))
  ]

  names-eq :
      (annotations : Option (Map String String)) (sa : String)
      → NamesAccount annotations sa
      → annotation "iam.gke.io/gcp-service-account" annotations ≡ sa
  names-eq annotations sa (m, (is, (there, ne))) =
      ap (annotation "iam.gke.io/gcp-service-account") is ∙ rw (there, annotation) refl

  pub impersonate-Speaks :
      (annotations : Option (Map String String)) (token : Token) {ts : TokenSource}
      → impersonate google (annotation "iam.gke.io/gcp-service-account" annotations) token ≡ ok ts
      → Speaks annotations token ts
  unfolding impersonate
  impersonate-Speaks annotations token e =
      let sa = annotation "iam.gke.io/gcp-service-account" annotations in
      elim (Bool-cases (sa == "")) [
        | inl is ↦
            subst (Speaks annotations token) (ok-injective (rw (is, impersonate) at e))
              (itself (λ x. unnamed annotations x ((eq_iff sa "").0 is)))
        | inr other ↦
            let (access, (got, e1)) = bind-ok (failing _ _) _ (rw (other, impersonate) at e) in
            let ne : sa ≢ "" = λ is. absurd (cc (sym ((eq_iff sa "").1 is) ∙ other)) in
            subst (Speaks annotations token) (ok-injective e1)
              (as_account sa access (named annotations ne) (failing-ok _ _ got))
      ]

  as_account-eq :
      (sa access : String) (token : Token)
      → sa ≢ ""
      → google.generate_access_token (record {
        name = "projects/-/serviceAccounts/" +++ sa;
        scope = google.default_auth_scopes;
        credentials = token;
      })
        ≡ ok access
      → impersonate google sa token ≡ ok (static_token_source (record { access_token = access }))
  unfolding impersonate
  as_account-eq sa access token ne got = elim (Bool-cases (sa == "")) [
    | inl is ↦ absurd (ne ((eq_iff sa "").0 is))
    | inr other ↦ rw (other, impersonate) (bind_of _ (ap (failing _) got) refl)
  ]

  pub impersonate_of_Speaks :
      (annotations : Option (Map String String)) (token : Token) {ts : TokenSource}
      → Speaks annotations token ts
      → impersonate google (annotation "iam.gke.io/gcp-service-account" annotations) token ≡ ok ts
  unfolding impersonate
  impersonate_of_Speaks annotations token (itself nobody) =
      let sa = annotation "iam.gke.io/gcp-service-account" annotations in
      elim (Bool-cases (sa == "")) [
        | inl is ↦ rw (is, impersonate) refl
        | inr other ↦
            absurd (
              nobody sa (named annotations (λ is. absurd (cc (sym ((eq_iff sa "").1 is) ∙ other)))))
      ]
  impersonate_of_Speaks annotations token (as_account sa access names got) =
      ap (λ s. impersonate google s token) (names-eq annotations sa names)
      ∙ as_account-eq sa access token names.1.1.1 got

pub cluster_project-IsProject :
    (auth : GooglePubSubAuth) (wi : GcpWorkloadIdentity) (project : String)
    → auth.workload_identity ≡ some wi
    → IsProject wi project (cluster_project auth project)
unfolding cluster_project
cluster_project-IsProject auth wi project is = elim (Bool-cases (wi.cluster_project_id == "")) [
  | inl none_ ↦
      inl ((eq_iff wi.cluster_project_id "").0 none_, rw (is, cluster_project, none_) refl)
  | inr own ↦ inr (
    (λ e. absurd (cc (sym ((eq_iff wi.cluster_project_id "").1 e) ∙ own))),
    rw (is, cluster_project, own) refl,
  )
]

pub cluster_project_of_IsProject :
    (auth : GooglePubSubAuth) (wi : GcpWorkloadIdentity) (project p : String)
    → auth.workload_identity ≡ some wi
    → IsProject wi project p
    → cluster_project auth project ≡ p
unfolding cluster_project
cluster_project_of_IsProject auth wi project p is (inl (none_, e)) =
    rw (is, cluster_project, (eq_iff wi.cluster_project_id "").1 none_) (sym e)
cluster_project_of_IsProject auth wi project p is (inr (own, e)) =
    elim (Bool-cases (wi.cluster_project_id == "")) [
      | inl none_ ↦ absurd (own ((eq_iff wi.cluster_project_id "").0 none_))
      | inr other ↦ rw (is, cluster_project, other) (sym e)
    ]
