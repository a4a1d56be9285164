-- ===== src/Webhook/Retry/Bounded.antt =====
-- The retry loop ends, within the allowed attempts and delays, and delivers at most its own event.
use reloader.Prelude.{
  ℕ, zero, suc, ◌+◌, ◌^◌, ◌≤◌, ◌<◌, String, Bool, true, false, ◌==◌, ◌||◌, ◌&&◌, ltb, some, [], ◌∷◌,
  ◌≡◌, arith, All, inl, inr, Bool-cases, ◌⊎◌, ◌≢◌, List, refl, sym, subst, ◌∙◌, eq_iff,
}
use native.Mathlib.Nat.{pow-le-pow_right}
use reloader.Events.{SecretRotationEvent}
use reloader.Api.{ℤ, pos, negsuc, ge_int, RetryPolicy}
use reloader.Chan.{sent, cancelled, select_send, select_send-cases}
use reloader.Webhook.Retry.{
  default_max_retries, RetryMessage, max_retries_of, get_next_retry_at, Round, delivered, gave_up,
  Retried, stop, deliver, give_up, retried_at, next_message, retry_message,
}

-- A limit is a number of runs, or negative.
int-cases : (z : ℤ) → ((k : ℕ) × (z ≡ pos k)) ⊎ ((k : ℕ) × (z ≡ negsuc k))
int-cases (pos k) = inl (k, refl)
int-cases (negsuc k) = inr (k, refl)

-- A run may be the last but one only below the policy's own limit and the default one.
pub record Allowed (policy : RetryPolicy) (last : ℕ) : Type 0 where
  pub limit : ℕ
  pub is : policy.max_retries ≡ pos limit
  pub own : last ≤ suc limit
  pub default : last ≤ suc default_max_retries

-- The run before the given one has reached the policy's limit or the default one.
pub data AtLimit (policy : RetryPolicy) (last : ℕ) : Type 0 where
  at_default : default_max_retries < last → AtLimit policy last
  at_own : (limit : ℕ) → policy.max_retries ≡ pos limit → limit < last → AtLimit policy last
  negative : (n : ℕ) → policy.max_retries ≡ negsuc n → AtLimit policy last

-- The retry time of a run, which is computed at `now`: a second later, or twice as long with each run.
abbrev pub IsDelayed : String → ℕ → ℕ → ℕ → Type 0
IsDelayed algorithm run now at =
    ((algorithm ≡ "linear") × (at ≡ now + 1)) ⊎ ((algorithm ≢ "linear") × (at ≡ now + 2 ^ run))

-- The retry times from a run on, each computed at the end of the run before.
abbrev pub AreDelayed : String → (ℕ → Round) → ℕ → List ℕ → Type 0
AreDelayed algorithm env n [] = Unit
AreDelayed algorithm env n (at ∷ rest) =
    IsDelayed algorithm (n + 1) (env n).later at × AreDelayed algorithm env (n + 1) rest

-- What holds of every run of the loop that starts at the run `n`, if the clock stays at most `t`.
pub record Bounded (policy : RetryPolicy) (env : ℕ → Round) (event : SecretRotationEvent) (t n : ℕ)
    (r : Retried) : Type 0 where
  pub attempts : (r.attempts ≤ 1) ⊎ Allowed policy (r.attempts + n)
  pub gives_up : (r.ending ≢ gave_up) ⊎ AtLimit policy (r.attempts + n)
  pub delays : AreDelayed policy.algorithm env n r.scheduled
  pub times : All (λ at. at ≤ t + 2 ^ default_max_retries) r.scheduled
  pub published :
      ((r.ending ≡ delivered) × (r.published ≡ event ∷ []))
      ⊎ ((r.ending ≢ delivered) × (r.published ≡ []))

-- A run that is not the last one.
goes_on :
    (policy : RetryPolicy) (n : ℕ)
    → ge_int n (max_retries_of policy) ≡ false
    → (k : ℕ) × ((policy.max_retries ≡ pos k) × ((n < k) × (n < default_max_retries)))
unfolding max_retries_of
goes_on policy n e = elim (int-cases policy.max_retries) [
  | inl (k, is) ↦ (k, (is, (ground (arith, is), ground (arith, is))))
  | inr (k, is) ↦ absurd (ground (arith, is))
]

-- A run that is the last one.
ends_at :
    (policy : RetryPolicy) (n : ℕ)
    → ge_int n (max_retries_of policy) ≡ true
    → AtLimit policy (1 + n)
unfolding max_retries_of
ends_at policy n e = elim (int-cases policy.max_retries) [
  | inr (k, is) ↦ negative k is
  | inl (k, is) ↦ elim (Bool-cases (ltb k (1 + n))) [
    | inl own ↦ at_own k is (ground arith)
    | inr other ↦ at_default (ground (arith, is))
  ]
]

retry_at-le :
    (algorithm : String) (n now t : ℕ)
    → n ≤ default_max_retries
    → now ≤ t
    → get_next_retry_at algorithm n now ≤ t + 2 ^ default_max_retries
unfolding get_next_retry_at
retry_at-le algorithm n now t h k = elim (Bool-cases (algorithm == "linear")) [
  | inl e ↦ rw e (omega arith)
  | inr e ↦ rw e (omega (arith, pow-le-pow_right {n = 2} (omega arith) h))
]

retry_at-IsDelayed :
    (algorithm : String) (run now : ℕ)
    → IsDelayed algorithm run now (get_next_retry_at algorithm run now)
unfolding get_next_retry_at
retry_at-IsDelayed algorithm run now = elim (Bool-cases (algorithm == "linear")) [
  | inl e ↦ inl ((eq_iff algorithm "linear").0 e, rw e refl)
  | inr e ↦ inr ((λ is. absurd (cc (sym ((eq_iff algorithm "linear").1 is) ∙ e))), rw e refl)
]

-- One more run before the others, if it may be followed by one.
retried-Bounded :
    (policy : RetryPolicy) (env : ℕ → Round) (event : SecretRotationEvent) (t n at : ℕ)
    (r : Retried)
    → ge_int n (max_retries_of policy) ≡ false
    → IsDelayed policy.algorithm (n + 1) (env n).later at
    → at ≤ t + 2 ^ default_max_retries
    → Bounded policy env event t (n + 1) r
    → Bounded policy env event t n (retried_at at r)
retried-Bounded policy env event t n at r more delayed h b =
    let same : r.attempts + (n + 1) ≡ suc r.attempts + n = omega arith in
    record {
      attempts = elim b.attempts [
        | inl few ↦
            let (k, (is, (own, below))) = goes_on policy n more in
            inr (record {
              limit = k;
              is = is;
              own = omega (arith, few, own);
              default = omega (arith, few, below);
            })
        | inr a ↦ inr (subst (Allowed policy) same a)
      ];
      gives_up = elim b.gives_up [
        | inl no_end ↦ inl no_end
        | inr a ↦ inr (subst (AtLimit policy) same a)
      ];
      delays = (delayed, b.delays);
      times = (h, b.times);
      published = b.published;
    }

-- The loop's rounds, by what each meets.
module _ (fuel : ℕ) (algorithm : String) (max : ℤ) (env : ℕ → Round) (m : RetryMessage) where
  abbrev over : Bool
  over =
      (env m.current_run).done_at_head
      || (ltb (env m.current_run).now m.retry_at && (env m.current_run).done_in_wait)

  pub round_stops : over ≡ true → retry_message (suc fuel) algorithm max env m ≡ some stop
  unfolding retry_message
  round_stops e = rw (e, retry_message)

  round_delivers :
      over ≡ false
      → select_send (env m.current_run).ready ≡ sent
      → retry_message (suc fuel) algorithm max env m ≡ some (deliver m.event)
  unfolding retry_message
  round_delivers e s = rw (e, s, retry_message)

  round_gives_up :
      over ≡ false
      → select_send (env m.current_run).ready ≡ cancelled
      → ge_int m.current_run max ≡ true
      → retry_message (suc fuel) algorithm max env m ≡ some give_up
  unfolding retry_message
  round_gives_up e s g = rw (e, s, g, retry_message)

  round_repeats :
      {rest : Retried}
      → over ≡ false
      → select_send (env m.current_run).ready ≡ cancelled
      → ge_int m.current_run max ≡ false
      → retry_message fuel algorithm max env (next_message algorithm (env m.current_run) m)
        ≡ some rest
      → retry_message (suc fuel) algorithm max env m
        ≡ some (retried_at (next_message algorithm (env m.current_run) m).retry_at rest)
  unfolding retry_message
  round_repeats e s g h = rw (e, s, g, h, retry_message)

module _ (policy : RetryPolicy) (env : ℕ → Round) (t : ℕ)
    (clock : (n : ℕ) → (env n).later ≤ t) where
  -- With fuel beyond the runs that are left the loop returns. Counted from the run it starts at, it
  -- makes a further attempt only while the run is below the policy's MaxRetries and below 10, and it
  -- gives up only where one of them is reached; each new retry time is a second after the end of the
  -- run before it for the linear algorithm, else two to the power of the run's number, and so at most
  -- 1024 seconds beyond the clock's bound; and it publishes its own event, once, exactly if it ends
  -- as delivered.
  pub retry_message-Bounded :
      (fuel : ℕ) (m : RetryMessage)
      → m.current_run ≤ default_max_retries
      → default_max_retries < fuel + m.current_run
      → (r : Retried) × (retry_message fuel policy.algorithm (max_retries_of policy) env m ≡ some r)
        × Bounded policy env m.event t m.current_run r
  retry_message-Bounded zero m low h = absurd (omega arith)
  retry_message-Bounded (suc fuel) m low h =
      let alg = policy.algorithm in
      let max = max_retries_of policy in
      let r = env m.current_run in
      elim (Bool-cases (over fuel alg max env m)) [
        | inl e ↦ (
          stop,
          round_stops fuel alg max env m e,
          record {
            attempts = inl (omega arith);
            gives_up = inl (λ z. cc z);
            delays = tt;
            times = tt;
            published = inr ((λ z. cc z), refl);
          },
        )
        | inr e ↦ elim (select_send-cases r.ready) [
          | inl s ↦ (
            deliver m.event,
            round_delivers fuel alg max env m e s,
            record {
              attempts = inl (omega arith);
              gives_up = inl (λ z. cc z);
              delays = tt;
              times = tt;
              published = inl (refl, refl);
            },
          )
          | inr s ↦ elim (Bool-cases (ge_int m.current_run max)) [
            | inl last ↦ (
              give_up,
              round_gives_up fuel alg max env m e s last,
              record {
                attempts = inl (omega arith);
                gives_up = inr (ends_at policy m.current_run last);
                delays = tt;
                times = tt;
                published = inr ((λ z. cc z), refl);
              },
            )
            | inr more ↦
                let next = next_message alg r m in
                let (k, (is, (own, below))) = goes_on policy m.current_run more in
                let (rest, found, b) =
                  retry_message-Bounded fuel next (omega (arith, below)) (omega arith) in
                (
                  retried_at next.retry_at rest,
                  round_repeats fuel alg max env m e s more found,
                  retried-Bounded policy env m.event t m.current_run next.retry_at rest more
                      (retry_at-IsDelayed alg (m.current_run + 1) r.later)
                      (retry_at-le alg (m.current_run + 1) r.later t (omega (arith, below))
                        (clock m.current_run))
                      b,
                )
          ]
        ]
      ]
