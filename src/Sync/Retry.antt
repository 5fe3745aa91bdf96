-- ===== src/Sync/Retry.antt =====
-- The attempts of `sync_with_retry`.
use artea.Base.{
  ℕ, suc, ◌+◌, ◌*◌, ◌≤◌, ◌≡◌, refl, Bool, true, false, List, [], ◌∷◌, if◌then◌else◌, nat_eq, ◌||◌,
  arith,
}
use artea.Base.Lists.{length, All}
use artea.Sync.{Config, Services, Environment, sync_once, smaller, Retried, retry_from}

smaller-le : (a b : ℕ) → smaller a b ≤ b
smaller-le a b = ground arith

-- The result, or that there are as many attempts as allowed.
abbrev pub spent {ℓ} : {D : Type ℓ} → List (Environment D) → Retried D → Bool
spent envs r = r.result || nat_eq (length r.slept + 1) (length envs)

module _ {ℓ} {D : Type ℓ} (cfg : Config) where
  -- Each delay is at most the bound, there is one less than there were attempts at most, and the
  -- result is False only if there were as many attempts as allowed.
  abbrev Fair : List (Environment D) → ℕ → Retried D → Type 0
  Fair envs max_delay r =
      All (λ d. d ≤ max_delay) r.slept
      × ((length r.slept + 1 ≤ length envs) × (spent envs r ≡ true))

  step :
      (b : Bool) (s : Services D) (later : Retried D) (envs : List (Environment D))
      (delay max_delay n : ℕ)
      → delay ≤ max_delay
      → length envs ≡ suc n
      → All (λ d. d ≤ max_delay) later.slept
      → length later.slept + 1 ≤ n
      → (later.result || nat_eq (length later.slept + 1) n) ≡ true
      → Fair envs max_delay (
          if b then record { services = s; slept = []; result = true } else record {
            services = later.services;
            slept = delay ∷ later.slept;
            result = later.result;
          })
  step true s later envs delay max_delay n le e a l r = (tt, (omega arith, refl))
  step false s later envs delay max_delay n le e a l r = ((le, a), (omega arith, ground arith))

  -- With at least one attempt and a first delay within the bound: each delay slept is within the
  -- bound, there are fewer delays than attempts, and the retries give up only when every attempt
  -- has been made.
  pub sync_with_retry-fair :
      (env : Environment D) (rest : List (Environment D)) (delay max_delay : ℕ) (s : Services D)
      → delay ≤ max_delay
      → All (λ d. d ≤ max_delay) (retry_from cfg (env ∷ rest) delay max_delay s).slept
        × ((length (retry_from cfg (env ∷ rest) delay max_delay s).slept + 1 ≤ length (env ∷ rest))
            × (spent (env ∷ rest) (retry_from cfg (env ∷ rest) delay max_delay s) ≡ true))
  unfolding retry_from
  sync_with_retry-fair env [] delay max_delay s le = (tt, (omega arith, ground arith))
  sync_with_retry-fair env (next ∷ rest) delay max_delay s le =
      let (a, (l, r)) =
        sync_with_retry-fair next rest (smaller (delay * 2) max_delay) max_delay
          (sync_once cfg env s).0 (smaller-le (delay * 2) max_delay) in
      step (sync_once cfg env s).1 (sync_once cfg env s).0 _ (env ∷ next ∷ rest) delay max_delay
        (length (next ∷ rest)) le refl a l r
