-- ===== src/Sync/Keeps.antt =====
-- A sync applies the whole policy or keeps the last one that was good.
use mathlib.Core.Path.{subst}
use artea.Base.{
  ◌≡◌, refl, sym, ap, ◌∙◌, Bool, true, false, Option, [], ◌∷◌, Text, eq_text, ◌==◌, if◌then◌else◌,
  ok, Bool-cases, Option-cases, Result-cases, inl, inr, ◌⊎◌,
}
use artea.Base.Dict.{get, put}
use artea.Policy.{Policy}
use artea.Policy.Parse.{parse_policy}
use artea.Compiler.Compile.{CompiledArtifacts, compile_policy}
use artea.Sync.{
  Bytes, encode, Config, Services, Fetch, not_found, unavailable, content, Environment, Step,
  then_do, write, set_store, store_upstream, store_npm, store_parsed, apply, publish, sync_compiled,
  sync_parsed, sync_fetched, sync_once,
}

-- What a write does not touch.
abbrev pub Others {ℓ} : Type ℓ → Type ℓ
Others D = Option (Option Bytes) × (Option (Option Bytes) × (Option (Option Policy) × D))

module _ {ℓ} {D : Type ℓ} where
  abbrev pub others : Services D → Others D
  others s = (s.store, (s.upstream_store, (s.parsed_policy_store, s.devpi)))

  either_way :
      (b : Bool) (x y : Services D × Bool) {o : Others D}
      → others x.0 ≡ o
      → others y.0 ≡ o
      → others (if b then x else y).0 ≡ o
  either_way true x y h k = h
  either_way false x y h k = k

  others-write :
      (writable : Text → Bool) (path : Text) (bytes : Bytes) (s : Services D)
      → others (write writable path bytes s).0 ≡ others s
  unfolding write
  others-write writable [] bytes s = refl
  others-write writable (c ∷ path) bytes s =
      let written : Services D × Bool = (record s { files = put (c ∷ path) bytes s.files }, true) in
      elim (Option-cases (get (c ∷ path) s.files)) [
        | inl e ↦ rw (e, write) (either_way (writable (c ∷ path)) written (s, false) refl refl)
        | inr (old, e) ↦
            rw (e, write)
              (either_way (old == bytes) (s, true)
                (if writable (c ∷ path) then written else (s, false)) refl
                (either_way (writable (c ∷ path)) written (s, false) refl refl))
      ]

  -- A sequence that goes through.
  then_do-true :
      (a b : Step D) (s : Services D)
      → (then_do a b s).1 ≡ true
      → ((a s).1 ≡ true) × (then_do a b s ≡ b (a s).0)
  unfolding then_do
  then_do-true a b s h = elim (Bool-cases (a s).1) [
    | inl e ↦ (e, rw e refl)
    | inr e ↦ absurd (stuck (a s).1 (b (a s).0) (a s) e e h)
  ]
    where
      stuck :
          (b : Bool) (x y : Services D × Bool)
          → b ≡ false
          → y.1 ≡ false
          → (if b then x else y).1 ≡ true
          → ⊥
      stuck true x y e f h = cc
      stuck false x y e f h = cc

  -- What the steps of `publish` leave in the stores and in devpi, if none raises.
  unfoldable pub applied_others : Environment D → Policy → CompiledArtifacts → Others D → Others D
  applied_others env policy artifacts (npm, (upstream, (parsed, devpi))) = (
    set_store (encode artifacts.npm_yaml) npm,
    (
      set_store (encode artifacts.upstream_yaml) upstream,
      (
        set_store policy parsed,
        (env.apply_constraints devpi artifacts.pypi_constraints artifacts.min_age).0,
      ),
    ),
  )

  -- A step that, where it goes through, changes the stores and devpi by a function, and is known to
  -- need something of them.
  record Moves (f : Others D → Others D) (P : Others D → Type 0) (a : Step D) : Type ℓ where
    moves : (s : Services D) → (a s).1 ≡ true → (others (a s).0 ≡ f (others s)) × P (others s)

  then_do-Moves :
      {f g : Others D → Others D} {P Q : Others D → Type 0} {a b : Step D}
      → Moves f P a
      → Moves g Q b
      → Moves (λ o. g (f o)) (λ o. Q (f o)) (then_do a b)
  then_do-Moves {f} {g} {P} {Q} {a} {b} m n = record {
    moves = λ s h.
        let (one, e) = then_do-true a b s h in
        let same = (m.moves s one).0 in
        let (next, q) = n.moves (a s).0 (ap (λ (r : Services D × Bool). r.1) (sym e) ∙ h) in
        (ap (λ (r : Services D × Bool). others r.0) e ∙ (next ∙ ap g same), subst Q same q);
  }

  write-Moves :
      (writable : Text → Bool) (path : Text) (bytes : Bytes)
      → Moves (λ o. o) (λ o. Unit) (write writable path bytes)
  write-Moves writable path bytes = record {
    moves = λ s h. (others-write writable path bytes s, tt);
  }

  applied :
      (cfg : Config) (env : Environment D) (bytes : Bytes) (policy : Policy)
      (artifacts : CompiledArtifacts)
      → Moves
          (applied_others env policy artifacts)
          (λ o.
            (env.apply_constraints o.1.1.1 artifacts.pypi_constraints artifacts.min_age).1 ≡ true)
          (publish cfg env bytes policy artifacts)
  unfolding publish applied_others store_upstream store_npm store_parsed apply
  applied cfg env bytes policy artifacts =
      then_do-Moves {f = λ o. (o.0, (set_store (encode artifacts.upstream_yaml) o.1.0, o.1.1))}
        {P = λ o. Unit} (record { moves = λ s h. (refl, tt) })
        (then_do-Moves {P = λ o. Unit}
          (write-Moves env.writable cfg.upstream_policy_file_path (encode artifacts.upstream_yaml))
          (then_do-Moves {f = λ o. (set_store (encode artifacts.npm_yaml) o.0, o.1)} {P = λ o. Unit}
            (record { moves = λ s h. (refl, tt) })
            (then_do-Moves {P = λ o. Unit}
              (write-Moves env.writable cfg.policy_file_path (encode artifacts.npm_yaml))
              (then_do-Moves {P = λ o. Unit}
                (write-Moves env.writable cfg.parsed_policy_file_path bytes)
                (then_do-Moves {f = λ o. (o.0, (o.1.0, (set_store policy o.1.1.0, o.1.1.1)))}
                  {P = λ o. Unit} (record { moves = λ s h. (refl, tt) })
                  (then_do-Moves
                    {g = λ o. (
                      o.0,
                      (
                        o.1.0,
                        (
                          o.1.1.0,
                          (env.apply_constraints o.1.1.1 artifacts.pypi_constraints
                              artifacts.min_age).0,
                        ),
                      ),
                    )}
                    {P = λ o. Unit}
                    {Q = λ o.
                      (env.apply_constraints o.1.1.1 artifacts.pypi_constraints artifacts.min_age).1
                      ≡ true}
                    (write-Moves env.writable cfg.pypi_policy_file_path
                      (encode artifacts.pypi_constraints))
                    (record { moves = λ s h. (refl, h) })))))))

-- The policy that an attempt fetches, parses and compiles.
pub record Compiled {ℓ} {D : Type ℓ} (env : Environment D) : Type 0 where
  pub bytes : Bytes
  pub policy : Policy
  pub artifacts : CompiledArtifacts
  pub fetched : env.fetch ≡ content bytes
  pub parsed : parse_policy env.reader bytes ≡ ok policy
  pub compiled : compile_policy policy ≡ ok artifacts

module _ {ℓ} {D : Type ℓ} (cfg : Config) (env : Environment D) (s : Services D) where
  abbrev Outcome : Type ℓ
  Outcome =
      (sync_once cfg env s ≡ (s, false))
      ⊎ ((c : Compiled env) × (sync_once cfg env s
            ≡ publish cfg env c.bytes c.policy c.artifacts s))

  compiled_outcome :
      (bytes : Bytes) (policy : Policy)
      → env.fetch ≡ content bytes
      → parse_policy env.reader bytes ≡ ok policy
      → Outcome
  unfolding sync_once sync_fetched sync_parsed sync_compiled
  compiled_outcome bytes policy f p = elim (Result-cases (compile_policy policy)) [
    | inl (artifacts, e) ↦ inr (
      record {
        bytes = bytes;
        policy = policy;
        artifacts = artifacts;
        fetched = f;
        parsed = p;
        compiled = e;
      },
      rw (f, p, e) refl,
    )
    | inr (x, e) ↦ inl (rw (f, p, e) refl)
  ]

  fetched_outcome : (f : Fetch) → env.fetch ≡ f → Outcome
  unfolding sync_once sync_fetched sync_parsed
  fetched_outcome not_found f = inl (rw f refl)
  fetched_outcome unavailable f = inl (rw f refl)
  fetched_outcome (content bytes) f = elim (Result-cases (parse_policy env.reader bytes)) [
    | inl (policy, e) ↦ compiled_outcome bytes policy f e
    | inr (x, e) ↦ inl (rw (f, e) refl)
  ]

  -- A sync fails and changes nothing, neither a file nor a store nor devpi, unless the policy is
  -- fetched, parses and compiles; then it publishes what the policy compiles to.
  pub sync_once-last_known_good :
      (sync_once cfg env s ≡ (s, false))
      ⊎ ((c : Compiled env) × (sync_once cfg env s
            ≡ publish cfg env c.bytes c.policy c.artifacts s))
  sync_once-last_known_good = fetched_outcome env.fetch refl

  -- A sync that succeeds has put the artifacts of the fetched policy into each store that the
  -- service has, and devpi has taken its constraints and its `min_age`.
  pub sync_once-applied :
      (sync_once cfg env s).1 ≡ true
      → (c : Compiled env) × ((others (sync_once cfg env s).0
            ≡ applied_others env c.policy c.artifacts (others s))
          × ((env.apply_constraints s.devpi c.artifacts.pypi_constraints c.artifacts.min_age).1
              ≡ true))
  sync_once-applied h = elim sync_once-last_known_good [
    | inl e ↦ absurd (cc (h, e))
    | inr (c, e) ↦
        let (a, b) =
          (applied cfg env c.bytes c.policy c.artifacts).moves s
            (ap (λ (r : Services D × Bool). r.1) (sym e) ∙ h) in
        (c, (ap (λ (r : Services D × Bool). others r.0) e ∙ a, b))
  ]
