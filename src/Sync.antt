-- ===== src/Sync.antt =====
-- policy-sync/policy_sync/sync.py, with the stores of store.py and the file writes of files.py. What
-- Gitea answers, which writes the disk takes and what devpi does with the constraints
-- (`apply_constraints` of devpi.py) are given by an environment for each attempt.
pub mod Keeps
pub mod Retry
use artea.Base.{
  ℕ, zero, suc, ◌+◌, ◌-◌, ◌*◌, ◌/◌, ◌%◌, Bool, true, false, not, ◌&&◌, ◌||◌, Option, none, some,
  List, [], ◌∷◌, ◌++◌, Text, eq_text, ◌==◌, ltb, leb, if◌then◌else◌, Result, ok, err,
}
use artea.Base.Dict.{Dict, get, put}
use artea.Policy.{PolicyError, Policy}
use artea.Policy.Parse.{Reader, parse_policy}
use artea.Compiler.Compile.{CompiledArtifacts, compile_policy}

abbrev pub Bytes : Type 0
Bytes = List ℕ

-- `text.encode("utf-8")`
unfoldable pub encode_char : ℕ → Bytes
encode_char c =
    if ltb c 0x80
    then c ∷ []
    else if ltb c 0x800
    then (0xc0 + c / 64) ∷ (0x80 + c % 64) ∷ []
    else if ltb c 0x10000
    then (0xe0 + c / 4096) ∷ (0x80 + (c / 64) % 64) ∷ (0x80 + c % 64) ∷ []
    else (0xf0 + c / 262144)
      ∷ (0x80 + (c / 4096) % 64)
      ∷ (0x80 + (c / 64) % 64)
      ∷ (0x80 + c % 64)
      ∷ []

unfoldable pub encode : Text → Bytes
unfolding encode_char
encode [] = []
encode (c ∷ s) = encode_char c ++ encode s

-- The destinations; the empty path is none.
pub record Config : Type 0 where
  pub policy_file_path : Text
  pub pypi_policy_file_path : Text
  pub parsed_policy_file_path : Text
  pub upstream_policy_file_path : Text

-- What a sync changes: the files, the stores, each if the service has it, and devpi.
pub record Services {ℓ} (D : Type ℓ) : Type ℓ where
  pub files : Dict Text Bytes
  pub store : Option (Option Bytes)
  pub upstream_store : Option (Option Bytes)
  pub parsed_policy_store : Option (Option Policy)
  pub devpi : D

-- What Gitea answers.
pub data Fetch : Type 0 where
  not_found unavailable : Fetch
  content : Bytes → Fetch

-- The world of one attempt.
pub record Environment {ℓ} (D : Type ℓ) : Type ℓ where
  pub fetch : Fetch
  pub reader : Reader
  pub writable : Text → Bool
  -- Whether the constraints are in effect afterwards: False is a `DevpiError`.
  pub apply_constraints : D → Text → Text → D × Bool

-- A step that may raise, which is when it returns False.
abbrev pub Step {ℓ} : Type ℓ → Type ℓ
Step D = Services D → Services D × Bool

-- `store.set(data)`, if there is a store
abbrev pub set_store {κ} : {A : Type κ} → A → Option (Option A) → Option (Option A)
set_store a none = none
set_store a (some old) = some (some a)

abbrev pub smaller : ℕ → ℕ → ℕ
smaller a b = if leb a b then a else b

-- What `sync_with_retry` leaves: the services, the delays it slept, and the result.
pub record Retried {ℓ} (D : Type ℓ) : Type ℓ where
  pub services : Services D
  pub slept : List ℕ
  pub result : Bool

module _ {ℓ} {D : Type ℓ} where
  unfoldable pub then_do : Step D → Step D → Step D
  then_do a b s = let r = a s in let next = b r.0 in if r.1 then next else r

  -- `Syncer._write` and `write_atomic`: the same content is not written again.
  unfoldable pub write : (Text → Bool) → Text → Bytes → Step D
  unfolding get put
  write writable [] bytes s = (s, true)
  write writable (c ∷ path) bytes s = elim (get (c ∷ path) s.files) [
    | some old ↦
        if old == bytes
        then (s, true)
        else if writable (c ∷ path)
        then (record s { files = put (c ∷ path) bytes s.files }, true)
        else (s, false)
    | none ↦
        if writable (c ∷ path)
        then (record s { files = put (c ∷ path) bytes s.files }, true)
        else (s, false)
  ]

  unfoldable pub store_upstream : Bytes → Step D
  store_upstream bytes s = (record s { upstream_store = set_store bytes s.upstream_store }, true)

  unfoldable pub store_npm : Bytes → Step D
  store_npm bytes s = (record s { store = set_store bytes s.store }, true)

  unfoldable pub store_parsed : Policy → Step D
  store_parsed policy s =
      (record s { parsed_policy_store = set_store policy s.parsed_policy_store }, true)

  unfoldable pub apply : Environment D → Text → Text → Step D
  apply env constraints min_age s =
      let r = env.apply_constraints s.devpi constraints min_age in (record s { devpi = r.0 }, r.1)

  -- The steps of `sync_once`, once the policy is compiled.
  unfoldable pub publish : Config → Environment D → Bytes → Policy → CompiledArtifacts → Step D
  publish cfg env bytes policy artifacts =
      then_do (store_upstream (encode artifacts.upstream_yaml)) (
        then_do (write env.writable cfg.upstream_policy_file_path (encode artifacts.upstream_yaml))
          (then_do (store_npm (encode artifacts.npm_yaml)) (
            then_do (write env.writable cfg.policy_file_path (encode artifacts.npm_yaml)) (
              then_do (write env.writable cfg.parsed_policy_file_path bytes) (
                then_do (store_parsed policy) (
                  then_do
                    (write env.writable cfg.pypi_policy_file_path
                      (encode artifacts.pypi_constraints))
                    (apply env artifacts.pypi_constraints artifacts.min_age)))))))

  unfoldable pub sync_compiled :
      Config → Environment D → Bytes → Policy → Result PolicyError CompiledArtifacts → Step D
  sync_compiled cfg env bytes policy (err e) s = (s, false)
  sync_compiled cfg env bytes policy (ok artifacts) s = publish cfg env bytes policy artifacts s

  unfoldable pub sync_parsed : Config → Environment D → Bytes → Result PolicyError Policy → Step D
  sync_parsed cfg env bytes (err e) s = (s, false)
  sync_parsed cfg env bytes (ok policy) s =
      sync_compiled cfg env bytes policy (compile_policy policy) s

  unfoldable pub sync_fetched : Config → Environment D → Fetch → Step D
  sync_fetched cfg env not_found s = (s, false)
  sync_fetched cfg env unavailable s = (s, false)
  sync_fetched cfg env (content bytes) s =
      sync_parsed cfg env bytes (parse_policy env.reader bytes) s

  -- `Syncer.sync_once`
  unfoldable pub sync_once : Config → Environment D → Step D
  sync_once cfg env s = sync_fetched cfg env env.fetch s

  -- `Syncer.sync_with_retry`, for the attempts that are left.
  unfoldable pub retry_from : Config → List (Environment D) → ℕ → ℕ → Services D → Retried D
  retry_from cfg [] delay max_delay s = record { services = s; slept = []; result = false }
  retry_from cfg (env ∷ []) delay max_delay s =
      let r = sync_once cfg env s in record { services = r.0; slept = []; result = r.1 }
  retry_from cfg (env ∷ next ∷ rest) delay max_delay s =
      let r = sync_once cfg env s in
      let later = retry_from cfg (next ∷ rest) (smaller (delay * 2) max_delay) max_delay r.0 in
      if r.1
      then record { services = r.0; slept = []; result = true }
      else record { services = later.services; slept = delay ∷ later.slept; result = later.result }
