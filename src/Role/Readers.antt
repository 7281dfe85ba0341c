-- ===== src/Role/Readers.antt =====
-- The credentials read through two API servers that answer alike for some names of secrets.
use cnpg_plugin_pgbackrest.Base.{
  ℕ, ◌+◌, ◌≡◌, refl, ap, ◌∙◌, Bool, true, false, List, [], ◌∷◌, ◌++◌, Option, none, some, Text,
  codes, str_eq, Result, ok, err, All,
}
use cnpg_plugin_pgbackrest.Host.{Act, and_then}
use cnpg_plugin_pgbackrest.Api.{
  SecretKeySelector, S3Credentials, PgbackrestRepository, PgbackrestConfiguration,
}
use cnpg_plugin_pgbackrest.Role.{
  reference_names, collect_secret_names_from_credentials, collect_secret_names_from_repositories,
}
use cnpg_plugin_pgbackrest.Role.Grants.{repository_secrets}
use cnpg_plugin_pgbackrest.Credentials.{
  SecretData, extract_value_from_secret, write_endpoint_ca_certificate, env_set_aws_credentials,
  env_set_encryption_credentials, env_set_cloud_credentials, env_set_certificates,
  env_set_backup_cloud_credentials, env_set_restore_cloud_credentials, required, shared_keys,
  aws_of_repo, encryption_of_repo, certificate_of_repo, backup_endpoint_ca_certificate_location,
  restore_endpoint_ca_certificate_location,
}

and_then-cong :
    {S A B : Type 0} {r r' : Result A × S} {f f' : A → Act S B}
    → r ≡ r'
    → ((a : A) (s : S) → f a s ≡ f' a s)
    → and_then r f ≡ and_then r' f'
and_then-cong {r = (ok a, s)} {f = f} {f' = f'} e same = same a s ∙ ap (λ p. and_then p f') e
and_then-cong {r = (err x, s)} {f = f} {f' = f'} e same = ap (λ p. and_then p f') e

module _ (P : Text → Type 0) where
  All-left : (xs ys : List Text) → All P (xs ++ ys) → All P xs
  All-left [] ys h = tt
  All-left (x ∷ xs) ys h = (h.0, All-left xs ys h.1)

  All-right : (xs ys : List Text) → All P (xs ++ ys) → All P ys
  All-right [] ys h = h
  All-right (x ∷ xs) ys h = All-right xs ys h.1

  All-first :
      (o : Option SecretKeySelector) (os : List (Option SecretKeySelector))
      → All P (reference_names (o ∷ os))
      → All P (reference_names (o ∷ []))
  unfolding reference_names
  All-first none os h = tt
  All-first (some r) os h = (h.0, tt)

  All-rest :
      (o : Option SecretKeySelector) (os : List (Option SecretKeySelector))
      → All P (reference_names (o ∷ os))
      → All P (reference_names os)
  unfolding reference_names
  All-rest none os h = h
  All-rest (some r) os h = h.1

  -- The secrets of the credentials, of the certificate and of the encryption, and of the other
  -- repositories.
  All-repository :
      (repo : PgbackrestRepository) (repos : List PgbackrestRepository)
      → All P (repository_secrets (repo ∷ repos))
      → All P (collect_secret_names_from_credentials repo.aws)
        × All P (reference_names (repo.endpoint_ca ∷ []))
        × All P (reference_names (repo.encryption_key ∷ []))
        × All P (repository_secrets repos)
  unfolding collect_secret_names_from_repositories
  All-repository repo repos h =
      let aws = collect_secret_names_from_credentials repo.aws in
      let others = reference_names (repo.endpoint_ca ∷ repo.encryption_key ∷ []) in
      let here = All-left (aws ++ (others ++ [])) (repository_secrets repos) h in
      let two = All-left others [] (All-right aws (others ++ []) here) in
      (
        All-left aws (others ++ []) here,
        All-first repo.endpoint_ca (repo.encryption_key ∷ []) two,
        All-rest repo.endpoint_ca (repo.encryption_key ∷ []) two,
        All-right (aws ++ (others ++ [])) (repository_secrets repos) h,
      )

module _ {S : Type 0} (get get' : Text → Text → Act S SecretData)
    (mkdir_all : Text → Act S (Unit {0})) (write_file : Text → Text → Act S (Unit {0}))
    (namespace : Text) (granted : Text → Bool)
    (agree : (n : Text) → granted n ≡ true → (s : S) → get namespace n s ≡ get' namespace n s) where
  abbrev IsGranted : Text → Type 0
  IsGranted n = granted n ≡ true

  abbrev Granted : List Text → Type 0
  Granted = All IsGranted

  extract-agree :
      (reference : SecretKeySelector) (s : S)
      → granted reference.name ≡ true
      → extract_value_from_secret get mkdir_all write_file reference namespace s
        ≡ extract_value_from_secret get' mkdir_all write_file reference namespace s
  unfolding extract_value_from_secret
  extract-agree reference s h = rw (agree reference.name h s)

  required-agree :
      (m : Text) (o : Option SecretKeySelector) (s : S)
      → Granted (reference_names (o ∷ []))
      → required get mkdir_all write_file m o namespace s
        ≡ required get' mkdir_all write_file m o namespace s
  unfolding required reference_names
  required-agree m none s h = refl
  required-agree m (some reference) s h = extract-agree reference s h.0

  shared_keys-agree :
      (shared : Bool) (credentials : S3Credentials) (index : ℕ) (env : List Text) (s : S)
      → Granted (collect_secret_names_from_credentials (some credentials))
      → shared_keys get mkdir_all write_file shared namespace credentials index env s
        ≡ shared_keys get' mkdir_all write_file shared namespace credentials index env s
  unfolding shared_keys collect_secret_names_from_credentials
  shared_keys-agree false credentials index env s h = refl
  shared_keys-agree true credentials index env s h =
      and_then-cong
        (required-agree (codes "missing access key ID") credentials.access_key_id_reference s (
          All-first IsGranted credentials.access_key_id_reference
            (credentials.secret_access_key_reference ∷ []) h))
        (λ id s1.
          and_then-cong
            (required-agree (codes "missing secret access key")
              credentials.secret_access_key_reference s1
              (All-rest IsGranted credentials.access_key_id_reference
                (credentials.secret_access_key_reference ∷ []) h))
            (λ secret s2. refl))

  env_set_aws-agree :
      (aws : Option S3Credentials) (index : ℕ) (env : List Text) (s : S)
      → Granted (collect_secret_names_from_credentials aws)
      → aws_of_repo get mkdir_all write_file aws namespace index env s
        ≡ aws_of_repo get' mkdir_all write_file aws namespace index env s
  unfolding aws_of_repo env_set_aws_credentials
  env_set_aws-agree none index env s h = refl
  env_set_aws-agree (some credentials) index env s h =
      and_then-cong
        (shared_keys-agree (str_eq credentials.key_type (codes "shared")) credentials index env s h)
        (λ env' s1. refl)

  encryption-agree :
      (encryption : Text) (key : Option SecretKeySelector) (index : ℕ) (env : List Text) (s : S)
      → Granted (reference_names (key ∷ []))
      → encryption_of_repo get mkdir_all write_file encryption key namespace index env s
        ≡ encryption_of_repo get' mkdir_all write_file encryption key namespace index env s
  unfolding encryption_of_repo env_set_encryption_credentials
  encryption-agree [] key index env s h = refl
  encryption-agree (c ∷ encryption) key index env s h =
      and_then-cong (required-agree (codes "missing encryption key") key s h) (λ value s1. refl)

  cloud-agree :
      (repos : List PgbackrestRepository) (index : ℕ) (env : List Text) (s : S)
      → Granted (repository_secrets repos)
      → env_set_cloud_credentials get mkdir_all write_file namespace repos index env s
        ≡ env_set_cloud_credentials get' mkdir_all write_file namespace repos index env s
  unfolding env_set_cloud_credentials
  cloud-agree [] index env s h = refl
  cloud-agree (repo ∷ repos) index env s h =
      let split = All-repository IsGranted repo repos h in
      and_then-cong (env_set_aws-agree repo.aws index env s split.0) (λ env1 s1.
        and_then-cong (encryption-agree repo.encryption repo.encryption_key index env1 s1 split.2)
          (λ env2 s2. cloud-agree repos (index + 1) env2 s2 split.3))

  certificate-agree :
      (m : Text) (location : ℕ → Text) (ca : Option SecretKeySelector) (index : ℕ) (env : List Text)
      (s : S)
      → Granted (reference_names (ca ∷ []))
      → certificate_of_repo get mkdir_all write_file m location ca namespace index env s
        ≡ certificate_of_repo get' mkdir_all write_file m location ca namespace index env s
  unfolding certificate_of_repo write_endpoint_ca_certificate reference_names
  certificate-agree m location none index env s h = refl
  certificate-agree m location (some reference) index env s h = rw (extract-agree reference s h.0)

  certificates-agree :
      (m : Text) (location : ℕ → Text) (repos : List PgbackrestRepository) (index : ℕ)
      (env : List Text) (s : S)
      → Granted (repository_secrets repos)
      → env_set_certificates get mkdir_all write_file m location namespace repos index env s
        ≡ env_set_certificates get' mkdir_all write_file m location namespace repos index env s
  unfolding env_set_certificates
  certificates-agree m location [] index env s h = refl
  certificates-agree m location (repo ∷ repos) index env s h =
      let split = All-repository IsGranted repo repos h in
      and_then-cong (certificate-agree m location repo.endpoint_ca index env s split.1)
        (λ env1 s1. certificates-agree m location repos (index + 1) env1 s1 split.3)

  pub backup-agree :
      (configuration : PgbackrestConfiguration) (env : List Text) (s : S)
      → Granted (repository_secrets configuration.repositories)
      → env_set_backup_cloud_credentials get mkdir_all write_file namespace configuration env s
        ≡ env_set_backup_cloud_credentials get' mkdir_all write_file namespace configuration env s
  unfolding env_set_backup_cloud_credentials
  backup-agree configuration env s h =
      and_then-cong
        (certificates-agree (codes "writing backup endpoint CA certificate")
          backup_endpoint_ca_certificate_location configuration.repositories 0 env s h)
        (λ env1 s1. cloud-agree configuration.repositories 0 env1 s1 h)

  pub restore-agree :
      (configuration : PgbackrestConfiguration) (env : List Text) (s : S)
      → Granted (repository_secrets configuration.repositories)
      → env_set_restore_cloud_credentials get mkdir_all write_file namespace configuration env s
        ≡ env_set_restore_cloud_credentials get' mkdir_all write_file namespace configuration env s
  unfolding env_set_restore_cloud_credentials
  restore-agree configuration env s h =
      and_then-cong
        (certificates-agree (codes "writing restore endpoint CA certificate")
          restore_endpoint_ca_certificate_location configuration.repositories 0 env s h)
        (λ env1 s1. cloud-agree configuration.repositories 0 env1 s1 h)
