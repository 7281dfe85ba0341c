-- ===== src/Credentials.antt =====
-- internal/pgbackrest/credentials/credentials.go: the secrets that become environment variables and
-- files of certificates.
use cnpg_plugin_pgbackrest.Base.{
  ℕ, ◌+◌, Bool, true, false, List, [], ◌∷◌, ◌++◌, Option, none, some, Text, codes, str_eq, Result,
  ok, err, message,
}
use cnpg_plugin_pgbackrest.Host.{Act, ◌>>=◌, ◌>>◌, return, fail, wrap_error, from_result}
use cnpg_plugin_pgbackrest.Go.Strconv.{itoa}
use cnpg_plugin_pgbackrest.Utils.{format_repo_env}
use cnpg_plugin_pgbackrest.Config.{lookup}
use cnpg_plugin_pgbackrest.Api.{
  SecretKeySelector, S3Credentials, PgbackrestRepository, PgbackrestConfiguration,
}

-- The data of a secret.
abbrev pub SecretData : Type 0
SecretData = List (Text × Text)

unfoldable pub certificates_dir : Text
certificates_dir = codes "/controller/certificates/"

certificate_location : Text → ℕ → Text
unfolding codes certificates_dir itoa
certificate_location kind repo_index =
    certificates_dir
    ++ (kind ++ (codes "-repo" ++ (itoa (repo_index + 1) ++ codes "-pgbackrest-ca.crt")))

-- `PgBackRestBackupEndpointCACertificateLocation`
unfoldable pub backup_endpoint_ca_certificate_location : ℕ → Text
unfolding certificate_location
backup_endpoint_ca_certificate_location = certificate_location (codes "backup")

-- `PgBackRestRestoreEndpointCACertificateLocation`
unfoldable pub restore_endpoint_ca_certificate_location : ℕ → Text
unfolding certificate_location
restore_endpoint_ca_certificate_location = certificate_location (codes "restore")

value_or_missing : SecretKeySelector → Option Text → Result Text
value_or_missing reference none = err (
    message
      (codes "missing key " ++ (reference.key ++ (codes ", inside secret " ++ reference.name))))
value_or_missing reference (some value) = ok value

-- The calls outside the repository: a read of a secret by namespace and name, `os.MkdirAll` and
-- `os.WriteFile`.
module _ {S : Type 0} (get_secret : Text → Text → Act S SecretData)
    (mkdir_all : Text → Act S (Unit {0})) (write_file : Text → Text → Act S (Unit {0})) where
  -- `extractValueFromSecret`
  unfoldable pub extract_value_from_secret : SecretKeySelector → Text → Act S Text
  unfolding value_or_missing lookup
  extract_value_from_secret reference namespace = do
    secret_data ←
        wrap_error (codes "while getting secret " ++ reference.name)
          (get_secret namespace reference.name)
    from_result (value_or_missing reference (lookup reference.key secret_data))

  -- `writeEndpointCACertificate`
  unfoldable pub write_endpoint_ca_certificate : SecretKeySelector → Text → Text → Act S (Unit {0})
  unfolding extract_value_from_secret certificates_dir
  write_endpoint_ca_certificate reference namespace file_path = do
    ca_data ←
        wrap_error (codes "reading endpoint CA secret " ++ (namespace ++ b'/' ∷ reference.name))
          (extract_value_from_secret reference namespace)
    wrap_error (codes "creating certificates directory " ++ certificates_dir)
        (mkdir_all certificates_dir)
    wrap_error (codes "writing endpoint CA certificate to " ++ file_path)
        (write_file file_path ca_data)

  unfoldable pub required : Text → Option SecretKeySelector → Text → Act S Text
  unfolding extract_value_from_secret
  required m none namespace = fail (message m)
  required m (some reference) namespace = extract_value_from_secret reference namespace

  unfoldable pub shared_keys : Bool → Text → S3Credentials → ℕ → List Text → Act S (List Text)
  unfolding required format_repo_env
  shared_keys false namespace credentials repo_index env = return env
  shared_keys true namespace credentials repo_index env = do
    access_key_id ←
        required (codes "missing access key ID") credentials.access_key_id_reference namespace
    secret_access_key ←
        required (codes "missing secret access key") credentials.secret_access_key_reference
          namespace
    return (
        env
        ++ format_repo_env repo_index (codes "S3_KEY") access_key_id
          ∷ format_repo_env repo_index (codes "S3_KEY_SECRET") secret_access_key
          ∷ [])

  -- `envSetAWSCredentials`; its caller passes no nil.
  unfoldable pub env_set_aws_credentials : Text → S3Credentials → ℕ → List Text → Act S (List Text)
  unfolding shared_keys format_repo_env
  env_set_aws_credentials namespace credentials repo_index env = do
    env' ←
        shared_keys (str_eq credentials.key_type (codes "shared")) namespace credentials repo_index
          env
    return (
        env'
        ++ format_repo_env repo_index (codes "S3_KEY_TYPE") credentials.key_type
          ∷ format_repo_env repo_index (codes "S3_REGION") credentials.region
          ∷ [])

  -- `envSetEncryptionCredentials`
  unfoldable pub env_set_encryption_credentials :
      Text → Option SecretKeySelector → Text → ℕ → List Text → Act S (List Text)
  unfolding required format_repo_env
  env_set_encryption_credentials encryption_type key_reference namespace repo_index env = do
    encryption_key ← required (codes "missing encryption key") key_reference namespace
    return (
        env
        ++ format_repo_env repo_index (codes "CIPHER_TYPE") encryption_type
          ∷ format_repo_env repo_index (codes "CIPHER_PASS") encryption_key
          ∷ [])

  unfoldable pub aws_of_repo : Option S3Credentials → Text → ℕ → List Text → Act S (List Text)
  unfolding env_set_aws_credentials
  aws_of_repo none namespace index env = return env
  aws_of_repo (some credentials) namespace index env =
      env_set_aws_credentials namespace credentials index env

  unfoldable pub encryption_of_repo :
      Text → Option SecretKeySelector → Text → ℕ → List Text → Act S (List Text)
  unfolding env_set_encryption_credentials
  encryption_of_repo [] key_reference namespace index env = return env
  encryption_of_repo (c ∷ encryption) key_reference namespace index env =
      env_set_encryption_credentials (c ∷ encryption) key_reference namespace index env

  -- The loop of `envSetCloudCredentials` from an index on.
  unfoldable pub env_set_cloud_credentials :
      Text → List PgbackrestRepository → ℕ → List Text → Act S (List Text)
  unfolding aws_of_repo encryption_of_repo
  env_set_cloud_credentials namespace [] index env = return env
  env_set_cloud_credentials namespace (repo ∷ repos) index env = do
    with_aws ← aws_of_repo repo.aws namespace index env
    with_cipher ← encryption_of_repo repo.encryption repo.encryption_key namespace index with_aws
    env_set_cloud_credentials namespace repos (index + 1) with_cipher

  unfoldable pub certificate_of_repo :
      Text → (ℕ → Text) → Option SecretKeySelector → Text → ℕ → List Text → Act S (List Text)
  unfolding write_endpoint_ca_certificate format_repo_env
  certificate_of_repo m location none namespace index env = return env
  certificate_of_repo m location (some reference) namespace index env = do
    wrap_error m (write_endpoint_ca_certificate reference namespace (location index))
    return (env ++ format_repo_env index (codes "STORAGE_CA_FILE") (location index) ∷ [])

  -- The loop over the certificates from an index on.
  unfoldable pub env_set_certificates :
      Text → (ℕ → Text) → Text → List PgbackrestRepository → ℕ → List Text → Act S (List Text)
  unfolding certificate_of_repo
  env_set_certificates m location namespace [] index env = return env
  env_set_certificates m location namespace (repo ∷ repos) index env = do
    with_ca ← certificate_of_repo m location repo.endpoint_ca namespace index env
    env_set_certificates m location namespace repos (index + 1) with_ca

  -- `EnvSetBackupCloudCredentials`
  unfoldable pub env_set_backup_cloud_credentials :
      Text → PgbackrestConfiguration → List Text → Act S (List Text)
  unfolding env_set_certificates env_set_cloud_credentials backup_endpoint_ca_certificate_location
  env_set_backup_cloud_credentials namespace configuration env = do
    with_ca ←
        env_set_certificates (codes "writing backup endpoint CA certificate")
          backup_endpoint_ca_certificate_location namespace configuration.repositories 0 env
    env_set_cloud_credentials namespace configuration.repositories 0 with_ca

  -- `EnvSetRestoreCloudCredentials`
  unfoldable pub env_set_restore_cloud_credentials :
      Text → PgbackrestConfiguration → List Text → Act S (List Text)
  unfolding env_set_certificates env_set_cloud_credentials restore_endpoint_ca_certificate_location
  env_set_restore_cloud_credentials namespace configuration env = do
    with_ca ←
        env_set_certificates (codes "writing restore endpoint CA certificate")
          restore_endpoint_ca_certificate_location namespace configuration.repositories 0 env
    env_set_cloud_credentials namespace configuration.repositories 0 with_ca
