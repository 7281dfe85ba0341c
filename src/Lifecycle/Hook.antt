-- ===== src/Lifecycle/Hook.antt =====
-- internal/cnpgi/operator/lifecycle.go: the hook itself. The decoding of the request, the object store,
-- `GetRecoverySourcePlugin`, and the making of a patch are parameters. The object and its mutated copy
-- differ only in the pod specification, so the patch is made of these.
use cnpg_plugin_pgbackrest.Base.{
  Bool, true, false, not, List, [], ◌∷◌, ◌++◌, Option, none, some, Text, codes, str_eq, is_nil,
  if◌then◌else◌, Result, ok, err, message, wrapped, ◌>>=◌,
}
use cnpg_plugin_pgbackrest.Api.Archive.{Archive, EnvVar, zero_archive}
use cnpg_plugin_pgbackrest.Config.{
  Cluster, PluginEntry, PluginConfiguration, new_from_cluster, validate, plugin_name,
}
use cnpg_plugin_pgbackrest.Lifecycle.{PodSpec, Container, reconcile_pod_spec}

-- `batchv1.Job`: the label `utils.JobRoleLabelName` of its template (empty when it is missing) and the
-- specification of its pod.
pub record Job : Type 0 where
  pub job_role : Text
  pub spec : PodSpec

-- `OperatorLifecycleRequest`: whether it names an operation, and its parts as they decode.
pub record Request : Type 0 where
  pub has_operation : Bool
  pub kind : Result Text
  pub cluster : Result Cluster
  pub pod : Result PodSpec
  pub job : Result Job

pub record Machinery : Type 0 where
  pub get_archive : Text → Text → Result Archive
  pub recovery_source_plugin : Cluster → Option PluginEntry
  pub create_patch : PodSpec → PodSpec → Result Text
  pub sidecar_image : Text

-- A container with nothing but its arguments.
unfoldable pub container_of_args : List Text → Container
container_of_args args = record {
  name = [];
  image = [];
  image_pull_policy = [];
  args = args;
  env = [];
  startup_probe = none;
  resources = [];
  security_context = none;
  volume_mounts = [];
  restart_policy = none;
}

-- `calculateSidecarResources`; the archive is never nil.
unfoldable pub calculate_sidecar_resources : Archive → Option Text
calculate_sidecar_resources archive = some archive.instance_sidecar_configuration.resources

-- `calculateSidecarSecurityContext`; the archive is never nil.
unfoldable pub calculate_sidecar_security_context : Archive → Option Text
calculate_sidecar_security_context archive = archive.instance_sidecar_configuration.security_context

-- `collectArchiveEnvs`
unfoldable pub collect_archive_envs : Archive → List EnvVar
collect_archive_envs archive = archive.instance_sidecar_configuration.env

-- `collectAdditionalEnvs`; neither archive is ever nil.
unfoldable pub collect_additional_envs : Archive → Archive → List EnvVar
unfolding collect_archive_envs
collect_additional_envs archive recovery_archive =
    collect_archive_envs archive ++ collect_archive_envs recovery_archive

unfoldable pub finish_spec : Text → Result (Unit {0}) × PodSpec → Result PodSpec
finish_spec m (ok u, spec) = ok spec
finish_spec m (err e, spec) = err (wrapped m e)

is_this_plugin : Option PluginEntry → Bool
is_this_plugin none = false
is_this_plugin (some p) = str_eq p.name plugin_name

module _ (k : Machinery) where
  get_named_archive : Text → Text → Result Archive
  get_named_archive namespace name =
      if is_nil name then ok zero_archive else k.get_archive namespace name

  -- `getArchives`: the zero value for an archive that is not named.
  unfoldable pub get_archives : Text → PluginConfiguration → Result (Archive × Archive)
  unfolding get_named_archive
  get_archives namespace config = do
    archive ← get_named_archive namespace config.pgbackrest_object_name
    recovery_archive ← get_named_archive namespace config.recovery_pgbackrest_object_name
    ok (archive, recovery_archive)

  -- `reconcilePod` up to the patch: the specification of the mutated pod.
  unfoldable pub mutated_pod :
      Cluster
      → PodSpec
      → PluginConfiguration
      → List EnvVar
      → Option Text
      → Option Text
      → Result PodSpec
  unfolding finish_spec container_of_args reconcile_pod_spec
  mutated_pod cluster spec config env resources security_context =
      if is_nil config.pgbackrest_object_name
      then ok spec
      else finish_spec (codes "while reconciling pod spec for pod") (
          reconcile_pod_spec k.sidecar_image cluster spec (codes "postgres")
            (container_of_args (codes "instance" ∷ [])) env resources security_context)

  -- The two functions `reconcilePod`
  unfoldable pub reconcile_pod : Cluster → Request → PluginConfiguration → Result (Option Text)
  unfolding get_archives collect_additional_envs calculate_sidecar_resources
      calculate_sidecar_security_context mutated_pod
  reconcile_pod cluster request config = do
    (archive, recovery_archive) ← get_archives cluster.namespace config
    spec ← request.pod
    mutated ←
        mutated_pod cluster spec config (collect_additional_envs archive recovery_archive)
          (calculate_sidecar_resources archive) (calculate_sidecar_security_context archive)
    patch ← k.create_patch mutated spec
    ok (some patch)

  patch_job : Cluster → Job → List EnvVar → Option Text → Option Text → Result (Option Text)
  unfolding finish_spec container_of_args reconcile_pod_spec
  patch_job cluster job env resources security_context =
      if not (str_eq job.job_role (codes "full-recovery")) then ok none else do
        mutated ← finish_spec (codes "while reconciling pod spec for job") (
            reconcile_pod_spec k.sidecar_image cluster job.spec (codes "full-recovery")
              (container_of_args (codes "restore" ∷ [])) env resources security_context)
        patch ← k.create_patch mutated job.spec
        ok (some patch)

  job_with_source :
      Bool → Cluster → Request → List EnvVar → Option Text → Option Text → Result (Option Text)
  unfolding patch_job
  job_with_source false cluster request env resources security_context = ok none
  job_with_source true cluster request env resources security_context = do
    job ← request.job
    patch_job cluster job env resources security_context

  -- The two functions `reconcileJob`
  unfoldable pub reconcile_job : Cluster → Request → PluginConfiguration → Result (Option Text)
  unfolding get_archives collect_additional_envs calculate_sidecar_resources
      calculate_sidecar_security_context is_this_plugin job_with_source
  reconcile_job cluster request config = do
    (archive, recovery_archive) ← get_archives cluster.namespace config
    job_with_source (is_this_plugin (k.recovery_source_plugin cluster)) cluster request
        (collect_additional_envs archive recovery_archive)
        (calculate_sidecar_resources recovery_archive)
        (calculate_sidecar_security_context recovery_archive)

  dispatch :
      Text → Cluster → Request → PluginConfiguration → Result (Unit {0}) → Result (Option Text)
  unfolding reconcile_pod reconcile_job
  dispatch kind cluster request config (err e) = ok none
  dispatch kind cluster request config (ok u) =
      if str_eq kind (codes "Pod")
      then reconcile_pod cluster request config
      else if str_eq kind (codes "Job")
      then reconcile_job cluster request config
      else err (message (codes "unsupported kind: " ++ kind))

  -- `LifecycleHook`: no response is `ok none`.
  unfoldable pub lifecycle_hook : Request → Result (Option Text)
  unfolding dispatch new_from_cluster validate
  lifecycle_hook request =
      if not request.has_operation then err (message (codes "no operation set")) else do
        kind ← request.kind
        cluster ← request.cluster
        dispatch kind cluster request (new_from_cluster cluster)
            (validate (new_from_cluster cluster))
