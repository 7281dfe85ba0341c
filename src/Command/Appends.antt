-- ===== src/Command/Appends.antt =====
-- The builders of internal/pgbackrest/command/commandbuilder.go only append: what they add does not
-- depend on the options before it, and none of them fails.
use cnpg_plugin_pgbackrest.Base.{
  ℕ, suc, ◌≡◌, refl, sym, ap, ◌∙◌, Bool, true, false, not, List, [], ◌∷◌, ◌++◌, append_assoc,
  append-nil, Option, none, some, Text, codes, contains, is_nil, Result, ok, ◌>>=◌, arith,
  str_eq_self,
}
use cnpg_plugin_pgbackrest.Base.Int.{ℤ, pos, ltb_ℤ}
use cnpg_plugin_pgbackrest.Api.{
  S3Credentials, PgbackrestRetention, PgbackrestRepository, PgbackrestConfiguration,
}
use cnpg_plugin_pgbackrest.Command.{
  append_if, retention_history, level_of_configuration, append_retention_options, s3_uri_style,
  append_cloud_provider_options, for_repositories, append_cloud_provider_options_from_configuration,
  append_retention_options_from_configuration, append_stanza_options_from_configuration,
  append_log_options, append_log_options_from_configuration,
}

-- A change of the options that only adds some behind them.
abbrev pub Adds : (List Text → List Text) → Type 0
Adds f = (extra : List Text) × ((options : List Text) → f options ≡ options ++ extra)

-- The same for a builder, which also does not fail.
abbrev pub Appends : (List Text → Result (List Text)) → Type 0
Appends f = (extra : List Text) × ((options : List Text) → f options ≡ ok (options ++ extra))

pub append_if-Adds : (test : Bool) (extra : List Text) → Adds (append_if test extra)
append_if-Adds true extra = (extra, λ options. refl)
append_if-Adds false extra = ([], λ options. sym (append-nil options))

append-Adds : (extra : List Text) → Adds (λ options. options ++ extra)
append-Adds extra = (extra, λ options. refl)

infixl 60 ◌then_adds◌
pub ◌then_adds◌ : {f g : List Text → List Text} → Adds f → Adds g → Adds (λ options. g (f options))
◌then_adds◌ {f} {g} (e, p) (d, q) =
    (e ++ d, λ options. q (f options) ∙ ap (λ o. o ++ d) (p options) ∙ append_assoc options e d)

retention_history-Adds : (index : ℕ) (days : Option ℤ) → Adds (retention_history index days)
unfolding retention_history
retention_history-Adds index none = ([], λ options. sym (append-nil options))
retention_history-Adds index (some days) = (_, λ options. refl)

s3_uri_style-Adds : (index : ℕ) (aws : Option S3Credentials) → Adds (s3_uri_style index aws)
unfolding s3_uri_style
s3_uri_style-Adds index none = ([], λ options. sym (append-nil options))
s3_uri_style-Adds index (some aws) = append_if-Adds _ _

append_retention_options-Appends :
    (index : ℕ) (r : Option PgbackrestRetention)
    → Appends (λ options. append_retention_options options index r)
unfolding append_retention_options
append_retention_options-Appends index none = ([], λ options. ap ok (sym (append-nil options)))
append_retention_options-Appends index (some r) =
    let (extra, p) =
      append_if-Adds (not (is_nil r.archive_type)) _
      then_adds append_if-Adds (not (is_nil r.full_type)) _
      then_adds append_if-Adds (ltb_ℤ (pos 0) r.archive) _
      then_adds append_if-Adds (ltb_ℤ (pos 0) r.full) _
      then_adds append_if-Adds (ltb_ℤ (pos 0) r.diff) _
      then_adds retention_history-Adds index r.history in
    (extra, λ options. ap ok (p options))

append_cloud_provider_options-Appends :
    (index : ℕ) (repo : PgbackrestRepository)
    → Appends (λ options. append_cloud_provider_options options index repo)
unfolding append_cloud_provider_options
append_cloud_provider_options-Appends index repo =
    let (extra, p) =
      append-Adds _
      then_adds append_if-Adds (not (is_nil repo.endpoint_url)) _
      then_adds append_if-Adds repo.disable_verify_tls _
      then_adds append-Adds _
      then_adds s3_uri_style-Adds index repo.aws in
    (extra, λ options. ap ok (p options))

module _ (step : List Text → ℕ → PgbackrestRepository → Result (List Text)) where
  for_repositories-Appends :
      ((index : ℕ) (repo : PgbackrestRepository) → Appends (λ options. step options index repo))
      → (index : ℕ) (repos : List PgbackrestRepository)
      → Appends (for_repositories step index repos)
  unfolding for_repositories
  for_repositories-Appends each index [] = ([], λ options. ap ok (sym (append-nil options)))
  for_repositories-Appends each index (repo ∷ repos) =
      let (e, p) = each index repo in
      let (d, q) = for_repositories-Appends each (suc index) repos in
      (
        e ++ d,
        λ options.
            ap (λ r. r >>= for_repositories step (suc index) repos) (p options)
            ∙ q (options ++ e)
            ∙ ap ok (append_assoc options e d),
      )

module _ (c : PgbackrestConfiguration) where
  pub cloud_provider-Appends :
      Appends (λ options. append_cloud_provider_options_from_configuration options c)
  unfolding append_cloud_provider_options_from_configuration
  cloud_provider-Appends =
      for_repositories-Appends append_cloud_provider_options append_cloud_provider_options-Appends 0
        c.repositories

  pub retention-Appends : Appends (λ options. append_retention_options_from_configuration options c)
  unfolding append_retention_options_from_configuration
  retention-Appends =
      for_repositories-Appends (λ o index repo. append_retention_options o index repo.retention)
        (λ index repo. append_retention_options-Appends index repo.retention) 0 c.repositories

  pub stanza-Appends :
      (dir : Text) (running : Bool)
      → Appends (λ options. append_stanza_options_from_configuration options c dir running)
  unfolding append_stanza_options_from_configuration
  stanza-Appends dir running =
      let (extra, p) = append-Adds _ then_adds append_if-Adds running _ in
      (extra, λ options. ap ok (p options))

-- The options of the log, which end with the console's level `off`.
pub log_extra : Option PgbackrestConfiguration → List Text
unfolding append_log_options
log_extra c =
    codes "--log-level-stderr"
    ∷ level_of_configuration c
    ∷ codes "--log-level-console"
    ∷ codes "off"
    ∷ []

pub log-append :
    (c : Option PgbackrestConfiguration) (options : List Text)
    → append_log_options_from_configuration options c ≡ ok (options ++ log_extra c)
unfolding append_log_options_from_configuration log_extra
log-append c options = refl

abbrev pub console_flag : Text
console_flag = codes "--log-level-console"

pub contains-log_extra :
    (c : Option PgbackrestConfiguration) → contains (log_extra c) console_flag ≡ true
unfolding log_extra contains
contains-log_extra c = ground (arith, str_eq_self console_flag)
