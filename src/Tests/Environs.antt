-- ===== src/Tests/Environs.antt =====
-- An environment with a variable of a service.
use cnpg_plugin_pgbackrest.Base.{
  ◌≡◌, ◌↔◌, refl, true, false, not, ◌&&◌, [], ◌∷◌, List, Text, codes, contains,
}
use cnpg_plugin_pgbackrest.Utils.Environ.{is_service_variable, strip_services_from_env}
use cnpg_plugin_pgbackrest.Utils.Environ.Pattern.{IsService, strip_services_from_env_lem}

abbrev service_variable : Text
service_variable = codes "PGBACKREST_SERVER_PORT_8432_TCP=tcp://10.0.0.1:8432"

abbrev small_environ : List Text
small_environ = service_variable ∷ codes "HOME=/" ∷ []

-- The pattern also takes the variable of pgBackRest for the port of a database.
is_service_variable_runs :
    (is_service_variable service_variable ≡ true)
    × (is_service_variable (codes "PGBACKREST_PG1_PORT=5432") ≡ true)
    × (is_service_variable (codes "PGBACKREST_REPO1_S3_KEY=a") ≡ false)
unfolding is_service_variable codes
is_service_variable_runs = (refl, refl, refl)

strip_services_from_env_example :
    ((is_service_variable service_variable ≡ true) ↔ IsService service_variable)
    × (contains (strip_services_from_env small_environ) service_variable
        ≡ (contains small_environ service_variable && not (is_service_variable service_variable)))
strip_services_from_env_example = strip_services_from_env_lem small_environ service_variable
