-- ===== src/Lifecycle/Envs.antt =====
-- The environment of the sidecar.
use mathlib.Core.List.{map, map-append}
use cnpg_plugin_pgbackrest.Base.{
  ◌≡◌, refl, sym, ap, ◌∙◌, subst, inl, inr, true, ◌||◌, List, [], ◌∷◌, ◌++◌, Option, none, some,
  Text, str_eq, str_eq_sound, if◌then◌else◌, Bool-cases, arith, contains, Distinct, Distinct-snoc,
}
use cnpg_plugin_pgbackrest.Api.Archive.{EnvVar}
use cnpg_plugin_pgbackrest.Config.{Cluster}
use cnpg_plugin_pgbackrest.Lifecycle.{
  PodSpec, Container, has_env, merge_envs, container_envs, fixed_envs, sidecar_for,
}

-- The first variable of that name.
abbrev pub find_env : Text → List EnvVar → Option EnvVar
find_env name [] = none
find_env name (e ∷ envs) =
    let rest = find_env name envs in if str_eq e.name name then some e else rest

abbrev pub env_names : List EnvVar → List Text
env_names = map (λ e. e.name)

or_else : Option EnvVar → Option EnvVar → Option EnvVar
or_else none o = o
or_else (some e) o = some e

find_env-append :
    (name : Text) (xs ys : List EnvVar)
    → find_env name (xs ++ ys) ≡ or_else (find_env name xs) (find_env name ys)
unfolding or_else
find_env-append name [] ys = refl
find_env-append name (x ∷ xs) ys = ground (arith, find_env-append name xs ys)

-- A variable that is set hides what comes behind.
or_else_of_set :
    (name : Text) (xs : List EnvVar) (a b : Option EnvVar)
    → has_env name xs ≡ true
    → or_else (find_env name xs) a ≡ or_else (find_env name xs) b
unfolding has_env or_else
or_else_of_set name [] a b h = cc
or_else_of_set name (x ∷ xs) a b h = ground (arith, or_else_of_set name xs a b)

or_else_assoc : (a b c : Option EnvVar) → or_else (or_else a b) c ≡ or_else a (or_else b c)
unfolding or_else
or_else_assoc none b c = refl
or_else_assoc (some e) b c = refl

or_else_nil : (a : Option EnvVar) → or_else a none ≡ a
unfolding or_else
or_else_nil none = refl
or_else_nil (some e) = refl

-- A variable whose name is set already changes nothing for any name.
skip_set :
    (name : Text) (e : EnvVar) (set envs : List EnvVar)
    → has_env e.name set ≡ true
    → or_else (find_env name set) (find_env name envs)
      ≡ or_else (find_env name set) (find_env name (e ∷ envs))
skip_set name e set envs h = elim (Bool-cases (str_eq e.name name)) [
  | inl same ↦
      or_else_of_set name set (find_env name envs) (find_env name (e ∷ envs))
        (subst (λ n. has_env n set ≡ true) (str_eq_sound e.name name same) h)
  | inr differ ↦ rw differ
]

add_new :
    (name : Text) (e : EnvVar) (set envs : List EnvVar)
    → or_else (find_env name (set ++ e ∷ [])) (find_env name envs)
      ≡ or_else (find_env name set) (find_env name (e ∷ envs))
add_new name e set envs =
    ap (λ a. or_else a (find_env name envs)) (find_env-append name set (e ∷ []))
    ∙ or_else_assoc (find_env name set) (find_env name (e ∷ [])) (find_env name envs)
    ∙ ap (or_else (find_env name set)) (sym (find_env-append name (e ∷ []) envs))

find_env-merge :
    (name : Text) (set envs : List EnvVar)
    → find_env name (merge_envs set envs) ≡ or_else (find_env name set) (find_env name envs)
unfolding merge_envs
find_env-merge name set [] = sym (or_else_nil (find_env name set))
find_env-merge name set (e ∷ envs) = elim (Bool-cases (has_env e.name set)) [
  | inl h ↦ rw h (find_env-merge name set envs ∙ skip_set name e set envs h)
  | inr h ↦ rw h (find_env-merge name (set ++ e ∷ []) envs ∙ add_new name e set envs)
]

contains_names :
    (name : Text) (envs : List EnvVar) → contains (env_names envs) name ≡ has_env name envs
unfolding contains has_env
contains_names name [] = refl
contains_names name (e ∷ envs) = ap (λ b. str_eq e.name name || b) (contains_names name envs)

Distinct-merge :
    (set envs : List EnvVar) → Distinct (env_names set) → Distinct (env_names (merge_envs set envs))
unfolding merge_envs
Distinct-merge set [] d = d
Distinct-merge set (e ∷ envs) d = elim (Bool-cases (has_env e.name set)) [
  | inl h ↦ rw h (Distinct-merge set envs d)
  | inr h ↦ rw h (
      Distinct-merge (set ++ e ∷ []) envs (
        subst Distinct (sym (map-append (λ (v : EnvVar). v.name) set (e ∷ [])))
          (Distinct-snoc (env_names set) e.name (contains_names e.name set ∙ h) d)))
]

-- The environment of the injected sidecar has no name twice, and each name has there the first
-- meaning that it has among the variables that the sidecar comes with, those of the main container,
-- the fixed ones and the additional ones, in this order. So neither the fixed nor the additional
-- variables replace one of the main container. For a sidecar that comes with no name twice.
pub env-sidecar_for :
    (sidecar_image : Text) (cluster : Cluster) (spec : PodSpec) (main : Text) (sidecar : Container)
    (additional_envs : List EnvVar) (resources security_context : Option Text) (name : Text)
    → Distinct (env_names sidecar.env)
    → let env =
        (sidecar_for sidecar_image cluster spec main sidecar additional_envs resources
          security_context).env in
      Distinct (env_names env)
      × (find_env name env
          ≡ find_env name (
              sidecar.env
              ++ (container_envs main spec.containers
                  ++ (fixed_envs cluster.namespace cluster.name ++ additional_envs))))
unfolding sidecar_for
env-sidecar_for sidecar_image cluster spec main sidecar additional_envs resources security_context
      name d =
    let own = sidecar.env in
    let mains = container_envs main spec.containers in
    let rest = fixed_envs cluster.namespace cluster.name ++ additional_envs in
    (
      Distinct-merge (merge_envs own mains) rest (Distinct-merge own mains d),
      find_env-merge name (merge_envs own mains) rest
          ∙ ap (λ a. or_else a (find_env name rest)) (find_env-merge name own mains)
          ∙ or_else_assoc (find_env name own) (find_env name mains) (find_env name rest)
          ∙ ap (or_else (find_env name own)) (sym (find_env-append name mains rest))
          ∙ sym (find_env-append name own (mains ++ rest)),
    )
