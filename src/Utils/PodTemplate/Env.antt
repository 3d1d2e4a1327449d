-- ===== src/Utils/PodTemplate/Env.antt =====
-- `uniqueEnv` keeps the last variable of each name, and no name twice.
use k8storagex.Base.{
  inl, inr, Option-cases, ◌<◌, ◌∙◌, ap, ltb, map, ℕ, ◌+◌, ◌≡◌, refl, String, Option, none, some,
  List, [], ◌∷◌, arith, ◌==◌, string_eq, if◌then◌else◌,
}
use k8storagex.Base.Dict
use k8storagex.Base.Dict.{Dict}
use k8storagex.Api.Core.{EnvVar}
use k8storagex.Utils.PodTemplate.{unique_env, env_at, env_map, env_names}

-- The first variable of a name.
unfoldable find_env : String → List EnvVar → Option EnvVar
find_env name [] = none
find_env name (v ∷ env) = if v.name == name then some v else find_env name env

-- The last variable of a name, or `old`.
abbrev pub last_env : String → Option EnvVar → List EnvVar → Option EnvVar
last_env name old [] = old
last_env name old (v ∷ env) = last_env name (if v.name == name then some v else old) env

-- How often a string stands in a list.
abbrev pub count : String → List String → ℕ
count s [] = 0
count s (t ∷ ts) = (if t == s then 1 else 0) + count s ts

abbrev pub count_env : String → List EnvVar → ℕ
count_env name [] = 0
count_env name (v ∷ env) = (if v.name == name then 1 else 0) + count_env name env

lookup-env_map :
    (name : String) (m : Dict EnvVar) (env : List EnvVar)
    → Dict.lookup name (env_map m env) ≡ last_env name (Dict.lookup name m) env
unfolding env_map
lookup-env_map name m [] = refl
lookup-env_map name m (v ∷ env) =
    rw (lookup-env_map name (Dict.insert v.name v m) env, Dict.lookup-insert v.name name v m)

-- A dictionary of variables by their own names, in which no name stands twice.
abbrev IsEnvMap : Dict EnvVar → Type 0
IsEnvMap [] = Unit
IsEnvMap ((k, v) ∷ m) = (v.name ≡ k) × (Dict.lookup k m ≡ none) × IsEnvMap m

insert-IsEnvMap : (v : EnvVar) (m : Dict EnvVar) → IsEnvMap m → IsEnvMap (Dict.insert v.name v m)
unfolding Dict.insert Dict.lookup
insert-IsEnvMap v [] h = (refl, refl, tt)
insert-IsEnvMap v ((k, w) ∷ m) h =
    ground (arith, insert-IsEnvMap v m h.2, Dict.lookup-insert v.name k v m)

env_map-IsEnvMap : (env : List EnvVar) (m : Dict EnvVar) → IsEnvMap m → IsEnvMap (env_map m env)
unfolding env_map
env_map-IsEnvMap [] m h = h
env_map-IsEnvMap (v ∷ env) m h = env_map-IsEnvMap env _ (insert-IsEnvMap v m h)

count-env_names :
    (name : String) (m : Dict EnvVar)
    → IsEnvMap m
    → count name (env_names m) ≡ (elim (Dict.lookup name m) [ none ↦ 0 | some _ ↦ 1 ])
unfolding env_names Dict.lookup
count-env_names name [] h = refl
count-env_names name ((k, v) ∷ m) h = ground (arith, count-env_names name m h.2)

name-lookup :
    (name : String) (m : Dict EnvVar) (v : EnvVar)
    → IsEnvMap m
    → Dict.lookup name m ≡ some v
    → v.name ≡ name
unfolding Dict.lookup
name-lookup name [] v h e = cc
name-lookup name ((k, w) ∷ m) v h e = ground (arith, name-lookup name m v h.2)

-- Every name of the list is a key.
abbrev AreKeys : Dict EnvVar → List String → Type 0
AreKeys m [] = Unit
AreKeys m (n ∷ names) = ((v : EnvVar) × (Dict.lookup n m ≡ some v)) × AreKeys m names

AreKeys-of_count :
    (m : Dict EnvVar) (names : List String)
    → ((s : String) → 0 < count s names → (v : EnvVar) × (Dict.lookup s m ≡ some v))
    → AreKeys m names
AreKeys-of_count m [] h = tt
AreKeys-of_count m (n ∷ names) h =
    (h n (ground arith), AreKeys-of_count m names (λ s more. h s (omega arith)))

module _ (m : Dict EnvVar) (valid : IsEnvMap m) where
  name-env_at : (n : String) (v : EnvVar) → Dict.lookup n m ≡ some v → (env_at m n).name ≡ n
  unfolding env_at
  name-env_at n v e = ground (arith, e, name-lookup n m v valid e)

  count_env-map :
      (name : String) (names : List String)
      → AreKeys m names
      → count_env name (map (env_at m) names) ≡ count name names
  count_env-map name [] keys = refl
  count_env-map name (n ∷ names) keys =
      ground (arith, count_env-map name names keys.1, name-env_at n keys.0.0 keys.0.1)

  find_env-map :
      (name : String) (names : List String)
      → AreKeys m names
      → find_env name (map (env_at m) names)
        ≡ (if ltb 0 (count name names) then Dict.lookup name m else none)
  unfolding find_env env_at
  find_env-map name [] keys = refl
  find_env-map name (n ∷ names) keys =
      ground (arith, find_env-map name names keys.1, name-env_at n keys.0.0 keys.0.1, keys.0.1)

module _ (sort_strings : List String → List String)
    (permutes : (l : List String) (s : String) → count s (sort_strings l) ≡ count s l) where
  names-AreKeys :
      (env : List EnvVar) → AreKeys (env_map [] env) (sort_strings (env_names (env_map [] env)))
  names-AreKeys env = AreKeys-of_count (env_map [] env) _ λ s there.
      elim (Option-cases (Dict.lookup s (env_map [] env))) [
        | inr known ↦ known
        | inl e ↦ absurd (
            ground (
              arith,
              permutes (env_names (env_map [] env)) s,
              count-env_names s (env_map [] env) (env_map-IsEnvMap env [] tt),
              there,
              e,
            ))
      ]

  -- After `uniqueEnv` each name that a variable had stands there exactly once, and no other name.
  count_env-unique_env :
      (env : List EnvVar) (name : String)
      → count_env name (unique_env sort_strings env)
        ≡ (elim (last_env name none env) [ none ↦ 0 | some _ ↦ 1 ])
  unfolding unique_env Dict.lookup
  count_env-unique_env env name =
      let m = env_map [] env in
      let valid : IsEnvMap m = env_map-IsEnvMap env [] tt in
      count_env-map m valid name (sort_strings (env_names m)) (names-AreKeys env)
      ∙ (permutes (env_names m) name
          ∙ (count-env_names name m valid
              ∙ ap (λ (o : Option EnvVar). elim o as (λ _. ℕ) [ none ↦ 0 | some _ ↦ 1 ])
                  (lookup-env_map name [] env)))

  -- The variable of a name after `uniqueEnv` is the last one that had it.
  find_env-unique_env :
      (env : List EnvVar) (name : String)
      → find_env name (unique_env sort_strings env) ≡ last_env name none env
  unfolding unique_env Dict.lookup
  find_env-unique_env env name =
      let m = env_map [] env in
      let valid : IsEnvMap m = env_map-IsEnvMap env [] tt in
      rw (find_env-map m valid name (sort_strings (env_names m)) (names-AreKeys env)) (
        ground (
          arith,
          permutes (env_names m) name,
          count-env_names name m valid,
          lookup-env_map name [] env,
        ))
