-- ===== src/Registry/Env.antt =====
-- pkg/registry/env.go: the environment variables that the routes of a namespace need.
pub mod Statuses
use syndi.Common.{List, [], ◌∷◌, ◌++◌, Option, none, some, Text, Bool, false, not, is_empty, map}
use syndi.Common.Maps.{lookup, insert}

pub record EnvField : Type 0 where
  pub name : Text
  pub note : Text

pub record EnvRequirement : Type 0 where
  pub key : Text
  pub description : Text
  pub scope : Text
  pub fields : List EnvField

pub record EnvStatus : Type 0 where
  pub namespace : Text
  pub key : Text
  pub description : Text
  pub scope : Text
  pub configured : Bool
  pub fields : List EnvField

-- The map of namespaces.
abbrev pub Envs : Type 0
Envs = List (Text × List EnvRequirement)

abbrev pub requirements : Option (List EnvRequirement) → List EnvRequirement
requirements none = []
requirements (some reqs) = reqs

unfoldable pub namespace_env_reqs : Text → Envs → List EnvRequirement
namespace_env_reqs namespace envs = requirements (lookup namespace envs)

unfoldable pub register_namespace_env : Text → List EnvRequirement → Envs → Envs
register_namespace_env namespace reqs envs =
    insert namespace (requirements (lookup namespace envs) ++ reqs) envs

abbrev pub namespace_of_entry : Text × List EnvRequirement → Text
namespace_of_entry (namespace, reqs) = namespace

-- `lookup_env` is os.LookupEnv.
module _ (lookup_env : Text → Option Text) where
  abbrev pub non_empty : Option Text → Bool
  non_empty none = false
  non_empty (some value) = not (is_empty value)

  abbrev pub env_status : Text → EnvRequirement → EnvStatus
  env_status namespace req = record {
    namespace = namespace;
    key = req.key;
    description = req.description;
    scope = req.scope;
    configured = non_empty (lookup_env req.key);
    fields = req.fields;
  }

  unfoldable pub status_loop :
      List Text → Envs → List (Text × List EnvStatus) → List (Text × List EnvStatus)
  status_loop [] envs result = result
  status_loop (namespace ∷ namespaces) envs result =
      status_loop namespaces envs
        (insert namespace (map (env_status namespace) (namespace_env_reqs namespace envs)) result)

  unfoldable pub all_env_statuses : (List Text → List Text) → Envs → List (Text × List EnvStatus)
  all_env_statuses sort_strings envs =
      status_loop (sort_strings (map namespace_of_entry envs)) envs []
