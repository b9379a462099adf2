-- ===== src/Registry/Env/Statuses.antt =====
-- What pkg/registry/env.go tells of the requirements that were registered.
use mathlib.Core.List.{Permᴰ, append_assoc, append-nil}
use syndi.Common.{
  List, [], ◌∷◌, ◌++◌, Option, none, some, Text, false, text_eq, text_eq→≡, any, any-perm, map,
  if◌then◌else◌, Bool-cases, inl, inr, ◌≡◌, refl, sym, ap, ◌∙◌,
}
use syndi.Common.Maps.{lookup, insert, lookup-insert}
use syndi.Registry.Env.{
  EnvRequirement, EnvStatus, Envs, requirements, namespace_env_reqs, register_namespace_env,
  namespace_of_entry, env_status, status_loop, all_env_statuses,
}

-- Calls of RegisterNamespaceEnv, in order.
unfoldable register_all : List (Text × List EnvRequirement) → Envs → Envs
register_all [] envs = envs
register_all ((namespace, reqs) ∷ calls) envs =
    register_all calls (register_namespace_env namespace reqs envs)

-- The requirements that calls give a namespace.
unfoldable given : Text → List (Text × List EnvRequirement) → List EnvRequirement
given namespace [] = []
given namespace ((other, reqs) ∷ calls) =
    let later = given namespace calls in if text_eq other namespace then reqs ++ later else later

register_all-reqs :
    (namespace : Text) (calls : List (Text × List EnvRequirement)) (envs : Envs)
    → namespace_env_reqs namespace (register_all calls envs)
      ≡ namespace_env_reqs namespace envs ++ given namespace calls
unfolding register_all given namespace_env_reqs register_namespace_env
register_all-reqs namespace [] envs = sym (append-nil (requirements (lookup namespace envs)))
register_all-reqs namespace ((other, reqs) ∷ calls) envs =
    let later = register_all-reqs namespace calls (register_namespace_env other reqs envs) in
    let changed = lookup-insert other namespace (requirements (lookup other envs) ++ reqs) envs in
    elim (Bool-cases (text_eq other namespace)) [
      | inl e ↦
          let same = text_eq→≡ other namespace e in
          later
          ∙ rw (changed, e, same)
              (append_assoc (requirements (lookup namespace envs)) reqs (given namespace calls))
      | inr e ↦ later ∙ rw (changed, e) refl
    ]

keys-absent :
    (namespace : Text) (envs : Envs)
    → any (λ n. text_eq n namespace) (map namespace_of_entry envs) ≡ false
    → lookup namespace envs ≡ none
unfolding lookup
keys-absent namespace [] h = refl
keys-absent namespace ((other, reqs) ∷ envs) h = elim (Bool-cases (text_eq other namespace)) [
  | inl e ↦ absurd (cc (rw e at h))
  | inr e ↦ rw e (keys-absent namespace envs (rw e at h))
]

abbrev statuses_or_none : Option (List EnvStatus) → List EnvStatus
statuses_or_none none = []
statuses_or_none (some statuses) = statuses

module _ (lookup_env : Text → Option Text) where
  status_loop-lookup :
      (namespace : Text) (namespaces : List Text) (envs : Envs)
      (result : List (Text × List EnvStatus))
      → lookup namespace (status_loop lookup_env namespaces envs result) ≡ (
          if any (λ n. text_eq n namespace) namespaces
          then some (map (env_status lookup_env namespace) (namespace_env_reqs namespace envs))
          else lookup namespace result)
  unfolding status_loop
  status_loop-lookup namespace [] envs result = refl
  status_loop-lookup namespace (n ∷ ns) envs result =
      let statuses = map (env_status lookup_env n) (namespace_env_reqs n envs) in
      let later = status_loop-lookup namespace ns envs (insert n statuses result) in
      let changed = lookup-insert n namespace statuses result in
      elim (Bool-cases (text_eq n namespace)) [
        | inl e ↦ elim (Bool-cases (any (λ m. text_eq m namespace) ns)) [
          | inl f ↦ later ∙ rw (e, f) refl
          | inr f ↦ later ∙ rw (f, changed, e, text_eq→≡ n namespace e) refl
        ]
        | inr e ↦ later ∙ rw (changed, e) refl
      ]

  -- After any registrations, the statuses of a namespace are those of all the requirements that it was given,
  -- in order, with whether the environment has them.
  all_env_statuses-given :
      (sort_strings : List Text → List Text)
      → ((names : List Text) → Permᴰ (sort_strings names) names)
      → (calls : List (Text × List EnvRequirement)) (namespace : Text)
      → statuses_or_none
          (lookup namespace (all_env_statuses lookup_env sort_strings (register_all calls [])))
        ≡ map (env_status lookup_env namespace) (given namespace calls)
  unfolding all_env_statuses lookup namespace_env_reqs
  all_env_statuses-given sort_strings permutes calls namespace =
      let envs = register_all calls [] in
      let found =
        status_loop-lookup namespace (sort_strings (map namespace_of_entry envs)) envs [] in
      let same = any-perm (λ n. text_eq n namespace) (permutes (map namespace_of_entry envs)) in
      let reqs = register_all-reqs namespace calls [] in
      elim (Bool-cases (any (λ n. text_eq n namespace) (map namespace_of_entry envs))) [
        | inl e ↦ rw (found, same, e, reqs) refl
        | inr e ↦
            let none_given : given namespace calls ≡ [] =
              sym reqs ∙ ap requirements (keys-absent namespace envs e) in
            rw (found, same, e, none_given) refl
      ]
