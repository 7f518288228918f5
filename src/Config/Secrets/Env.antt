-- ===== src/Config/Secrets/Env.antt =====
-- What `resolve_secret_env` of src/config.rs makes of a value.
use epistole.Prelude.{
  ◌≡◌, ◌≢◌, refl, ap, ◌∙◌, ◌↔◌, ◌⊎◌, inl, inr, [], ◌∷◌, true, Option, some, Option-cases, Text,
  text, ok, Bool-cases,
}
use epistole.Config.Secrets.{contains, is_valid_env_ref, resolve_secret_env}
use epistole.Config.Secrets.Grammar.{
  Occurs, IsEnvName, reference, contains_iff, env_name-reference, reference-Occurs,
  is_valid_env_ref_iff,
}

module _ (env : Text → Option Text) where
  -- The secret that a value stands for: itself, if `${` does not occur in it, or the value of the
  -- variable that it is a reference to, if that is not empty.
  abbrev pub StandsFor : Text → Text → Type 0
  StandsFor value secret =
      (¬ Occurs (text "${") value × (secret ≡ value))
      ⊎ ((name : Text) × (value ≡ reference name)
          × IsEnvName name
          × (env name ≡ some secret)
          × (secret ≢ []))

  module _ (name field : Text) (named : IsEnvName name) where
    marked : contains (text "${") (reference name) ≡ true
    marked = (contains_iff (text "${") (reference name)).1 (reference-Occurs name)

    valid : is_valid_env_ref (reference name) ≡ true
    valid = (is_valid_env_ref_iff (reference name)).1 (name, refl, named)

    resolve_secret_env-set :
        (secret : Text)
        → env name ≡ some secret
        → secret ≢ []
        → resolve_secret_env env (reference name) field ≡ ok secret
    unfolding resolve_secret_env
    resolve_secret_env-set [] found full = absurd (full refl)
    resolve_secret_env-set (c ∷ s) found full =
        rw (marked, valid, env_name-reference name, found) refl

    resolve_secret_env-found :
        (secret : Text)
        → resolve_secret_env env (reference name) field ≡ ok secret
        → (env name ≡ some secret) × (secret ≢ [])
    unfolding resolve_secret_env
    resolve_secret_env-found secret h = elim (Option-cases (env name)) [
      | inl unset ↦ cc (rw (marked, valid, env_name-reference name, unset) at h)
      | inr ([], found) ↦ cc (rw (marked, valid, env_name-reference name, found) at h)
      | inr (c ∷ s, found) ↦
          let same : c ∷ s ≡ secret =
            cc (rw (marked, valid, env_name-reference name, found) at h) in
          (found ∙ ap some same, λ e. cc)
    ]

  -- A value resolves to a secret exactly when `${` does not occur in it and it is the secret, or
  -- when it is `${NAME}` with a NAME of an upper-case letter or underscore and then such characters
  -- or digits, and the environment has the secret under NAME, not empty.
  pub resolve_secret_env_iff :
      (value field secret : Text)
      → (resolve_secret_env env value field ≡ ok secret) ↔ StandsFor value secret
  resolve_secret_env_iff value field secret = (forth, back)
    where
      forth : resolve_secret_env env value field ≡ ok secret → StandsFor value secret
      forth h = elim (Bool-cases (contains (text "${") value)) [
        | inl holds ↦ elim (Bool-cases (is_valid_env_ref value)) [
          | inl valid ↦
              let (name, same, named) = (is_valid_env_ref_iff value).0 valid in
              let (found, full) = resolve_secret_env-found name field named secret (rw same at h) in
              inr (name, same, named, found, full)
          | inr malformed ↦ (unfold resolve_secret_env in cc (rw (holds, malformed) at h))
        ]
        | inr plain ↦ inl (
          (λ occurs. let holds = (contains_iff (text "${") value).1 occurs in cc),
          (unfold resolve_secret_env in cc (rw plain at h)),
        )
      ]

      back : StandsFor value secret → resolve_secret_env env value field ≡ ok secret
      back (inl (plain, same)) = elim (Bool-cases (contains (text "${") value)) [
        | inl holds ↦ absurd (plain ((contains_iff (text "${") value).0 holds))
        | inr unmarked ↦ (unfold resolve_secret_env in rw (unmarked, same) refl)
      ]
      back (inr (name, same, named, found, full)) =
          rw same (resolve_secret_env-set name field named secret found full)
