-- ===== src/Parser/Passwords.antt =====
-- The passwords of a parsed definition come from secrets.
use mathlib.Core.Option
use buildbeaver.Base.{
  OnSome, All, ◌≡◌, refl, ◌⊎◌, inl, inr, true, false, Option, none, some, [], arith,
}
use buildbeaver.Base.Options.{OnSome->>=, OnSome-any}
use buildbeaver.Models.{codes, is_empty, JobType}
use buildbeaver.Parser.Raw.{Raw, Object, as_text, as_array, as_object, field, if_set}
use buildbeaver.Parser.Fields.{
  SecretValue, literal, DockerBasicAuth, DockerAwsAuth, RegistryAuth, parse_secret_string,
  is_from_secret, has_value, parse_password, parse_basic_auth, parse_aws_auth, auth_of,
  parse_docker_auth_or_nil, parse_environment, parse_service,
}
use buildbeaver.Parser.Jobs.{scan_pull, or_nil, allows_docker, parse_docker, parse_services}
use buildbeaver.Parser.Outcomes.{OnSome-require, OnSome-if_set, OnSome-each}

-- A password comes from a secret and is not given in the definition.
abbrev pub IsSecret : SecretValue → Type 0
IsSecret s = (is_empty s.value_from_secret ≡ false) × (is_empty s.value ≡ true)

-- The passwords of an authentication.
abbrev pub HidesPasswords : Option RegistryAuth → Type 0
HidesPasswords none = Unit
HidesPasswords (some a) =
    OnSome a.basic (λ b. IsSecret b.password) × OnSome a.aws (λ b. IsSecret b.aws_secret_access_key)

IsSecret-is_from_secret : (s : SecretValue) → is_from_secret s ≡ true → IsSecret s
IsSecret-is_from_secret s e = ground arith

parse_password-IsSecret : (raw : Raw) → OnSome (parse_password raw) IsSecret
unfolding parse_password
parse_password-IsSecret raw =
    OnSome->>= _ (parse_secret_string raw) _ (OnSome-any _)
      λ s _. OnSome-require _ (is_from_secret s) _ λ e. IsSecret-is_from_secret s e

-- A password is from a secret, or not there.
abbrev IsSecretOrMissing : SecretValue → Type 0
IsSecretOrMissing s = IsSecret s ⊎ (has_value s ≡ false)

given-IsSecret : (s : SecretValue) → IsSecretOrMissing s → has_value s ≡ true → IsSecret s
given-IsSecret s (inl h) e = h
given-IsSecret s (inr f) e = cc

password_field-IsSecretOrMissing :
    (o : Option Raw) → OnSome (if_set o (literal []) parse_password) IsSecretOrMissing
unfolding is_empty
password_field-IsSecretOrMissing o =
    OnSome-if_set _ o _ parse_password (inr refl)
      λ r. OnSome-inl (parse_password r) (parse_password-IsSecret r)
  where
    OnSome-inl : (p : Option SecretValue) → OnSome p IsSecret → OnSome p IsSecretOrMissing
    OnSome-inl none h = tt
    OnSome-inl (some s) h = inl h

parse_basic_auth-IsSecret :
    (raw : Raw) → OnSome (parse_basic_auth raw) λ o. OnSome o λ b. IsSecret b.password
unfolding parse_basic_auth
parse_basic_auth-IsSecret raw = OnSome->>= _ (as_object raw) _ (OnSome-any _) λ value _.
    OnSome->>= _ (if_set (field (codes "username") value) (literal []) parse_secret_string) _
      (OnSome-any _)
      λ username _.
        OnSome->>= _ (if_set (field (codes "password") value) (literal []) parse_password) _
          (password_field-IsSecretOrMissing (field (codes "password") value))
          λ password h.
            OnSome-require _ (has_value username) _
              λ _. OnSome-require _ (has_value password) _ λ e. given-IsSecret password h e

parse_aws_auth-IsSecret :
    (raw : Raw) → OnSome (parse_aws_auth raw) λ o. OnSome o λ b. IsSecret b.aws_secret_access_key
unfolding parse_aws_auth
parse_aws_auth-IsSecret raw = OnSome->>= _ (as_object raw) _ (OnSome-any _) λ value _.
    OnSome->>= _ (if_set (field (codes "aws_region") value) [] as_text) _ (OnSome-any _) λ region _.
      OnSome->>= _
        (if_set (field (codes "aws_access_key_id") value) (literal []) parse_secret_string) _
        (OnSome-any _)
        λ id _.
          OnSome->>= _
            (if_set (field (codes "aws_secret_access_key") value) (literal []) parse_password) _
            (password_field-IsSecretOrMissing (field (codes "aws_secret_access_key") value))
            λ secret h.
              OnSome-require _ (has_value id) _
                λ _. OnSome-require _ (has_value secret) _ λ e. given-IsSecret secret h e

auth_of-HidesPasswords :
    (b : Option DockerBasicAuth) (a : Option DockerAwsAuth)
    → OnSome b (λ x. IsSecret x.password)
    → OnSome a (λ x. IsSecret x.aws_secret_access_key)
    → HidesPasswords (auth_of b a)
auth_of-HidesPasswords none none h k = tt
auth_of-HidesPasswords (some b) a h k = (h, k)
auth_of-HidesPasswords none (some a) h k = (tt, k)

parse_docker_auth-HidesPasswords :
    (config : Object) → OnSome (parse_docker_auth_or_nil config) HidesPasswords
unfolding parse_docker_auth_or_nil
parse_docker_auth-HidesPasswords config =
    OnSome->>= _ (if_set (field (codes "basic_auth") config) none parse_basic_auth) _
      (OnSome-if_set _ (field (codes "basic_auth") config) none parse_basic_auth tt
        parse_basic_auth-IsSecret)
      λ b h.
        OnSome->>= _ (if_set (field (codes "aws_auth") config) none parse_aws_auth) _
          (OnSome-if_set _ (field (codes "aws_auth") config) none parse_aws_auth tt
            parse_aws_auth-IsSecret)
          λ a k. auth_of-HidesPasswords b a h k

parse_service-HidesPasswords : (raw : Raw) → OnSome (parse_service raw) λ s. HidesPasswords s.auth
unfolding parse_service
parse_service-HidesPasswords raw = OnSome->>= _ (as_object raw) _ (OnSome-any _) λ value _.
    OnSome->>= _ (if_set (field (codes "name") value) [] as_text) _ (OnSome-any _) λ name _.
      OnSome->>= _ (if_set (field (codes "image") value) [] as_text) _ (OnSome-any _) λ image _.
        OnSome->>= _ (parse_docker_auth_or_nil value) _ (parse_docker_auth-HidesPasswords value)
          λ auth h.
            OnSome->>= _ (if_set (field (codes "environment") value) [] parse_environment) _
              (OnSome-any _) λ environment _. h

pub parse_services-HidesPasswords :
    (raw : Raw) → OnSome (parse_services raw) (All λ s. HidesPasswords s.auth)
unfolding parse_services
parse_services-HidesPasswords raw =
    OnSome->>= _ (as_array raw) _ (OnSome-any _)
      λ values _. OnSome-each _ parse_service values parse_service-HidesPasswords

pub parse_docker-HidesPasswords :
    (type : JobType) (raw : Raw) → OnSome (parse_docker type raw) λ d. HidesPasswords d.auth
unfolding parse_docker
parse_docker-HidesPasswords type raw = OnSome-require _ (allows_docker type) _ λ _.
    OnSome->>= _ (as_object raw) _ (OnSome-any _) λ config _.
      OnSome->>= _ (if_set (field (codes "shell") config) none (λ r. Option.map some (as_text r))) _
        (OnSome-any _)
        λ shell _.
          OnSome->>= _ (if_set (field (codes "image") config) [] as_text) _ (OnSome-any _)
            λ image _.
              OnSome->>= _ (scan_pull (or_nil (field (codes "pull") config))) _ (OnSome-any _)
                λ pull _.
                  OnSome->>= _ (parse_docker_auth_or_nil config) _
                    (parse_docker_auth-HidesPasswords config) λ auth h. h
