-- ===== src/Auth.antt =====
-- internal/image/auth: the credentials of a registry, by the chain of providers of chain.go and by the
-- environment of env.go. Of an error only its kind and the provider are modelled.
use astinus.Base.{
  ℕ, ◌≡◌, refl, Bool, true, false, ◌&&◌, ◌||◌, List, [], ◌∷◌, ◌++◌, map, Text, codes, text_eq,
  nat_eq, ◌==◌, if◌then◌else◌, if_ind, Result, ok, err, IfOk, Bool-cases, inl, inr, All,
}
use astinus.Base.Strings.{to_upper}
mod Tests

pub record Credentials : Type 0 where
  pub username : Text
  pub password : Text
  pub token : Text
  pub identity_token : Text

abbrev pub is_empty : Credentials → Bool
is_empty c = c.username == [] && (c.password == [] && (c.token == [] && c.identity_token == []))

pub data CredentialError : Type 0 where
  no_credentials : CredentialError
  provider_failed : Text → Text → CredentialError

pub record CredentialProvider : Type 0 where
  pub name : Text
  pub resolve : Text → Result CredentialError Credentials

-- `Chain.Resolve`
unfoldable pub chain_resolve : List CredentialProvider → Text → Result CredentialError Credentials
chain_resolve [] host = err no_credentials
chain_resolve (p ∷ providers) host = elim (p.resolve host) [
  | ok creds ↦ ok creds
  | err no_credentials ↦ chain_resolve providers host
  | err (provider_failed inner message) ↦ err (provider_failed p.name message)
]

abbrev pub underscored : ℕ → ℕ
underscored c = if c == b'.' || (c == b'-' || c == b':') then b'_' else c

abbrev pub env_host_key : Text → Text
env_host_key host = to_upper (map underscored host)

-- The value of the host, or the one that stands for every host.
abbrev pub or_generic : (Text → Text) → Text → Text → Text
or_generic get host name =
    let own = get (codes "ASTINUS_REGISTRY_" ++ (env_host_key host ++ (codes "_" ++ name))) in
    if own == [] then get (codes "REGISTRY_" ++ name) else own

abbrev pub env_credentials : (Text → Text) → Text → Credentials
env_credentials get host = record {
  username = or_generic get host (codes "USERNAME");
  password = or_generic get host (codes "PASSWORD");
  token = or_generic get host (codes "TOKEN");
  identity_token = [];
}

unfoldable pub env_resolve : (Text → Text) → Text → Result CredentialError Credentials
unfolding to_upper
env_resolve get host =
    let creds = env_credentials get host in if is_empty creds then err no_credentials else ok creds

abbrev pub IsUsable : Credentials → Type 0
IsUsable c = is_empty c ≡ false

usable :
    (c : Credentials)
    → IfOk {E = CredentialError} IsUsable (if is_empty c then err no_credentials else ok c)
usable c = elim (Bool-cases (is_empty c)) [ inl empty ↦ rw (empty) tt | inr full ↦ rw (full) full ]

-- The environment never gives empty credentials.
pub env_resolve-IsUsable : (get : Text → Text) (host : Text) → IfOk IsUsable (env_resolve get host)
unfolding env_resolve
env_resolve-IsUsable get host = usable (env_credentials get host)

-- A chain gives no empty credentials where no provider of it does.
pub chain_resolve-IsUsable :
    (host : Text) (providers : List CredentialProvider)
    → All (λ p. IfOk IsUsable (p.resolve host)) providers
    → IfOk IsUsable (chain_resolve providers host)
unfolding chain_resolve
chain_resolve-IsUsable host [] h = tt
chain_resolve-IsUsable host (p ∷ providers) (h, hs) =
    by_answer (chain_resolve-IsUsable host providers hs) (p.resolve host) h
  where
    by_answer :
        IfOk IsUsable (chain_resolve providers host)
        → (r : Result CredentialError Credentials) → IfOk IsUsable r
        → IfOk IsUsable (elim r [
          | ok creds ↦ ok creds
          | err no_credentials ↦ chain_resolve providers host
          | err (provider_failed inner message) ↦ err (provider_failed p.name message)
        ])
    by_answer rest (ok creds) k = k
    by_answer rest (err no_credentials) k = rest
    by_answer rest (err (provider_failed inner message)) k = tt
