-- ===== src/Auth/Tests.antt =====
-- An environment with a token for every host and a user for one.
use astinus.Base.{◌≡◌, refl, Text, codes, text_eq, nat_eq, ◌==◌, if◌then◌else◌, ok, []}
use astinus.Auth.{env_resolve}

abbrev mixed : Text → Text
mixed name =
    if name == codes "ASTINUS_REGISTRY_GHCR_IO_USERNAME"
    then codes "me"
    else if name == codes "ASTINUS_REGISTRY_GHCR_IO_PASSWORD"
    then codes "pw"
    else if name == codes "REGISTRY_TOKEN"
    then codes "any"
    else []

-- The token for every host joins the user and the password of the host.
env_resolve_example :
    env_resolve mixed (codes "ghcr.io")
    ≡ ok (record {
      username = codes "me";
      password = codes "pw";
      token = codes "any";
      identity_token = [];
    })
unfolding env_resolve
env_resolve_example = refl
