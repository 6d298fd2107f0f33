-- ===== src/Config/Address.antt =====
-- The addresses that global/settings.go makes of the environment, and main.go's use of them. The URLs
-- are made by functions that write the variable E.Host. Parameter: net.JoinHostPort.
pub mod Urls
use Prim.Native.String.{[], ◌∷◌, ◌++◌}
use croissant.Base.{
  ℕ, zero, suc, Bool, true, false, ◌||◌, ◌&&◌, not, String, ◌==◌, string_eq, if◌then◌else◌,
}

-- global.E, the fields that addresses need.
pub record Env : Type 0 where
  pub port : String
  pub host : String
  pub domain : String

abbrev pub http_scheme : Env → String
http_scheme env = if env.domain == "" then "http://" else "https://"

-- s[n:]
unfoldable pub drop : ℕ → String → String
drop zero s = s
drop (suc n) [] = []
drop (suc n) (c ∷ s) = drop n s

abbrev pub ws_scheme : Env → String
ws_scheme env = "ws" ++ drop 4 (http_scheme env)

abbrev pub any_host : String → Bool
any_host host = host == "0.0.0.0" || host == "::"

-- E.Host = "localE.Host"
unfoldable pub set_host : Env → Env
set_host env = if any_host env.host then record env { host = "localE.Host" } else env

module _ (join_host_port : String → String → String) where
  unfoldable pub relay_base_url : Env → Env × String
  unfolding set_host
  relay_base_url env =
      if not (env.domain == "")
      then (env, http_scheme env ++ env.domain)
      else (set_host env, "http://" ++ join_host_port (set_host env).host (set_host env).port)

  unfoldable pub relay_ws_url : Env → Env × String
  unfolding set_host drop
  relay_ws_url env =
      if not (env.domain == "")
      then (env, ws_scheme env ++ env.domain)
      else (set_host env, "ws://" ++ join_host_port (set_host env).host (set_host env).port)

  -- What run hands to net.Listen, after both URLs: the environment, the URLs and the address.
  unfoldable pub run_addresses : Env → Env × (String × String) × String
  unfolding relay_base_url relay_ws_url
  run_addresses env =
      let (env', base) = relay_base_url env in
      let (env'', ws) = relay_ws_url env' in
      (env'', (base, ws), join_host_port env''.host env''.port)
