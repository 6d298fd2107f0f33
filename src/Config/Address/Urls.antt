-- ===== src/Config/Address/Urls.antt =====
-- The two URLs of global/settings.go belong together, and what becomes of the host that main.go listens
-- on.
use Prim.Native.String.{◌++◌}
use text.Mathlib.TextLemmas.{append_assoc}
use croissant.Base.{
  true, false, ◌&&◌, String, ◌==◌, string_eq, if◌then◌else◌, ◌≡◌, refl, Bool-cases, inl, inr,
}
use croissant.Config.Address.{
  Env, drop, any_host, set_host, relay_base_url, relay_ws_url, run_addresses,
}

domain-set_host : (env : Env) → (set_host env).domain ≡ env.domain
unfolding set_host
domain-set_host env = elim (Bool-cases (any_host env.host)) [
  | inl e ↦ rw e refl
  | inr e ↦ rw e refl
]

port-set_host : (env : Env) → (set_host env).port ≡ env.port
unfolding set_host
port-set_host env = elim (Bool-cases (any_host env.host)) [ inl e ↦ rw e refl | inr e ↦ rw e refl ]

host-set_host :
    (env : Env) → (set_host env).host ≡ (if any_host env.host then "localE.Host" else env.host)
unfolding set_host
host-set_host env = elim (Bool-cases (any_host env.host)) [ inl e ↦ rw e refl | inr e ↦ rw e refl ]

set_host-set_host : (env : Env) → set_host (set_host env) ≡ set_host env
unfolding set_host
set_host-set_host env = elim (Bool-cases (any_host env.host)) [
  | inl e ↦ rw e refl
  | inr e ↦ rw (e, e) refl
]

module _ (join_host_port : String → String → String) where
  base_of_domain :
      (env : Env)
      → (env.domain == "") ≡ false
      → relay_base_url join_host_port env ≡ (env, "https://" ++ env.domain)
  unfolding relay_base_url
  base_of_domain env h = rw h refl

  ws_of_domain :
      (env : Env)
      → (env.domain == "") ≡ false
      → relay_ws_url join_host_port env ≡ (env, "wss://" ++ env.domain)
  unfolding relay_ws_url drop
  ws_of_domain env h = rw h refl

  abbrev host_port : Env → String
  host_port env = join_host_port env.host env.port

  base_of_host :
      (env : Env)
      → (env.domain == "") ≡ true
      → relay_base_url join_host_port env ≡ (set_host env, "http://" ++ host_port (set_host env))
  unfolding relay_base_url
  base_of_host env h = rw h refl

  ws_of_host :
      (env : Env)
      → (env.domain == "") ≡ true
      → relay_ws_url join_host_port env ≡ (set_host env, "ws://" ++ host_port (set_host env))
  unfolding relay_ws_url
  ws_of_host env h = rw h refl

  no_domain_still : (env : Env) → (env.domain == "") ≡ true → ((set_host env).domain == "") ≡ true
  no_domain_still env h = rw (domain-set_host env) h

  run_of_domain :
      (env : Env)
      → (env.domain == "") ≡ false
      → run_addresses join_host_port env
        ≡ (env, ("https://" ++ env.domain, "wss://" ++ env.domain), host_port env)
  unfolding run_addresses
  run_of_domain env h = rw (base_of_domain env h, ws_of_domain env h) refl

  run_of_host :
      (env : Env)
      → (env.domain == "") ≡ true
      → run_addresses join_host_port env ≡ (
        set_host env,
        ("http://" ++ host_port (set_host env), "ws://" ++ host_port (set_host env)),
        host_port (set_host env),
      )
  unfolding run_addresses
  run_of_host env h =
      rw
        (
          base_of_host env h,
          ws_of_host (set_host env) (no_domain_still env h),
          set_host-set_host env,
        )
        refl

  -- The two URLs that run makes differ only in "http" and "ws", and the address it listens on is made of
  -- the port and the host as configured. But where no domain is configured and the host is 0.0.0.0 or ::,
  -- the host it listens on is "localE.Host".
  pub run_addresses_lem :
      (env : Env)
      → let (env', (base, ws), address) = run_addresses join_host_port env in
        ((rest : String) × (base ≡ "http" ++ rest) × (ws ≡ "ws" ++ rest))
        × (address
            ≡ join_host_port
                (if env.domain == "" && any_host env.host then "localE.Host" else env.host)
                env.port)
  run_addresses_lem env = elim (Bool-cases (env.domain == "")) [
    | inr domain ↦
        rw (run_of_domain env domain, domain)
          (
            (
              "s://" ++ env.domain,
              append_assoc "http" "s://" env.domain,
              append_assoc "ws" "s://" env.domain,
            ),
            refl,
          )
    | inl no_domain ↦
        rw (run_of_host env no_domain, no_domain)
          (
            (
              "://" ++ host_port (set_host env),
              append_assoc "http" "://" (host_port (set_host env)),
              append_assoc "ws" "://" (host_port (set_host env)),
            ),
            rw (host-set_host env, port-set_host env) refl,
          )
  ]
