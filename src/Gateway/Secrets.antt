-- ===== src/Gateway/Secrets.antt =====
-- The two processes started with the same environment.
use go_chat_x.Common.{
  String, ◌≡◌, refl, sym, ap, ◌∙◌, Bool, true, false, ◌==◌, arith, Bool-cases, inl, inr,
}
use go_chat_x.Auth.Start.{
  AuthDials, AuthStart, exited, serving, or_exit, init_db, migrate, init_redis, get_env_or_default,
  start_auth,
}
use go_chat_x.Gateway.Boot.{Settings, Dials, jwt_secret_of, start_gateway}

is_serving : AuthStart → Bool
is_serving (exited message) = false
is_serving (serving dsn redis_addr listen_addr jwt_secret) = true

secret_of : AuthStart → String
secret_of (exited message) = ""
secret_of (serving dsn redis_addr listen_addr jwt_secret) = jwt_secret

-- What a start that has not exited has got through.
or_exit-serving :
    (ok : Bool) (message : String) (rest : AuthStart)
    → is_serving (or_exit ok message rest) ≡ true
    → (ok ≡ true) × (or_exit ok message rest ≡ rest)
unfolding or_exit is_serving
or_exit-serving true message rest e = (refl, refl)
or_exit-serving false message rest e = absurd (ground (arith, e))

or_exit-secret :
    (ok : Bool) (message : String) (rest : AuthStart) (a b c d : String)
    → or_exit ok message rest ≡ serving a b c d
    → (ok ≡ true) × (rest ≡ serving a b c d)
unfolding is_serving
or_exit-secret ok message rest a b c d e =
    let (passes, same) = or_exit-serving ok message rest (ap is_serving e) in (passes, sym same ∙ e)

-- The auth service serves only if DB_DSN and JWT_SECRET are set and MySQL, Redis and the address
-- answer; and then a gateway with the same JWT_SECRET checks tokens with the secret that signs
-- them, so that it does not fall back on its own.
pub start_auth-serving :
    (env : String → String) (a : AuthDials) (dsn redis listen secret : String) (settings : Settings)
    (db_dsn : String) (d : Dials)
    → start_auth env a ≡ serving dsn redis listen secret
    → ((env "DB_DSN" == "") ≡ false)
      × ((env "JWT_SECRET" == "") ≡ false)
      × (a.db_opens ≡ true)
      × (a.db_pings ≡ true)
      × (a.db_migrates ≡ true)
      × (a.redis_pings ≡ true)
      × (a.listens ≡ true)
      × ((start_gateway settings db_dsn (env "JWT_SECRET") d).secret ≡ secret)
unfolding start_auth init_db migrate init_redis is_serving secret_of
start_auth-serving env a dsn redis listen secret settings db_dsn d e =
    elim (Bool-cases (env "DB_DSN" == "")) [
      | inl unset ↦ absurd (ground (arith, ap is_serving (rw unset at e)))
      | inr set ↦ elim (Bool-cases (env "JWT_SECRET" == "")) [
        | inl unset ↦ absurd (ground (arith, ap is_serving (rw (set, unset) at e)))
        | inr given ↦
            let (opens, e1) = or_exit-secret _ _ _ _ _ _ _ (rw (set, given) at e) in
            let (pings, e2) = or_exit-secret _ _ _ _ _ _ _ e1 in
            let (migrates, e3) = or_exit-secret _ _ _ _ _ _ _ e2 in
            let (redis_answers, e4) = or_exit-secret _ _ _ _ _ _ _ e3 in
            let (listens, e5) = or_exit-secret _ _ _ _ _ _ _ e4 in
            (
              set,
              given,
              opens,
              pings,
              migrates,
              redis_answers,
              listens,
              unfold start_gateway jwt_secret_of in (rw given (ap secret_of e5)),
            )
      ]
    ]

-- With both variables set and everything answering, the auth service serves, at the addresses that
-- the environment gives or at its defaults.
pub start_auth-serves :
    (env : String → String) (a : AuthDials)
    → (env "DB_DSN" == "") ≡ false
    → (env "JWT_SECRET" == "") ≡ false
    → a.db_opens ≡ true
    → a.db_pings ≡ true
    → a.db_migrates ≡ true
    → a.redis_pings ≡ true
    → a.listens ≡ true
    → start_auth env a
      ≡ serving
          (env "DB_DSN")
          (get_env_or_default env "REDIS_ADDR" "127.0.0.1:6379")
          (get_env_or_default env "LISTEN_ADDR" ":50051")
          (env "JWT_SECRET")
unfolding start_auth init_db migrate init_redis or_exit
start_auth-serves env a set given opens pings migrates answers listens =
    rw (set, given, opens, pings, migrates, answers, listens) refl
