-- ===== src/Ws/Acts/Turn.antt =====
-- Each case of the read loop, and the cleanup, change who is online and who is in which room as the
-- frame means it.
use go_chat_x.Common.{ℕ, suc, String, ap, ◌∙◌, Option, none, some, ltb, ◌==◌, ◌&&◌}
use go_chat_x.Go.{Go, modify, if_some}
use go_chat_x.Go.Keeps.{Keeps}
use go_chat_x.Go.Turns.{Turns, Turns-keeps, Turns-then, Turns-if}
use go_chat_x.Hub.{Hub, Client, register_online}
use go_chat_x.Hub.Rules.{quiet_rules}
use go_chat_x.Hub.Sound.{IsSound-HubRules}
use go_chat_x.Hub.View.{Chat, sign_in, view-online}
use go_chat_x.Storage.Documents.{Collection}
use go_chat_x.World.{Server, World, Session, Env, on_hub}
use go_chat_x.Ws.Auth.{
  max_auth_attempts, accepted, has_role, refuse, is_banned, log_in, auth_dev, auth_service, admit,
  on_auth,
}
use go_chat_x.Ws.Holds.{
  OnHub, on_hub-OnHub, redis_do-OnHub, send_json-OnHub, load_history-OnHub, push_undelivered-OnHub,
  refuse-OnHub, refuse_and_close-OnHub, on_send-OnHub, on_private-OnHub, on_history-OnHub,
  on_ping-OnHub,
}
use go_chat_x.Ws.Shows.{Shows, Shows-QuietRules}
use go_chat_x.Ws.Acts.{unless_banned, service_user, dev_user, signs_in, signed_in}

-- A world that shows `c`.
abbrev pub Showing : {S : Type 0} → Chat → World S → Type 0
Showing c = OnHub (Shows c)

pub ruleset calm_rules = (
  quiet_rules, Shows-QuietRules, on_hub-OnHub, redis_do-OnHub, send_json-OnHub, load_history-OnHub,
  push_undelivered-OnHub, refuse-OnHub, refuse_and_close-OnHub,
)

module _ {S : Type 0} where
  pub on_hub-Turns :
      {A : Type 0} (P Q : Hub → Type 0) (m : Go Hub A)
      → Turns P Q m
      → Turns (OnHub {S = S} P) (OnHub {S = S} Q) (on_hub m)
  unfolding on_hub
  on_hub-Turns P Q m t = record { turns = λ w v. record { hub_holds = t.turns w.hub v.hub_holds } }

module _ {S : Type 0} (c : Chat) where
  register-Turns :
      (u : String) (k : ℕ)
      → Turns
          (Showing {S = S} c)
          (Showing {S = S} (sign_in u k c))
          (on_hub (register_online u (record { user_id = u; conn = k })))
  unfolding register_online modify
  register-Turns u k =
      let me : Client = record { user_id = u; conn = k } in
      on_hub-Turns _ _ _ (record {
        turns = λ h v. record {
          sound = (IsSound-HubRules.registers me).at h v.sound;
          seen = view-online u me h ∙ ap (sign_in u k) v.seen;
        };
      })

module _ (C : Collection) (srv : Server) (env : Env) (k : ℕ) (c : Chat) where
  open C use {State}

  log_in-Turns :
      (ttl : ℕ) (u : String) (sess : Session)
      → Turns (Showing c) (Showing (sign_in u k c)) (log_in C srv env k ttl u sess)
  unfolding log_in
  log_in-Turns ttl u sess = search (Turns-then, register-Turns, calm_rules) depth 14

  -- The state after a log-in as the user, if there is one.
  abbrev Signed : Option String → World State → Type 0
  Signed o = Showing (signed_in k o c)

  nobody-Turns :
      (m : Go (World State) Session) → Keeps (Showing c) m → Turns (Showing c) (Signed none) m
  unfolding signed_in
  nobody-Turns m kept = Turns-keeps m kept

  login-Turns :
      (ttl : ℕ) (u : String) (sess : Session)
      → Turns (Showing c) (Signed (some u)) (log_in C srv env k ttl u sess)
  unfolding signed_in
  login-Turns ttl u sess = log_in-Turns ttl u sess

  ruleset turn_rules = (nobody-Turns, login-Turns, calm_rules)

  answer-Turns :
      (o : Option String) (sess : Session)
      → Turns
          (Showing c)
          (Signed (unless_banned srv env o))
          (if_some o (admit C srv env k sess) (refuse C srv env k "auth failed" sess))
  unfolding admit is_banned unless_banned if_some
  answer-Turns none sess = search turn_rules
  answer-Turns (some u) sess =
      Turns-if Signed (srv.has_db && has_role "banned" (env.role_of u)) none (some u) _ _
        (search turn_rules) (search turn_rules)

  pub on_auth-Turns :
      (token : String) (sess : Session)
      → Turns (Showing c) (Signed (signs_in srv env token sess)) (on_auth C srv env k token sess)
  unfolding on_auth auth_dev auth_service signs_in service_user dev_user
  on_auth-Turns token sess =
      Turns-if Signed srv.has_auth _ _ _ _
        (Turns-if Signed (ltb max_auth_attempts (suc sess.auth_attempts)) _ _ _ _
          (search turn_rules) (answer-Turns (accepted (env.validate token)) _))
        (Turns-if Signed (token == "") _ _ _ _ (search turn_rules) (search turn_rules))
