-- ===== src/Ws/Holds.antt =====
-- Every case of the read loop, and what follows the loop, keeps a property of the maps and channels
-- that each function on them keeps.
use go_chat_x.Common.{ℕ, String, List, [], ◌∷◌}
use go_chat_x.Go.{Go}
use go_chat_x.Go.Keeps.{Keeps, Keeps-modify, Keeps-when, keeps_rules}
use go_chat_x.Message.{ChatMessage}
use go_chat_x.Protocol.{ℤ, WsMsg, Frame, malformed, message, WsPayload, Kind, auth}
use go_chat_x.Hub.{Hub, Client}
use go_chat_x.Hub.Rules.{QuietRules, HubRules, try_send-Keeps, quiet_rules, hub_rules}
use go_chat_x.Storage.Documents.{Collection}
use go_chat_x.World.{
  Server, RedisCommand, World, Session, Env, on_hub, send_json, redis_do, spawn_save,
}
use go_chat_x.Ws.Auth.{
  pull_undelivered, push_all, push_undelivered, log_in, refuse, refuse_and_close, auth_dev, admit,
  auth_service, on_auth,
}
use go_chat_x.Ws.Chat.{load_history, on_join, on_leave, on_send, on_private, on_history, on_ping}
use go_chat_x.Ws.Loop.{
  my_rooms, leave_room, leave_all, with_user, dispatch, on_frame, cleanup, deferred,
}

-- A property of the maps and channels, of a world.
pub record OnHub {S : Type 0} (P : Hub → Type 0) (w : World S) : Type 0 where
  pub hub_holds : P w.hub

module _ {P : Hub → Type 0} {S : Type 0} where
  pub on_hub-OnHub : {A : Type 0} (m : Go Hub A) → Keeps P m → Keeps (OnHub {S = S} P) (on_hub m)
  unfolding on_hub
  on_hub-OnHub m km = record { at = λ w v. record { hub_holds = km.at w.hub v.hub_holds } }

  pub redis_do-OnHub : (srv : Server) (c : RedisCommand) → Keeps (OnHub {S = S} P) (redis_do srv c)
  unfolding redis_do
  redis_do-OnHub srv c = Keeps-when _ _ (Keeps-modify _ (λ w v. record { hub_holds = v.hub_holds }))

  pub spawn_save-OnHub :
      (srv : Server) (m : ChatMessage) → Keeps (OnHub {S = S} P) (spawn_save srv m)
  unfolding spawn_save
  spawn_save-OnHub srv m =
      Keeps-when _ _ (Keeps-modify _ (λ w v. record { hub_holds = v.hub_holds }))

module _ {P : Hub → Type 0} (quiet : QuietRules P) where
  module _ {S : Type 0} where
    pub send_json-OnHub : (k : ℕ) (b : WsPayload) → Keeps (OnHub {S = S} P) (send_json k b)
    unfolding send_json
    send_json-OnHub k b = on_hub-OnHub _ (try_send-Keeps quiet k b)

  ruleset still_rules =
      (quiet_rules, on_hub-OnHub, redis_do-OnHub, spawn_save-OnHub, send_json-OnHub)

  module _ (C : Collection) (srv : Server) where
    open C use {State}

    pub pull-OnHub : (u : String) → Keeps (OnHub P) (pull_undelivered C srv u)
    unfolding pull_undelivered
    pull-OnHub u = record { at = λ w v. record { hub_holds = v.hub_holds } }

    pub load_history-OnHub : (r : String) (n : ℕ) → Keeps (OnHub P) (load_history C srv r n)
    unfolding load_history
    load_history-OnHub r n = record { at = λ w v. v }

    pub push_all-OnHub :
        (u : String) (ms : List ChatMessage) → Keeps (OnHub P) (push_all C srv u ms)
    unfolding push_all
    push_all-OnHub u [] = search still_rules
    push_all-OnHub u (m ∷ ms) = search still_rules depth 9

    pub push_undelivered-OnHub : (u : String) → Keeps (OnHub P) (push_undelivered C srv u)
    unfolding push_undelivered
    push_undelivered-OnHub u = search (still_rules, pull-OnHub, push_all-OnHub) depth 9

    module _ (env : Env) (k : ℕ) where
      pub refuse-OnHub :
          (reason : String) (sess : Session) → Keeps (OnHub P) (refuse C srv env k reason sess)
      unfolding refuse
      refuse-OnHub reason sess = search still_rules

      pub refuse_and_close-OnHub :
          (reason : String) (sess : Session)
          → Keeps (OnHub P) (refuse_and_close C srv env k reason sess)
      unfolding refuse_and_close
      refuse_and_close-OnHub reason sess = search still_rules depth 9

      pub on_send-OnHub :
          (room content : String) (me : Client)
          → Keeps (OnHub P) (on_send C srv env k room content me)
      unfolding on_send
      on_send-OnHub room content me = search still_rules depth 12

      pub on_private-OnHub :
          (to content : String) (me : Client)
          → Keeps (OnHub P) (on_private C srv env k to content me)
      unfolding on_private
      on_private-OnHub to content me = search still_rules depth 12

      pub on_history-OnHub :
          (room : String) (limit : ℤ) (me : Client)
          → Keeps (OnHub P) (on_history C srv env k room limit me)
      unfolding on_history
      on_history-OnHub room limit me = search (still_rules, load_history-OnHub) depth 12

      pub on_ping-OnHub : (sess : Session) → Keeps (OnHub P) (on_ping C srv env k sess)
      unfolding on_ping
      on_ping-OnHub sess = search still_rules depth 12

    pub deferred-OnHub : (k : ℕ) → Keeps (OnHub P) (deferred C srv k)
    unfolding deferred
    deferred-OnHub k = search still_rules

module _ {P : Hub → Type 0} (rules : HubRules P) where
  pub leave_room-Keeps : (me : Client) (id : String) → Keeps P (leave_room me id)
  unfolding leave_room
  leave_room-Keeps me id = search hub_rules depth 9

  pub leave_all-Keeps : (me : Client) → Keeps P (leave_all me)
  unfolding leave_all my_rooms leave_room
  leave_all-Keeps me = search hub_rules depth 12

  ruleset world_rules = (hub_rules, on_hub-OnHub, redis_do-OnHub, spawn_save-OnHub, send_json-OnHub)

  module _ (C : Collection) (srv : Server) where
    open C use {State}

    module _ (env : Env) (k : ℕ) where
      log_in-OnHub :
          (ttl : ℕ) (u : String) (sess : Session) → Keeps (OnHub P) (log_in C srv env k ttl u sess)
      unfolding log_in
      log_in-OnHub ttl u sess = search (world_rules, push_undelivered-OnHub) depth 14

      ruleset auth_rules = (world_rules, log_in-OnHub, refuse-OnHub, refuse_and_close-OnHub)

      on_auth-OnHub :
          (token : String) (sess : Session) → Keeps (OnHub P) (on_auth C srv env k token sess)
      unfolding on_auth auth_dev auth_service admit
      on_auth-OnHub token sess = search auth_rules depth 12

      with_user-OnHub :
          (sess : Session) (missing : Go (World State) Unit) (body : Client → Go (World State) Unit)
          → Keeps (OnHub P) missing
          → ((me : Client) → Keeps (OnHub P) (body me))
          → Keeps (OnHub P) (with_user C srv env k sess missing body)
      unfolding with_user
      with_user-OnHub sess missing body km kb = search keeps_rules

      on_join-OnHub : (room : String) (me : Client) → Keeps (OnHub P) (on_join C srv env k room me)
      unfolding on_join
      on_join-OnHub room me = search (world_rules, load_history-OnHub) depth 12

      on_leave-OnHub :
          (room : String) (me : Client) → Keeps (OnHub P) (on_leave C srv env k room me)
      unfolding on_leave
      on_leave-OnHub room me = search world_rules depth 12

      ruleset case_rules = (
        world_rules, with_user-OnHub, on_auth-OnHub, on_join-OnHub, on_leave-OnHub, on_send-OnHub,
        on_private-OnHub, on_history-OnHub, on_ping-OnHub,
      )

      dispatch-OnHub :
          (c : Kind) (m : WsMsg) (sess : Session) → Keeps (OnHub P) (dispatch C srv env k c m sess)
      unfolding dispatch
      dispatch-OnHub auth m sess = search case_rules
      dispatch-OnHub _ m sess = search case_rules

      pub on_frame-OnHub :
          (f : Frame) (sess : Session) → Keeps (OnHub P) (on_frame C srv env k f sess)
      unfolding on_frame
      on_frame-OnHub malformed sess = search world_rules
      on_frame-OnHub (message m) sess = dispatch-OnHub _ m sess

      pub cleanup-OnHub : (sess : Session) → Keeps (OnHub P) (cleanup C srv env k sess)
      unfolding cleanup
      cleanup-OnHub sess = search (world_rules, leave_all-Keeps) depth 12
