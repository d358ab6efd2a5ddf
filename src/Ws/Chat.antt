-- ===== src/Ws/Chat.antt =====
-- internal/gateway/ws_handle.go: the cases that need a user, and "ping".
use Prim.Native.String.{◌++◌}
use go_chat_x.Common.{ℕ, String, Bool, true, false, Option, none, some, List, [], if◌then◌else◌}
use go_chat_x.Go.{Go, done, pure, if_some, ◌>>=◌, ◌>>◌}
use go_chat_x.Message.{ChatMessage}
use go_chat_x.Protocol.{ℤ, WsPayload, history_limit}
use go_chat_x.Text.{itoa, four_digits}
use go_chat_x.Hub.{
  Client, try_send, get_online_client, get_or_create_room, add_client, remove_client,
  remove_empty_room, broadcast,
}
use go_chat_x.Storage.Documents.{Collection}
use go_chat_x.Storage.{query_history}
use go_chat_x.World.{Server, set, World, Session, Env, on_hub, send_json, redis_do, spawn_save}
use go_chat_x.Ws.Auth.{last_seen_key}

abbrev pub not_authenticated : WsPayload
not_authenticated = WsPayload.error "未认证"

-- The messages of a query that failed are none.
unfoldable pub found_or_empty : Option (List ChatMessage) → List ChatMessage
found_or_empty none = []
found_or_empty (some ms) = ms

unfoldable pub room_message : Env → Client → String → String → ChatMessage
room_message env me room content = record {
  id = itoa (env.clock 1) ++ ("_" ++ (me.user_id ++ ("_" ++ four_digits env.random)));
  from = me.user_id;
  to = "";
  room_id = room;
  content = content;
  timestamp = env.clock 2;
  delivered = true;
}

unfoldable pub private_message : Env → Client → String → String → Bool → ChatMessage
private_message env me to content delivered = record {
  id =
      itoa (env.clock 1)
      ++ ("_" ++ (me.user_id ++ ("_" ++ (to ++ ("_" ++ four_digits env.random)))));
  from = me.user_id;
  to = to;
  room_id = "";
  content = content;
  timestamp = env.clock 2;
  delivered = delivered;
}

module _ (C : Collection) (srv : Server) where
  open C use {State}

  unfoldable pub load_history : String → ℕ → Go (World State) (List ChatMessage)
  load_history room limit w =
      (done (if srv.has_mongo then found_or_empty (query_history C room limit w.store) else []), w)

  module _ (env : Env) (k : ℕ) where
    unfoldable pub on_join : String → Client → Go (World State) Unit
    on_join room me = on_hub (get_or_create_room room) >>= λ r.
        on_hub (add_client r me)
        >> (load_history room 50 >>= λ his. send_json k (WsPayload.joined room his))

    unfoldable pub on_leave : String → Client → Go (World State) Unit
    on_leave room me = on_hub (get_or_create_room room) >>= λ r.
        on_hub (remove_client r me)
        >> on_hub (remove_empty_room room)
        >> send_json k (WsPayload.left room)

    unfoldable pub on_send : String → String → Client → Go (World State) Unit
    on_send room content me = on_hub (get_or_create_room room) >>= λ r.
        on_hub (broadcast r (WsPayload.chat me.user_id room (env.clock 0) content))
        >> spawn_save srv (room_message env me room content)

    unfoldable pub on_private : String → String → Client → Go (World State) Unit
    on_private to content me =
        (on_hub (get_online_client to) >>= λ o.
        if_some o
          (λ target.
            on_hub (try_send target.conn (WsPayload.private me.user_id to (env.clock 0) content))
            >> spawn_save srv (private_message env me to content true))
          (spawn_save srv (private_message env me to content false)))
        >> send_json k (WsPayload.ack to)

    unfoldable pub on_history : String → ℤ → Client → Go (World State) Unit
    on_history room limit me =
        load_history room (history_limit limit) >>= λ his. send_json k (WsPayload.history his)

    unfoldable pub touch : Session → Session
    touch sess = record sess { last_seen = env.clock 1 }

    unfoldable pub on_ping : Session → Go (World State) Session
    on_ping sess =
        send_json k (WsPayload.pong (env.clock 0))
        >> if_some sess.me
            (λ me.
              redis_do srv (set (last_seen_key me.user_id) (itoa (touch sess).last_seen) 0)
              >> pure (touch sess))
            (pure sess)
