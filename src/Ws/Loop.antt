-- ===== src/Ws/Loop.antt =====
-- internal/gateway/ws_handle.go: the read loop of HandleWS, its end, and the saving goroutines.
use go_chat_x.Common.{
  ℕ, zero, suc, update, String, Option, none, some, List, [], ◌∷◌, if◌then◌else◌,
}
use mathlib.Core.List.{tail}
use go_chat_x.GoMap.{GoMap}
use go_chat_x.Go.{Go, pure, gets, modify, if_some, for_each, ◌>>=◌, ◌>>◌}
use go_chat_x.Message.{ChatMessage}
use go_chat_x.Protocol.{
  WsMsg, Frame, malformed, message, WsPayload, Kind, auth, join, leave, send, ping, unknown, kind,
}
use go_chat_x.Text.{itoa}
use go_chat_x.Hub.{
  Hub, Chan, Client, close_conn, close_chan, unregister_online, get_or_create_room, remove_client,
  remove_empty_room, room_contains,
}
use go_chat_x.Storage.Documents.{Collection}
use go_chat_x.Storage.{save_message}
use go_chat_x.World.{Server, set, del, World, Session, Env, no_session, on_hub, send_json, redis_do}
use go_chat_x.Ws.Auth.{online_key, last_seen_key, on_auth}
use go_chat_x.Ws.Chat.{
  not_authenticated, on_join, on_leave, on_send, on_private, on_history, on_ping,
}

-- Entry `i` of a list, and the others.
unfoldable pub pick {ℓ} : {A : Type ℓ} → ℕ → List A → Option (A × List A)
pick i [] = none
pick zero (x ∷ xs) = some (x, xs)
pick (suc i) (x ∷ xs) = elim (pick i xs) [ none ↦ none | some (y, rest) ↦ some (y, x ∷ rest) ]

-- The write goroutine takes the oldest payload from the channel.
unfoldable pub take_oldest : Chan → Chan
take_oldest c = record c { buf = tail c.buf }

unfoldable pub write_next : ℕ → Go Hub Unit
write_next k = modify (λ h. record h { chan = update h.chan k (take_oldest (h.chan k)) })

-- The rooms of the table that hold the user, in the order of the iteration.
unfoldable pub rooms_with : String → Hub → GoMap ℕ → List String
rooms_with user_id h [] = []
rooms_with user_id h ((id, p) ∷ m) =
    let rest = rooms_with user_id h m in if room_contains p user_id h then id ∷ rest else rest

unfoldable pub my_rooms : String → Go Hub (List String)
my_rooms user_id = gets (λ h. rooms_with user_id h h.rooms)

unfoldable pub leave_room : Client → String → Go Hub Unit
leave_room me rid = get_or_create_room rid >>= λ r. remove_client r me >> remove_empty_room rid

unfoldable pub leave_all : Client → Go Hub Unit
leave_all me =
    my_rooms me.user_id >>= λ ids. for_each ids (leave_room me) >> unregister_online me.user_id

module _ (C : Collection) (srv : Server) where
  open C use {State}

  module _ (env : Env) (k : ℕ) where
    -- `if me == nil { …; continue }` before the body of a case
    unfoldable pub with_user :
        Session
        → Go (World State) Unit
        → (Client → Go (World State) Unit)
        → Go (World State) Session
    with_user sess missing body = if_some sess.me body missing >> pure sess

    unfoldable pub dispatch : Kind → WsMsg → Session → Go (World State) Session
    dispatch auth m sess = on_auth C srv env k m.token sess
    dispatch join m sess =
        with_user sess (send_json k not_authenticated) (on_join C srv env k m.room_id)
    dispatch leave m sess = with_user sess (pure tt) (on_leave C srv env k m.room_id)
    dispatch send m sess =
        with_user sess (send_json k not_authenticated) (on_send C srv env k m.room_id m.content)
    dispatch Kind.private m sess =
        with_user sess (send_json k not_authenticated) (on_private C srv env k m.to m.content)
    dispatch Kind.history m sess =
        with_user sess (send_json k not_authenticated) (on_history C srv env k m.room_id m.limit)
    dispatch ping m sess = on_ping C srv env k sess
    dispatch unknown m sess = send_json k (WsPayload.error "未知类型") >> pure sess

    unfoldable pub on_frame : Frame → Session → Go (World State) Session
    on_frame malformed sess = send_json k (WsPayload.error "invalid message format") >> pure sess
    on_frame (message m) sess = dispatch (kind m.type) m sess

    -- `if me != nil { … }` after the loop
    unfoldable pub cleanup : Session → Go (World State) Unit
    cleanup sess =
        if_some sess.me
          (λ me.
            on_hub (leave_all me)
            >> redis_do srv (del (online_key me.user_id))
            >> redis_do srv (set (last_seen_key me.user_id) (itoa (env.clock 0)) 0))
          (pure tt)

  -- The frames are those that ReadMessage returns before its first error, each with what the world
  -- outside answers meanwhile.
  unfoldable pub read_loop : ℕ → List (Env × Frame) → Session → Go (World State) Session
  read_loop k [] sess = pure sess
  read_loop k ((env, f) ∷ rest) sess = on_frame env k f sess >>= λ sess'. read_loop k rest sess'

  -- The deferred calls, which a panic runs too.
  unfoldable pub deferred : ℕ → Go (World State) Unit
  deferred k = on_hub (close_chan k) >> on_hub (close_conn k)

  unfoldable pub finally : Go (World State) Unit → Go (World State) Unit → Go (World State) Unit
  finally body last w = let (r, w') = body w in (r, (last w').1)

  unfoldable pub handle_ws : ℕ → List (Env × Frame) → Env → Go (World State) Unit
  handle_ws k frames env =
      finally (read_loop k frames no_session >>= λ sess. cleanup env k sess) (deferred k)

  -- One of the goroutines that wait to save a message runs; its error is only logged.
  unfoldable pub save_picked :
      ℕ → Option (ChatMessage × List ChatMessage) → World State → World State
  save_picked now none w = w
  save_picked now (some (m, rest)) w = record w {
    store = (save_message C now m w.store).1;
    pending = rest;
  }

  unfoldable pub run_save : ℕ → ℕ → World State → World State
  run_save now i w = save_picked now (pick i w.pending) w
