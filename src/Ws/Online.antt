-- ===== src/Ws/Online.antt =====
-- What "private" does for a user who is online.
use go_chat_x.Common.{ℕ, String, ◌≡◌, refl, ap, ◌∙◌, true, false, some, [], ◌∷◌, ◌++◌}
use go_chat_x.GoMap.{lookup}
use go_chat_x.Go.{Go, done, modify, gets, bind_done, bind_then, when-true, if_some-some}
use go_chat_x.Protocol.{WsPayload}
use go_chat_x.Hub.{Client, get_online_client}
use go_chat_x.Hub.Lemmas.{sent, sent-closed}
use go_chat_x.Storage.Documents.{Collection}
use go_chat_x.World.{Server, World, Env, on_hub, send_json, spawn_save}
use go_chat_x.Ws.Chat.{private_message, on_private}
use go_chat_x.Ws.Gate.{send_json_open}

module _ (C : Collection) (srv : Server) where
  open C use {State}

  -- With MongoDB, a private message to a user whose connection has an open channel is offered to
  -- that channel, handed to a goroutine that saves it as delivered, and acknowledged.
  pub on_private-online :
      (env : Env) (k : ℕ) (to content : String) (sender target : Client) (w : World State)
      → srv.has_mongo ≡ true
      → lookup to w.hub.online ≡ some target
      → (w.hub.chan target.conn).closed ≡ false
      → (w.hub.chan k).closed ≡ false
      → on_private C srv env k to content sender w ≡ (
        done tt,
        record w {
          hub =
              sent k (WsPayload.ack to) (
                sent target.conn (WsPayload.private sender.user_id to (env.clock 0) content) w.hub);
          pending = w.pending ++ private_message env sender to content true ∷ [];
        },
      )
  unfolding on_private spawn_save modify on_hub get_online_client gets send_json
  on_private-online env k to content sender target w mongo there is_open mine =
      let b = WsPayload.private sender.user_id to (env.clock 0) content in
      bind_then _ _
        (bind_done (on_hub (get_online_client to)) _ w w (lookup to w.hub.online) refl
          ∙ ap (λ (m : Go (World State) Unit). m w) (if_some-some _ _ _ target there)
          ∙ bind_then (send_json target.conn b) _ (send_json_open target.conn b w is_open) (
              ap (λ (m : Go (World State) Unit). m (record w { hub = sent target.conn b w.hub }))
                (when-true srv.has_mongo _ mongo)))
        (send_json_open k (WsPayload.ack to) _ (sent-closed target.conn k b w.hub ∙ mine))
