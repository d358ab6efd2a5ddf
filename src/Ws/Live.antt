-- ===== src/Ws/Live.antt =====
-- No case of the read loop panics while the maps hold only clients whose channels are open; and
-- which clients the maps can hold afterwards.
use go_chat_x.Common.{ℕ, String, ◌≡◌, refl, some, List, [], ◌∷◌}
use go_chat_x.Go.{Go, for_each, ◌>>◌}
use go_chat_x.Go.Ends.{
  Ends, Ends-pure, Ends-weaken, Ends-bind, Ends-if_some, Ends-modify, Ends-when,
}
use go_chat_x.Message.{ChatMessage}
use go_chat_x.Protocol.{ℤ, WsPayload}
use go_chat_x.Hub.{Hub, Client, try_send}
use go_chat_x.Hub.Live.{
  IsLive, try_send_self-Ends, try_send-Ends, add_client-Ends, remove_client-Ends,
  remove_empty_room-Ends, get_online_client-Ends,
}
use go_chat_x.Hub.LiveRooms.{InTable, get_or_create_room-Ends, broadcast-Ends}
use go_chat_x.Storage.Documents.{Collection}
use go_chat_x.World.{Server, RedisCommand, World, Env, on_hub, send_json, redis_do, spawn_save}
use go_chat_x.Ws.Auth.{pull_undelivered, push_all, push_undelivered}
use go_chat_x.Ws.Chat.{load_history, on_join, on_leave, on_send, on_private, on_history}

module _ {S : Type 0} where
  -- What holds of a world's hub.
  abbrev pub At : (Hub → Type 0) → World S → Type 0
  At P w = P w.hub

  pub on_hub-Ends :
      {A : Type 0} {P : Hub → Type 0} {Q : A → Hub → Type 0} (m : Go Hub A)
      → Ends P m Q
      → Ends (At P) (on_hub m) (λ a. At (Q a))
  unfolding on_hub
  on_hub-Ends m e = record { at = λ w p. e.at w.hub p }

  module _ (P : Hub → Type 0) where
    pub next :
        {A : Type 0} {Q : A → World S → Type 0} (m : Go (World S) Unit) (n : Go (World S) A)
        → Ends (At P) m (λ _. At P)
        → Ends (At P) n Q
        → Ends (At P) (m >> n) Q
    next m n em en = Ends-bind (λ _. At P) m (λ _. n) em (λ _. en)

    pub redis_do-Ends : (srv : Server) (c : RedisCommand) → Ends (At P) (redis_do srv c) (λ _. At P)
    unfolding redis_do
    redis_do-Ends srv c = Ends-when _ _ (Ends-modify (λ _. At P) _ (λ w p. p))

    spawn_save-Ends : (srv : Server) (m : ChatMessage) → Ends (At P) (spawn_save srv m) (λ _. At P)
    unfolding spawn_save
    spawn_save-Ends srv m = Ends-when _ _ (Ends-modify (λ _. At P) _ (λ w p. p))

module _ (C : Collection) (srv : Server) (L : Client → Type 0) (k : ℕ) (O : ℕ → Type 0)
    (self_open : O k) where
  open C use {State}

  abbrev pub LiveAt : World State → Type 0
  LiveAt = At (IsLive L O)

  pub send_json-Ends : (b : WsPayload) → Ends LiveAt (send_json k b) (λ _. LiveAt)
  unfolding send_json
  send_json-Ends b = on_hub-Ends _ (try_send_self-Ends L O k b self_open)

  pull-Ends : (u : String) → Ends LiveAt (pull_undelivered C srv u) (λ _. LiveAt)
  unfolding pull_undelivered
  pull-Ends u = record { at = λ w v. (_, refl, v) }

  load_history-Ends : (r : String) (n : ℕ) → Ends LiveAt (load_history C srv r n) (λ _. LiveAt)
  unfolding load_history
  load_history-Ends r n = record { at = λ w v. (_, refl, v) }

  -- Each payload goes to the same client.
  send_each-Ends :
      {A : Type 0} (xs : List A) (f : A → WsPayload) (c : Client)
      → L c
      → Ends LiveAt (for_each xs (λ x. on_hub (try_send c.conn (f x)))) (λ _. LiveAt)
  unfolding for_each
  send_each-Ends [] f c l = Ends-pure tt (λ w v. v)
  send_each-Ends (x ∷ xs) f c l =
      next (IsLive L O) _ _ (on_hub-Ends _ (try_send-Ends L O c (f x) l)) (send_each-Ends xs f c l)

  push_all-Ends :
      (u : String) (ms : List ChatMessage) → Ends LiveAt (push_all C srv u ms) (λ _. LiveAt)
  unfolding push_all
  push_all-Ends u [] = Ends-pure tt (λ w v. v)
  push_all-Ends u (m ∷ ms) =
      Ends-bind (λ o w. LiveAt w × ((c : Client) → o ≡ some c → L c)) _ _
        (on_hub-Ends _ (get_online_client-Ends L O u))
        (λ o.
          Ends-if_some o _ _
            (λ c e. record { at = λ w v. (send_each-Ends (m ∷ ms) _ c (v.1 c e)).at w v.0 })
            (λ _. Ends-pure tt (λ w v. v.0)))

  pub push_undelivered-Ends : (u : String) → Ends LiveAt (push_undelivered C srv u) (λ _. LiveAt)
  unfolding push_undelivered
  push_undelivered-Ends u = Ends-when _ _ (
      Ends-bind (λ _. LiveAt) _ _ (pull-Ends u)
        (λ found.
          Ends-if_some found _ _ (λ ms _. push_all-Ends u ms) (λ _. Ends-pure tt (λ w v. v))))

  module _ (env : Env) where
    pub on_join-Ends :
        (room : String) (me : Client)
        → L me
        → Ends LiveAt (on_join C srv env k room me) (λ _. LiveAt)
    unfolding on_join
    on_join-Ends room me l =
        Ends-bind (λ p. At (InTable L O room p)) _ _
          (on_hub-Ends _ (get_or_create_room-Ends L O room))
          (λ p.
            Ends-weaken _ _ (λ w v. v.0)
              (next (IsLive L O) _ _ (on_hub-Ends _ (add_client-Ends L O p me l)) (
                Ends-bind (λ _. LiveAt) _ _ (load_history-Ends room 50)
                  (λ his. send_json-Ends (WsPayload.joined room his)))))

    pub on_leave-Ends :
        (room : String) (me : Client) → Ends LiveAt (on_leave C srv env k room me) (λ _. LiveAt)
    unfolding on_leave
    on_leave-Ends room me =
        Ends-bind (λ p. At (InTable L O room p)) _ _
          (on_hub-Ends _ (get_or_create_room-Ends L O room))
          (λ p.
            Ends-weaken _ _ (λ w v. v.0)
              (next (IsLive L O) _ _
                (next (IsLive L O) _ _ (on_hub-Ends _ (remove_client-Ends L O p me))
                  (on_hub-Ends _ (remove_empty_room-Ends L O room)))
                (send_json-Ends (WsPayload.left room))))

    pub on_send-Ends :
        (room content : String) (me : Client)
        → Ends LiveAt (on_send C srv env k room content me) (λ _. LiveAt)
    unfolding on_send
    on_send-Ends room content me =
        Ends-bind (λ p. At (InTable L O room p)) _ _
          (on_hub-Ends _ (get_or_create_room-Ends L O room))
          (λ p.
            Ends-bind (λ _. LiveAt) _ _ (on_hub-Ends _ (broadcast-Ends L O room p _))
              (λ _. spawn_save-Ends (IsLive L O) srv _))

    pub on_private-Ends :
        (to content : String) (me : Client)
        → Ends LiveAt (on_private C srv env k to content me) (λ _. LiveAt)
    unfolding on_private
    on_private-Ends to content me =
        next (IsLive L O) _ _
          (Ends-bind (λ o w. LiveAt w × ((c : Client) → o ≡ some c → L c)) _ _
            (on_hub-Ends _ (get_online_client-Ends L O to))
            (λ o.
              Ends-if_some o _ _
                (λ c e. record {
                  at = λ w v.
                      (next (IsLive L O) _ _ (on_hub-Ends _ (try_send-Ends L O c _ (v.1 c e)))
                          (spawn_save-Ends (IsLive L O) srv _)).at
                        w v.0;
                })
                (λ _. Ends-weaken _ _ (λ w v. v.0) (spawn_save-Ends (IsLive L O) srv _))))
          (send_json-Ends (WsPayload.ack to))

    pub on_history-Ends :
        (room : String) (limit : ℤ) (me : Client)
        → Ends LiveAt (on_history C srv env k room limit me) (λ _. LiveAt)
    unfolding on_history
    on_history-Ends room limit me =
        Ends-bind (λ _. LiveAt) _ _ (load_history-Ends room _)
          (λ his. send_json-Ends (WsPayload.history his))
