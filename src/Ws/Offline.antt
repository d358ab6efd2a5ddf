-- ===== src/Ws/Offline.antt =====
-- A private message to a user who is not online: it waits in MongoDB, and the user finds it in the
-- channel after logging in.
use go_chat_x.Common.{
  ℕ, suc, ◌+◌, ◌≤◌, String, ◌≡◌, refl, sym, ap, ◌∙◌, true, false, none, some, List, [], ◌∷◌, ◌++◌,
  map, arith, length, length-append, length-map, if◌then◌else◌, Bool-cases, inl, inr,
}
use go_chat_x.GoMap.{lookup, insert}
use go_chat_x.GoMap.Laws.{lookup-insert_self}
use go_chat_x.Go.{
  Go, done, pure, when, if_some, modify, gets, for_each, ◌>>=◌, bind_done, bind_then, if_some-none,
  if_some-some, when-true,
}
use go_chat_x.Message.{ChatMessage}
use go_chat_x.Protocol.{WsPayload}
use go_chat_x.Text.{itoa}
use go_chat_x.Hub.{Client, chan_size, try_send, get_online_client, register_online}
use go_chat_x.Hub.Lemmas.{sent}
use go_chat_x.Hub.Posts.{
  posted, Fits, posted-nil, posted-closed, sent-posted, posted-append, posted-Fits,
}
use go_chat_x.Storage.Documents.{Collection}
use go_chat_x.Storage.{pull_undelivered_for_user, pull_limit}
use go_chat_x.Storage.Pull.{length-pulled-le}
use go_chat_x.World.{
  Server, RedisCommand, set, World, Session, Env, on_hub, send_json, redis_do, spawn_save,
}
use go_chat_x.Ws.Auth.{
  online_key, last_seen_key, undelivered_payload, pull_undelivered, push_all, push_undelivered,
  log_in,
}
use go_chat_x.Ws.Chat.{private_message, on_private}
use go_chat_x.Ws.Gate.{send_json_open}

module _ {S : Type 0} where
  abbrev IsOpenAt : ℕ → World S → Type 0
  IsOpenAt k w = (w.hub.chan k).closed ≡ false

  abbrev pub with_posted : ℕ → List WsPayload → World S → World S
  with_posted k bs w = record w { hub = posted k bs w.hub }

  send_json-posted :
      (k : ℕ) (b : WsPayload) (w : World S)
      → IsOpenAt k w
      → Fits k (b ∷ []) w.hub
      → send_json k b w ≡ (done tt, with_posted k (b ∷ []) w)
  send_json-posted k b w is_open fits =
      send_json_open k b w is_open
      ∙ ap (λ h. (done tt, record w { hub = h })) (sent-posted k b w.hub fits)

  send_all-posted :
      (k : ℕ) (f : ChatMessage → WsPayload) (ms : List ChatMessage) (w : World S)
      → IsOpenAt k w
      → Fits k (map f ms) w.hub
      → for_each ms (λ x. on_hub (try_send k (f x))) w ≡ (done tt, with_posted k (map f ms) w)
  unfolding for_each pure send_json
  send_all-posted k f [] w is_open fits =
      ap (λ h. (done tt, record w { hub = h })) (sym (posted-nil k w.hub))
  send_all-posted k f (m ∷ ms) w is_open fits =
      bind_done _ _ w (with_posted k (f m ∷ []) w) tt
        (send_json-posted k (f m) w is_open (omega arith))
      ∙ send_all-posted k f ms (with_posted k (f m ∷ []) w) (posted-closed k _ w.hub ∙ is_open)
          (posted-Fits k (f m ∷ []) (map f ms) w.hub fits)
      ∙ ap (λ h. (done tt, record w { hub = h })) (posted-append k (f m ∷ []) (map f ms) w.hub)

unfoldable pub after_redis : Server → RedisCommand → List RedisCommand → List RedisCommand
after_redis srv c cs = if srv.has_redis then cs ++ c ∷ [] else cs

module _ {S : Type 0} where
  redis_do_lem :
      (srv : Server) (c : RedisCommand) (w : World S)
      → redis_do srv c w ≡ (done tt, record w { redis = after_redis srv c w.redis })
  unfolding redis_do when modify pure after_redis
  redis_do_lem srv c w = elim (Bool-cases srv.has_redis) [ inl y ↦ rw y refl | inr n ↦ rw n refl ]

module _ (C : Collection) (srv : Server) where
  open C use {State}

  push_all-posted :
      (u : String) (c : Client) (ms : List ChatMessage) (w : World State)
      → lookup u w.hub.online ≡ some c
      → IsOpenAt c.conn w
      → Fits c.conn (map (undelivered_payload u) ms) w.hub
      → push_all C srv u ms w ≡ (done tt, with_posted c.conn (map (undelivered_payload u) ms) w)
  unfolding push_all pure ◌>>=◌ on_hub get_online_client gets if_some
  push_all-posted u c [] w found is_open fits =
      ap (λ h. (done tt, record w { hub = h })) (sym (posted-nil c.conn w.hub))
  push_all-posted u c (m ∷ ms) w found is_open fits =
      ap (λ (m : Go (World State) Unit). m w)
        (if_some-some (lookup u w.hub.online) _ (pure tt) c found)
      ∙ send_all-posted c.conn (undelivered_payload u) (m ∷ ms) w is_open fits

  push_undelivered-posted :
      (u : String) (c : Client) (ms : List ChatMessage) (s' : State) (w : World State)
      → srv.has_mongo ≡ true
      → pull_undelivered_for_user C u w.store ≡ (some ms, s')
      → lookup u w.hub.online ≡ some c
      → IsOpenAt c.conn w
      → Fits c.conn (map (undelivered_payload u) ms) w.hub
      → push_undelivered C srv u w
        ≡ (done tt, with_posted c.conn (map (undelivered_payload u) ms) (record w { store = s' }))
  unfolding push_undelivered pull_undelivered ◌>>=◌ if_some
  push_undelivered-posted u c ms s' w mongo pulls found is_open fits =
      ap (λ (m : Go (World State) Unit). m w) (when-true srv.has_mongo _ mongo)
      ∙ (rw pulls (push_all-posted u c ms (record w { store = s' }) found is_open fits))

  -- Everything that a log-in changes.
  unfoldable pub logged_in :
      Env → ℕ → ℕ → String → List ChatMessage → State → World State → World State
  logged_in env k ttl u ms s' w = record {
    hub =
        posted k (map (undelivered_payload u) ms ++ WsPayload.authed u ∷ [])
          (record w.hub { online = insert u (record { user_id = u; conn = k }) w.hub.online });
    store = s';
    redis =
        after_redis srv (set (last_seen_key u) (itoa (env.clock 0)) 0)
          (after_redis srv (set (online_key u) "1" ttl) w.redis);
    pending = w.pending;
  }

  module _ (env : Env) (k : ℕ) (ttl : ℕ) (u : String) (ms : List ChatMessage) (s' : State)
      (w : World State) (mongo : srv.has_mongo ≡ true)
      (pulls : pull_undelivered_for_user C u w.store ≡ (some ms, s')) (is_open : IsOpenAt k w)
      (fits : Fits k (map (undelivered_payload u) ms ++ WsPayload.authed u ∷ []) w.hub) where
    abbrev me : Client
    me = record { user_id = u; conn = k }

    abbrev registered : World State
    registered = record w { hub = record w.hub { online = insert u me w.hub.online } }

    pub log_in_lem :
        (sess : Session)
        → log_in C srv env k ttl u sess w
          ≡ (done (record sess { me = some me; last_seen = 0 }), logged_in env k ttl u ms s' w)
    unfolding log_in logged_in pure on_hub register_online modify
    log_in_lem sess =
        let w1 : World State =
          with_posted k (map (undelivered_payload u) ms) (record registered { store = s' }) in
        let c1 = set (online_key u) "1" ttl in
        let c2 = set (last_seen_key u) (itoa (env.clock 0)) 0 in
        let w2 : World State = record w1 { redis = after_redis srv c1 w1.redis } in
        let w3 : World State = record w2 { redis = after_redis srv c2 w2.redis } in
        let w4 : World State = with_posted k (WsPayload.authed u ∷ []) w3 in
        bind_then _ _
          (bind_then _ _
            (bind_then _ _
              (bind_then _ _
                (bind_then (on_hub (register_online u me)) _ {s' = registered} refl (
                  push_undelivered-posted u me ms s' registered mongo pulls
                    (lookup-insert_self u me w.hub.online) is_open some_fit))
                (redis_do_lem srv c1 w1))
              (redis_do_lem srv c2 w2))
            (send_json-posted k (WsPayload.authed u) w3 (posted-closed k _ registered.hub ∙ is_open)
              (posted-Fits k (map (undelivered_payload u) ms) _ registered.hub fits)))
          (ap (λ h. (done (record sess { me = some me; last_seen = 0 }), record w4 { hub = h }))
            (posted-append k (map (undelivered_payload u) ms) _ registered.hub))
      where
        some_fit : Fits k (map (undelivered_payload u) ms) w.hub
        some_fit =
            omega (
              arith,
              length-append (map (undelivered_payload u) ms) (WsPayload.authed u ∷ []),
              fits,
            )

  -- With MongoDB: a log-in whose pull succeeds, on a connection whose channel is open and has
  -- room for 201 payloads, registers the user, puts every message that was pulled into the
  -- channel, in the order read and before "authed", and writes the two keys of Redis; none of the
  -- payloads is dropped.
  pub log_in-logged_in :
      (env : Env) (k ttl : ℕ) (u : String) (ms : List ChatMessage) (s' : State) (sess : Session)
      (w : World State)
      → srv.has_mongo ≡ true
      → pull_undelivered_for_user C u w.store ≡ (some ms, s')
      → (w.hub.chan k).closed ≡ false
      → length (w.hub.chan k).buf + suc pull_limit ≤ chan_size
      → log_in C srv env k ttl u sess w ≡ (
        done (record sess { me = some (record { user_id = u; conn = k }); last_seen = 0 }),
        logged_in env k ttl u ms s' w,
      )
  log_in-logged_in env k ttl u ms s' sess w mongo pulls is_open room =
      log_in_lem env k ttl u ms s' w mongo pulls is_open
        (omega (
          arith,
          length-append (map (undelivered_payload u) ms) (WsPayload.authed u ∷ []),
          length-map (undelivered_payload u) ms,
          length-pulled-le C u w.store ms s' pulls,
        ))
        sess

  -- With MongoDB, a private message to a user who is not online, from a connection whose channel
  -- is open, is acknowledged and handed to a goroutine that saves it as not delivered; no other
  -- channel is touched.
  pub on_private-offline :
      (env : Env) (k : ℕ) (to content : String) (sender : Client) (w : World State)
      → srv.has_mongo ≡ true
      → lookup to w.hub.online ≡ none
      → (w.hub.chan k).closed ≡ false
      → on_private C srv env k to content sender w ≡ (
        done tt,
        record w {
          hub = sent k (WsPayload.ack to) w.hub;
          pending = w.pending ++ private_message env sender to content false ∷ [];
        },
      )
  unfolding on_private spawn_save modify pure on_hub get_online_client gets
  on_private-offline env k to content sender w mongo away is_open =
      bind_then _ _
        (bind_done (on_hub (get_online_client to)) _ w w (lookup to w.hub.online) refl
          ∙ ap (λ (m : Go (World State) Unit). m w) (if_some-none _ _ _ away)
          ∙ ap (λ (m : Go (World State) Unit). m w) (when-true srv.has_mongo _ mongo))
        (send_json_open k (WsPayload.ack to) _ is_open)
