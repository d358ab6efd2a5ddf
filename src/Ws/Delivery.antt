-- ===== src/Ws/Delivery.antt =====
-- A private message to a user who is not online, from the frame that carries it to the log-in that
-- finds it: on_private, one of the saving goroutines, and log_in.
use mathlib.Core.List.{Mem, mem-append_left, mem-append_right, mem-cons_self, mem-map_of_mem}
use mathlib.Core.List.Perm
use go_chat_x.Common.{
  ℕ, suc, ◌+◌, ◌≤◌, String, ◌≡◌, ◌≢◌, refl, sym, ap, subst, ◌∙◌, true, false, none, some, List, [],
  ◌∷◌, ◌++◌, map, arith, length,
}
use go_chat_x.GoMap.{lookup}
use go_chat_x.Message.{ChatMessage}
use go_chat_x.Protocol.{WsPayload}
use go_chat_x.Hub.{Client, chan_size}
use go_chat_x.Hub.Lemmas.{sent}
use go_chat_x.Hub.Posts.{posted-buf}
use go_chat_x.Storage.Documents.{Collection}
use go_chat_x.Storage.{decode_all, pull_limit, with_id, save_message, pull_undelivered_for_user}
use go_chat_x.Storage.Delivery.{waiting, pull-perm}
use go_chat_x.Storage.History.{save_message-waits}
use go_chat_x.World.{Server, World, Session, Env}
use go_chat_x.Ws.Auth.{undelivered_payload, log_in}
use go_chat_x.Ws.Chat.{private_message, on_private}
use go_chat_x.Ws.Loop.{pick, save_picked, run_save}
use go_chat_x.Ws.Offline.{logged_in, log_in-logged_in, on_private-offline}

pub pick-last : {A : Type 0} (xs : List A) (x : A) → pick (length xs) (xs ++ x ∷ []) ≡ some (x, xs)
unfolding pick
pick-last [] x = refl
pick-last (y ∷ xs) x = rw (pick-last xs x) refl

decode_all-append : (xs ys : _) → decode_all (xs ++ ys) ≡ decode_all xs ++ decode_all ys
unfolding decode_all
decode_all-append [] ys = refl
decode_all-append (x ∷ xs) ys = ground (arith, decode_all-append xs ys)

decoded_letter :
    (m : ChatMessage) → Mem m (decode_all (record { message = m; decodes = true } ∷ []))
unfolding decode_all
decoded_letter m = mem-cons_self

module _ (C : Collection) (srv : Server) (env env' : Env) (k j now ttl : ℕ) (to content : String)
    (sender : Client) (sess : Session) where
  open C use {State, documents}

  -- The message, as the saving goroutine writes it.
  abbrev letter : ChatMessage
  letter = with_id now (private_message env sender to content false)

  -- The state after the frame, and after its message has been saved.
  abbrev pub after_frame : World State → World State
  after_frame w = (on_private C srv env k to content sender w).1

  abbrev pub after_save : World State → World State
  after_save w = run_save C srv now (length w.pending) (after_frame w)

  abbrev pub after_log_in : World State → World State
  after_log_in w = (log_in C srv env' j ttl to sess (after_save w)).1

  abbrev saved_world : World State → World State
  saved_world w = record w {
    hub = sent k (WsPayload.ack to) w.hub;
    store = (save_message C now (private_message env sender to content false) w.store).1;
  }

  after_save_lem :
      (w : World State)
      → srv.has_mongo ≡ true
      → lookup to w.hub.online ≡ none
      → (w.hub.chan k).closed ≡ false
      → after_save w ≡ saved_world w
  unfolding run_save save_picked
  after_save_lem w mongo away is_open =
      ap (λ r. run_save C srv now (length w.pending) r.1)
        (on_private-offline C srv env k to content sender w mongo away is_open)
      ∙ (rw (pick-last w.pending (private_message env sender to content false)) refl)

  module _ (w : World State) where
    same_chan : k ≢ j → (saved_world w).hub.chan j ≡ w.hub.chan j
    unfolding sent
    same_chan other = ground (arith, other)

    logged_buf :
        (ms : List ChatMessage) (s' : State)
        → ((logged_in C srv env' j ttl to ms s' (saved_world w)).hub.chan j).buf
          ≡ ((saved_world w).hub.chan j).buf
            ++ (map (undelivered_payload to) ms ++ WsPayload.authed to ∷ [])
    unfolding logged_in
    logged_buf ms s' = posted-buf j _ _

    same_payload :
        undelivered_payload to letter ≡ WsPayload.private sender.user_id to (env.clock 2) content
    unfolding with_id private_message
    same_payload = ground arith

    found :
        (to ≢ "")
        → (save_message C now (private_message env sender to content false) w.store).0 ≡ true
        → Mem letter (decode_all (waiting C to (saved_world w).store))
    unfolding private_message
    found named saved =
        let m = private_message env sender to content false in
        subst (λ ds. Mem letter (decode_all ds))
          (sym (save_message-waits C now m w.store refl named saved))
          (subst (Mem letter) (sym (decode_all-append (waiting C to w.store) _))
            (mem-append_right _ (decoded_letter letter)))

  -- With MongoDB: let the user `to` be not online and have a name, let the channels of the
  -- sender's connection and of another one be open, the latter with room for 201 payloads. The
  -- sender's private message is handled, its goroutine saves it without an error, and then `to`
  -- logs in on the other connection. If that log-in's pull succeeds, with no more than 200
  -- messages waiting, the message is in the channel of that connection.
  pub private-arrives :
      (w : World State) (ms : List ChatMessage) (s' : State)
      → srv.has_mongo ≡ true
      → lookup to w.hub.online ≡ none
      → to ≢ ""
      → k ≢ j
      → (w.hub.chan k).closed ≡ false
      → (w.hub.chan j).closed ≡ false
      → length (w.hub.chan j).buf + suc pull_limit ≤ chan_size
      → (save_message C now (private_message env sender to content false) w.store).0 ≡ true
      → pull_undelivered_for_user C to (after_save w).store ≡ (some ms, s')
      → length (waiting C to (after_save w).store) ≤ pull_limit
      → Mem
          (WsPayload.private sender.user_id to (env.clock 2) content)
          ((after_log_in w).hub.chan j).buf
  private-arrives w ms s' mongo away named other sender_open is_open room saved pulls few =
      let v : World State = saved_world w in
      let e = after_save_lem w mongo away sender_open in
      let pulls' = subst (λ x. pull_undelivered_for_user C to x.store ≡ (some ms, s')) e pulls in
      let few' = subst (λ x. length (waiting C to x.store) ≤ pull_limit) e few in
      let perm = pull-perm C to v.store ms s' pulls' few' in
      let is_open' = ap (λ c. c.closed) (same_chan w other) ∙ is_open in
      let room' =
        subst (λ c. length c.buf + suc pull_limit ≤ chan_size) (sym (same_chan w other)) room in
      let arrived =
        subst (λ b. Mem b (map (undelivered_payload to) ms)) (same_payload w)
          (mem-map_of_mem (undelivered_payload to) ((Perm.mem_iff perm).1 (found w named saved))) in
      let b = WsPayload.private sender.user_id to (env.clock 2) content in
      subst (λ (x : World State). Mem b (x.hub.chan j).buf)
        (sym (
          ap (λ x. (log_in C srv env' j ttl to sess x).1) e
          ∙ ap (λ r. r.1)
              (log_in-logged_in C srv env' j ttl to ms s' sess v mongo pulls' is_open' room')))
        (subst (Mem b) (sym (logged_buf w ms s')) (
          mem-append_right (v.hub.chan j).buf (mem-append_left (WsPayload.authed to ∷ []) arrived)))
