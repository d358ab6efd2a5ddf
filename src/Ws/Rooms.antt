-- ===== src/Ws/Rooms.antt =====
-- What "join" and "send" do for a room and its members.
use go_chat_x.Common.{
  ℕ, String, ◌≡◌, ◌≢◌, refl, ap, ◌∙◌, true, false, Option, none, some, List, [], ◌∷◌, ◌++◌, arith,
  update, eq_iff, if◌then◌else◌, All,
}
use go_chat_x.GoMap.{lookup, insert}
use go_chat_x.GoMap.Laws.{lookup-insert, lookup-insert_self}
use go_chat_x.Go.{Go, done, modify, bind_done, bind_then, when-true}
use go_chat_x.Message.{ChatMessage}
use go_chat_x.Protocol.{WsPayload}
use go_chat_x.Hub.{
  Hub, Client, Room, new_room, members, broadcast, set_clients, add_client, get_or_create_room,
}
use go_chat_x.Hub.Lemmas.{pointer, with_room, get_or_create_room_lem, sent}
use go_chat_x.Hub.Broadcast.{IsOpenIn, sent_to, broadcast_lem}
use go_chat_x.Storage.Documents.{Collection}
use go_chat_x.Storage.{query_history}
use go_chat_x.World.{Server, World, Env, on_hub, spawn_save}
use go_chat_x.Ws.Chat.{found_or_empty, room_message, load_history, on_join, on_send}
use go_chat_x.Ws.Gate.{send_json_open}

-- The room's pointer, and the state with the client in it.
abbrev pub room_of : String → Hub → ℕ
room_of room h = pointer (lookup room h.rooms) h

unfoldable pub joined_hub : String → Client → Hub → Hub
joined_hub room c h =
    let g = with_room room (lookup room h.rooms) h in
    set_clients (room_of room h) (insert c.user_id c (g.room (room_of room h)).clients) g

-- What "join" promises.
pub record HasJoined (room : String) (c : Client) (h g : Hub) : Type 0 where
  pub pointer_to : ℕ
  pub in_table : lookup room g.rooms ≡ some pointer_to
  pub member : lookup c.user_id (g.room pointer_to).clients ≡ some c
  pub others_stay :
      (u : String) (p : ℕ)
      → u ≢ c.user_id
      → lookup room h.rooms ≡ some p
      → (p ≡ pointer_to) × (lookup u (g.room p).clients ≡ lookup u (h.room p).clients)
  pub other_rooms : (r : String) → r ≢ room → lookup r g.rooms ≡ lookup r h.rooms
  pub only_member : lookup room h.rooms ≡ none → (g.room pointer_to).clients ≡ (c.user_id, c) ∷ []
  pub contents_stay : (q : ℕ) → q ≢ pointer_to → g.room q ≡ h.room q
  pub online_stays : g.online ≡ h.online
  pub chan_stays : g.chan ≡ h.chan
  pub shut_stays : g.shut ≡ h.shut

with_room-chan : (room : String) (o : Option ℕ) (h : Hub) → (with_room room o h).chan ≡ h.chan
unfolding with_room
with_room-chan room none h = refl
with_room-chan room (some p) h = refl

set_lookup :
    (c : Client) (f : ℕ → Room) (p : ℕ)
    → lookup c.user_id
        (update f p (record (f p) { clients = insert c.user_id c (f p).clients }) p).clients
      ≡ some c
set_lookup c f p = ground (arith, lookup-insert_self c.user_id c (f p).clients)

joined-HasJoined :
    (room : String) (c : Client) (h : Hub) (o : Option ℕ)
    → lookup room h.rooms ≡ o
    → HasJoined room c h (
        set_clients
          (pointer o h)
          (insert c.user_id c ((with_room room o h).room (pointer o h)).clients)
          (with_room room o h))
unfolding with_room pointer set_clients insert new_room
joined-HasJoined room c h none e = record {
  pointer_to = h.fresh;
  in_table = lookup-insert_self room h.fresh h.rooms;
  member = set_lookup c (update h.room h.fresh (new_room room)) h.fresh;
  others_stay = λ u p other found. absurd (ground (arith, e, found));
  other_rooms = λ r other. ground (arith, lookup-insert room r h.fresh h.rooms, eq_iff room r);
  only_member = λ _. ground arith;
  contents_stay = λ q other. ground (arith, other);
  online_stays = refl;
  chan_stays = refl;
  shut_stays = refl;
}
joined-HasJoined room c h (some p) e = record {
  pointer_to = p;
  in_table = e;
  member = set_lookup c h.room p;
  others_stay = λ u q other found. (
    same e found,
    ground
        (arith, same e found, lookup-insert c.user_id u c (h.room p).clients, eq_iff c.user_id u),
  );
  other_rooms = λ r other. refl;
  only_member = λ missing. absurd (ground (arith, e, missing));
  contents_stay = λ q other. ground (arith, other);
  online_stays = refl;
  chan_stays = refl;
  shut_stays = refl;
}
  where
    same : {q : ℕ} → lookup room h.rooms ≡ some p → lookup room h.rooms ≡ some q → q ≡ p
    same e found = ground arith

on_hub-done :
    {S A : Type 0} (m : Go Hub A) (a : A) (g : Hub) (w : World S)
    → m w.hub ≡ (done a, g)
    → on_hub m w ≡ (done a, record w { hub = g })
unfolding on_hub
on_hub-done m a g w e = ap (λ r. (r.0, record w { hub = r.1 })) e

module _ (C : Collection) (srv : Server) (env : Env) (k : ℕ) where
  open C use {State}

  -- The newest 50 messages of the room, if they can be read.
  abbrev pub history_of : String → World State → List ChatMessage
  history_of room w = if srv.has_mongo then found_or_empty (query_history C room 50 w.store) else []

  on_join_lem :
      (room : String) (me : Client) (w : World State)
      → (w.hub.chan k).closed ≡ false
      → on_join C srv env k room me w ≡ (
        done tt,
        record w {
          hub = sent k (WsPayload.joined room (history_of room w)) (joined_hub room me w.hub);
        },
      )
  unfolding on_join load_history joined_hub add_client modify
  on_join_lem room me w is_open =
      let p = room_of room w.hub in
      let g = with_room room (lookup room w.hub.rooms) w.hub in
      let w1 : World State = record w { hub = g } in
      let w2 : World State = record w { hub = joined_hub room me w.hub } in
      let still_open : (g.chan k).closed ≡ false =
        ap (λ c. (c k).closed) (with_room-chan room (lookup room w.hub.rooms) w.hub) ∙ is_open in
      bind_done (on_hub (get_or_create_room room)) _ w w1 p
        (on_hub-done (get_or_create_room room) p g w (get_or_create_room_lem room w.hub))
      ∙ bind_then (on_hub (add_client p me)) _ {s' = w2}
          (on_hub-done (add_client p me) tt w2.hub w1 refl)
          (bind_done (load_history C srv room 50) _ w2 w2 (history_of room w) refl
            ∙ send_json_open k (WsPayload.joined room (history_of room w)) w2 still_open)

  -- After a "join" of a connection whose channel is open, the client is a member of the room,
  -- which is in the table. If the room is new, the client is its only member; if not, the other
  -- members stay. The rest of the table, the members of every other room, the users online, the
  -- channels and the connections are as before, but for the client's own channel, which is offered
  -- the history.
  pub on_join-HasJoined :
      (room : String) (me : Client) (w : World State)
      → (w.hub.chan k).closed ≡ false
      → (g : Hub) × HasJoined room me w.hub g
        × (on_join C srv env k room me w
            ≡ (done tt, record w { hub = sent k (WsPayload.joined room (history_of room w)) g }))
  unfolding joined_hub
  on_join-HasJoined room me w is_open = (
    joined_hub room me w.hub,
    joined-HasJoined room me w.hub (lookup room w.hub.rooms) refl,
    on_join_lem room me w is_open,
  )

  -- With MongoDB, a message to a room that exists, all of whose members' channels are open, is
  -- offered to the channel of every member, the sender's too if it has joined, and handed to a
  -- saving goroutine. Nothing else changes.
  pub on_send_lem :
      (room content : String) (me : Client) (p : ℕ) (w : World State)
      → srv.has_mongo ≡ true
      → lookup room w.hub.rooms ≡ some p
      → All (IsOpenIn w.hub) (members p w.hub)
      → on_send C srv env k room content me w ≡ (
        done tt,
        record w {
          hub =
              sent_to
                (members p w.hub)
                (WsPayload.chat me.user_id room (env.clock 0) content)
                w.hub;
          pending = w.pending ++ room_message env me room content ∷ [];
        },
      )
  unfolding on_send spawn_save modify
  on_send_lem room content me p w mongo found fine =
      let b = WsPayload.chat me.user_id room (env.clock 0) content in
      let w' : World State = record w { hub = sent_to (members p w.hub) b w.hub } in
      bind_done (on_hub (get_or_create_room room)) _ w w p
        (on_hub-done (get_or_create_room room) p w.hub w (finds found))
      ∙ bind_then (on_hub (broadcast p b)) _ {s' = w'}
          (on_hub-done (broadcast p b) tt w'.hub w (broadcast_lem p b w.hub fine))
          (ap (λ (m : Go (World State) Unit). m w') (when-true srv.has_mongo _ mongo))
    where
      finds : lookup room w.hub.rooms ≡ some p → get_or_create_room room w.hub ≡ (done p, w.hub)
      finds e = get_or_create_room_lem room w.hub ∙ (unfold pointer with_room in rw e refl)
