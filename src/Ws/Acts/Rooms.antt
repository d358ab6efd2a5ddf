-- ===== src/Ws/Acts/Rooms.antt =====
-- "join" and "leave" change one membership, and the cleanup takes its user out of everything.
use go_chat_x.Common.{
  ℕ, String, ◌≡◌, ◌≢◌, refl, ap, ◌∙◌, ◌⊎◌, inl, inr, Option, none, some, List, [], ◌∷◌, arith,
  eq_iff, eq_refl,
}
use go_chat_x.GoMap.{lookup}
use go_chat_x.GoMap.Laws.{lookup-insert_self, lookup-delete}
use go_chat_x.Go.{Go, modify, ◌>>=◌}
use go_chat_x.Go.Turns.{Turns, Turns-keeps, Turns-then, Turns-if_some}
use go_chat_x.Hub.{Hub, Client, get_or_create_room, add_client, remove_client}
use go_chat_x.Hub.Lemmas.{pointer, with_room, get_or_create_room_lem}
use go_chat_x.Hub.Sound.{IsSound, IsSound-HubRules}
use go_chat_x.Hub.View.{
  Chat, view, enter, exit, vanish, chat_eq, view-with_room, view-insert, view-delete,
  view-drop_if_empty,
}
use go_chat_x.Storage.Documents.{Collection}
use go_chat_x.World.{Server, World, Session, Env, on_hub}
use go_chat_x.Ws.Chat.{on_join, on_leave}
use go_chat_x.Ws.Loop.{rooms_with, leave_all, cleanup}
use go_chat_x.Ws.Leaving.{In, without_member, rooms_with-In}
use go_chat_x.Ws.Cleanup.{
  without_member_in, left_all, leave_all_lem, round-IsSound, rounds-Untouched,
}
use go_chat_x.Ws.Holds.{OnHub, leave_all-Keeps}
use go_chat_x.Ws.Shows.{Shows}
use go_chat_x.Ws.Acts.{gone}
use go_chat_x.Ws.Acts.Turn.{Showing, on_hub-Turns, calm_rules}

-- The table has the room that is looked up.
with_room-found :
    (r : String) (o : Option ℕ) (h : Hub)
    → lookup r h.rooms ≡ o
    → lookup r (with_room r o h).rooms ≡ some (pointer o h)
unfolding with_room pointer
with_room-found r none h e = lookup-insert_self r h.fresh h.rooms
with_room-found r (some p) h e = e

with_room-IsSound : (r : String) (h : Hub) → IsSound h → IsSound (with_room r (lookup r h.rooms) h)
with_room-IsSound r h v =
    rw (get_or_create_room_lem r h) at ((IsSound-HubRules.quietly.finds r).at h v)

-- A sound hub that shows `c`, with the room `r` at `p`.
record Finds (c : Chat) (r : String) (p : ℕ) (h : Hub) : Type 0 where
  shown : Shows c h
  found : lookup r h.rooms ≡ some p

with_room-Finds :
    (c : Chat) (r : String) (h : Hub)
    → Shows c h
    → Finds c r (pointer (lookup r h.rooms) h) (with_room r (lookup r h.rooms) h)
with_room-Finds c r h v = record {
  shown = record {
    sound = with_room-IsSound r h v.sound;
    seen = view-with_room r (lookup r h.rooms) h v.sound refl ∙ v.seen;
  };
  found = with_room-found r (lookup r h.rooms) h refl;
}

add_client-Turns :
    (c : Chat) (r : String) (p : ℕ) (me : Client)
    → Turns (Finds c r p) (Shows (enter r me.user_id me.conn c)) (add_client p me)
unfolding add_client modify
add_client-Turns c r p me = record {
  turns = λ h v. record {
    sound = (IsSound-HubRules.adds p me).at h v.shown.sound;
    seen =
        view-insert r p me h v.shown.sound v.found ∙ ap (enter r me.user_id me.conn) v.shown.seen;
  };
}

remove_client-Turns :
    (c : Chat) (r : String) (p : ℕ) (me : Client)
    → Turns (Finds c r p) (Shows (exit r me.user_id c)) (remove_client p me)
unfolding remove_client modify
remove_client-Turns c r p me = record {
  turns = λ h v. record {
    sound = (IsSound-HubRules.removes p me).at h v.shown.sound;
    seen = view-delete r p me.user_id h v.shown.sound v.found ∙ ap (exit r me.user_id) v.shown.seen;
  };
}

module _ {S : Type 0} where
  -- getOrCreateRoom, and then what the rest of the block does to the room.
  found-Turns :
      {A : Type 0} (c c' : Chat) (r : String) (rest : ℕ → Go (World S) A)
      → ((p : ℕ) → Turns (OnHub (Finds c r p)) (Showing c') (rest p))
      → Turns (Showing c) (Showing c') (on_hub (get_or_create_room r) >>= rest)
  unfolding ◌>>=◌ on_hub
  found-Turns c c' r rest t = record {
    turns = λ w v. rw (get_or_create_room_lem r w.hub) (
        (t (pointer (lookup r w.hub.rooms) w.hub)).turns
          (record w { hub = with_room r (lookup r w.hub.rooms) w.hub })
          (record { hub_holds = with_room-Finds c r w.hub v.hub_holds }));
  }

ruleset room_rules = (Turns-then, on_hub-Turns, add_client-Turns, remove_client-Turns, calm_rules)

without_member-view :
    (u id : String) (h : Hub) → IsSound h → view (without_member u id h) ≡ exit id u (view h)
unfolding without_member
without_member-view u id h v =
    let o = lookup id h.rooms in
    view-drop_if_empty id _ _ refl
    ∙ view-delete id (pointer o h) u (with_room id o h) (with_room-IsSound id h v)
        (with_room-found id o h refl)
    ∙ ap (exit id u) (view-with_room id o h v refl)

-- The user leaves the rooms, one after the other.
exits : String → List String → Chat → Chat
exits u [] c = c
exits u (id ∷ ids) c = exits u ids (exit id u c)

module _ (u : String) where
  rounds-view :
      (ids : List String) (h : Hub)
      → IsSound h
      → view (without_member_in u ids h) ≡ exits u ids (view h)
  unfolding without_member_in exits
  rounds-view [] h v = refl
  rounds-view (id ∷ ids) h v =
      rounds-view ids _ (round-IsSound u id h v) ∙ ap (exits u ids) (without_member-view u id h v)

  exits-online : (ids : List String) (c : Chat) → (exits u ids c).online ≡ c.online
  unfolding exits exit
  exits-online [] c = refl
  exits-online (id ∷ ids) c = exits-online ids (exit id u c)

  exits-other :
      (w : String) (ids : List String) (c : Chat) (r : String)
      → u ≢ w
      → (exits u ids c).member r w ≡ c.member r w
  unfolding exits
  exits-other w [] c r other = refl
  exits-other w (id ∷ ids) c r other =
      exits-other w ids (exit id u c) r other
      ∙ (unfold exit in ground (arith, eq_iff id r, eq_iff u w))

  exits_self :
      (ids : List String) (c : Chat) (r : String)
      → (c.member r u ≡ none) ⊎ In r ids
      → (exits u ids c).member r u ≡ none
  unfolding exits
  exits_self [] c r (inl e) = e
  exits_self [] c r (inr i) = absurd i
  exits_self (id ∷ ids) c r (inl e) =
      exits_self ids (exit id u c) r (inl (unfold exit in ground (arith, eq_refl u)))
  exits_self (id ∷ ids) c r (inr (inl e)) =
      exits_self ids (exit id u c) r (inl (unfold exit in ground (arith, eq_refl u, eq_iff id r)))
  exits_self (id ∷ ids) c r (inr (inr i)) = exits_self ids (exit id u c) r (inr i)

  -- The rooms that the cleanup goes through are all that hold the user.
  rooms_of :
      (h : Hub) (r : String) (o : Option ℕ)
      → lookup r h.rooms ≡ o
      → ((view h).member r u ≡ none) ⊎ In r (rooms_with u h h.rooms)
  unfolding view
  rooms_of h r none e = inl (ground (arith, e))
  rooms_of h r (some p) e = ground (arith, rooms_with-In u h h.rooms r p)

  -- A user who is in no room but those of `ids` is in none after the rounds.
  exits-vanish :
      (ids : List String) (c : Chat) (r w : String)
      → (c.member r u ≡ none) ⊎ In r ids
      → (exits u ids c).member r w ≡ (vanish u c).member r w
  unfolding vanish
  exits-vanish ids c r w i = ground (arith, eq_iff u w, exits-other w ids c r, exits_self ids c r i)

  left_all-view : (h : Hub) → IsSound h → view (left_all u h) ≡ vanish u (view h)
  unfolding left_all view vanish
  left_all-view h v =
      let ids = rooms_with u h h.rooms in
      let g = without_member_in u ids h in
      chat_eq _ _
        (λ w.
          ground
            (arith, lookup-delete u w g.online, eq_iff u w, (rounds-Untouched u ids h).same_online))
        (λ r w.
          ap (λ (d : Chat). d.member r w) (rounds-view ids h v)
          ∙ exits-vanish ids (view h) r w (rooms_of h r _ refl))

leave_all-Turns :
    (c : Chat) (me : Client) → Turns (Shows c) (Shows (vanish me.user_id c)) (leave_all me)
leave_all-Turns c me = record {
  turns = λ h v.
      let s = (leave_all-Keeps IsSound-HubRules me).at h v.sound in
      rw (leave_all_lem me h) (record {
        sound = rw (leave_all_lem me h) at s;
        seen = left_all-view me.user_id h v.sound ∙ ap (vanish me.user_id) v.seen;
      });
}

module _ (C : Collection) (srv : Server) (env : Env) (k : ℕ) (c : Chat) where
  open C use {State}

  pub on_join-Turns :
      (r : String) (me : Client)
      → Turns (Showing c) (Showing (enter r me.user_id me.conn c)) (on_join C srv env k r me)
  unfolding on_join
  on_join-Turns r me = found-Turns c _ r _ (λ p. search room_rules depth 14)

  pub on_leave-Turns :
      (r : String) (me : Client)
      → Turns (Showing c) (Showing (exit r me.user_id c)) (on_leave C srv env k r me)
  unfolding on_leave
  on_leave-Turns r me = found-Turns c _ r _ (λ p. search room_rules depth 14)

  pub cleanup-Turns :
      (sess : Session) → Turns (Showing c) (Showing (gone sess.me c)) (cleanup C srv env k sess)
  unfolding cleanup gone
  cleanup-Turns sess =
      Turns-if_some (λ o. Showing (gone o c)) sess.me _ _
        (λ me. search (room_rules, leave_all-Turns) depth 12) (search (Turns-keeps, calm_rules))
