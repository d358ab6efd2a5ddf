-- ===== src/Hub/Race.antt =====
-- What may come between the locked parts of the functions on rooms.
use go_chat_x.Common.{ℕ, String, ◌≡◌, refl, sym, ap, subst, ◌∙◌, Option, none, some, [], arith}
use go_chat_x.GoMap.{lookup}
use go_chat_x.GoMap.Laws.{lookup-insert_self, lookup-delete_self}
use go_chat_x.Go.{done, modify, ◌>>=◌, ◌>>◌}
use go_chat_x.Hub.{
  Client, Hub, set_clients, add_client, create_room, get_or_create_room, is_empty, drop_if_empty,
  remove_empty_room,
}
use go_chat_x.Hub.Lemmas.{pointer, with_room, create_room_lem, get_or_create_room_lem}

made :
    (r : String) (o : Option ℕ) (h : Hub)
    → lookup r h.rooms ≡ o
    → lookup r (with_room r o h).rooms ≡ some (pointer o h)
unfolding with_room pointer
made r none h e = lookup-insert_self r h.fresh h.rooms
made r (some p) h e = e

-- Two goroutines that both looked under the read lock, and found no room, end with the same room:
-- the second to take the write lock finds the one that the first has created.
pub create_room_twice :
    (r : String) (h : Hub) (p : ℕ) (g : Hub)
    → create_room r h ≡ (done p, g)
    → create_room r g ≡ (done p, g)
unfolding pointer with_room
create_room_twice r h p g e =
    let o = lookup r h.rooms in
    let same : (done (pointer o h), with_room r o h) ≡ (done p, g) =
      sym (create_room_lem r h) ∙ e in
    let there : lookup r g.rooms ≡ some p =
      subst (λ x. lookup r x.1.rooms ≡ some p) same
        (made r o h refl ∙ ap some (ground (arith, same))) in
    create_room_lem r g ∙ ap (λ x. (done (pointer x g), with_room r x g)) there

-- One goroutine removes the room `r` when it is empty, before another, which has its pointer `p`
-- from getOrCreateRoom, adds the client `c`.
unfoldable pub raced : String → ℕ → Client → Hub → Hub
raced r p c h = ((remove_empty_room r >> add_client p c) h).1

-- If a goroutine has the pointer of an empty room from getOrCreateRoom, and the room is removed
-- before it adds its client, then the client is a member of a room that the table no longer has,
-- and the next getOrCreateRoom for the name makes another one.
pub raced-orphan :
    (r : String) (p : ℕ) (c : Client) (h : Hub)
    → lookup r h.rooms ≡ some p
    → (h.room p).clients ≡ []
    → (get_or_create_room r h ≡ (done p, h))
      × (lookup c.user_id ((raced r p c h).room p).clients ≡ some c)
      × (get_or_create_room r (raced r p c h)
          ≡ (done (raced r p c h).fresh, with_room r none (raced r p c h)))
unfolding raced remove_empty_room add_client modify set_clients ◌>>=◌ drop_if_empty is_empty pointer
    with_room
raced-orphan r p c h found empty = (
  get_or_create_room_lem r h ∙ (rw found refl),
  ground (
    arith,
    lookup-insert_self c.user_id c ((drop_if_empty r (lookup r h.rooms) h).room p).clients,
  ),
  get_or_create_room_lem r (raced r p c h)
      ∙ ap (λ o. (done (pointer o (raced r p c h)), with_room r o (raced r p c h))) gone,
)
  where
    gone : lookup r (raced r p c h).rooms ≡ none
    gone = ground (arith, found, empty, lookup-delete_self r h.rooms)
