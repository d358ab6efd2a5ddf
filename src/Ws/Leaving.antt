-- ===== src/Ws/Leaving.antt =====
-- What the cleanup of a connection leaves of its user in the rooms.
use go_chat_x.Common.{
  ℕ, String, ◌≡◌, ◌≢◌, refl, ◌⊎◌, Option, none, some, List, [], ◌∷◌, arith, eq_iff,
}
use go_chat_x.GoMap.{GoMap, lookup, delete, contains}
use go_chat_x.GoMap.Laws.{lookup-insert, lookup-delete, lookup-delete_self}
use go_chat_x.Go.{done, modify, ◌>>=◌}
use go_chat_x.Hub.{
  Client, Hub, new_room, set_clients, room_contains, drop_if_empty, remove_client,
  remove_empty_room,
}
use go_chat_x.Hub.Lemmas.{pointer, with_room, get_or_create_room_lem}
use go_chat_x.Hub.Sound.{IsSound}
use go_chat_x.Ws.Loop.{rooms_with, leave_room}

-- The hub after one round of the cleanup.
unfoldable pub without_member : String → String → Hub → Hub
without_member u id h =
    let p : ℕ = pointer (lookup id h.rooms) h in
    let g : Hub = with_room id (lookup id h.rooms) h in
    let g' : Hub = set_clients p (delete u (g.room p).clients) g in
    drop_if_empty id (lookup id g'.rooms) g'

pub leave_room_lem :
    (me : Client) (id : String) (h : Hub)
    → leave_room me id h ≡ (done tt, without_member me.user_id id h)
unfolding leave_room ◌>>=◌ remove_client remove_empty_room modify without_member
leave_room_lem me id h = rw (get_or_create_room_lem id h) refl

-- A room of the table after the round is the room left, without the user, or was there before and
-- is as it was.
abbrev pub RoundLeaves : String → String → Hub → Hub → Type 0
RoundLeaves u id h g =
    (r : String) (p : ℕ)
    → lookup r g.rooms ≡ some p
    → (lookup u (g.room p).clients ≡ none)
      ⊎ ((r ≢ id) × (lookup r h.rooms ≡ some p) × (g.room p ≡ h.room p))

drop_if_empty-room : (id : String) (o : Option ℕ) (g : Hub) → (drop_if_empty id o g).room ≡ g.room
unfolding drop_if_empty
drop_if_empty-room id none g = refl
drop_if_empty-room id (some p) g = ground arith

drop_if_empty-rooms :
    (id r : String) (o : Option ℕ) (q : ℕ) (g : Hub)
    → lookup r (drop_if_empty id o g).rooms ≡ some q
    → lookup r g.rooms ≡ some q
unfolding drop_if_empty
drop_if_empty-rooms id r none q g e = e
drop_if_empty-rooms id r (some p) q g e = ground (arith, lookup-delete id r g.rooms)

set_clients-RoundLeaves :
    (u id : String) (h : Hub) (o : Option ℕ)
    → IsSound h
    → lookup id h.rooms ≡ o
    → let g = with_room id o h in
      RoundLeaves u id h (set_clients (pointer o h) (delete u (g.room (pointer o h)).clients) g)
unfolding pointer with_room set_clients
set_clients-RoundLeaves u id h none v found r q e = ground (
  arith,
  lookup-insert id r h.fresh h.rooms,
  eq_iff id r,
  v.room_old r q,
  lookup-delete_self u (new_room id).clients,
)
set_clients-RoundLeaves u id h (some p) v found r q e =
    ground (arith, lookup-delete_self u (h.room p).clients)

pub without_member-RoundLeaves :
    (u id : String) (h : Hub) → IsSound h → RoundLeaves u id h (without_member u id h)
unfolding without_member
without_member-RoundLeaves u id h v r q e =
    rw (drop_if_empty-room id _ _)
      (set_clients-RoundLeaves u id h _ v refl r q (drop_if_empty-rooms id r _ q _ e))

-- `id` is one of the names.
abbrev pub In : String → List String → Type 0
In id [] = ⊥
In id (x ∷ xs) = (x ≡ id) ⊎ In id xs

-- The rooms of the table that still hold the user are among `ids`.
abbrev pub OnlyIn : String → List String → Hub → Type 0
OnlyIn u ids h =
    (r : String) (p : ℕ)
    → lookup r h.rooms ≡ some p
    → (lookup u (h.room p).clients ≡ none) ⊎ In r ids

pub without_member-OnlyIn :
    (u id : String) (ids : List String) (h : Hub)
    → IsSound h
    → OnlyIn u (id ∷ ids) h
    → OnlyIn u ids (without_member u id h)
without_member-OnlyIn u id ids h v only r p e =
    ground (arith, without_member-RoundLeaves u id h v r p e, only r p)

pub rooms_with-In :
    (u : String) (h : Hub) (m : GoMap ℕ) (r : String) (p : ℕ)
    → lookup r m ≡ some p
    → (lookup u (h.room p).clients ≡ none) ⊎ In r (rooms_with u h m)
unfolding rooms_with lookup room_contains contains
rooms_with-In u h ((id, q) ∷ m) r p e = ground (arith, rooms_with-In u h m r p, eq_iff id r)
rooms_with-In u h [] r p e = cc
