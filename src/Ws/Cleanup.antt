-- ===== src/Ws/Cleanup.antt =====
-- The end of a connection: its user is gone from every room and from the users online, rooms that
-- it leaves empty are gone too, and nobody else notices.
use go_chat_x.Common.{
  ℕ, String, ◌≡◌, ◌≢◌, refl, ◌∙◌, false, Option, none, some, List, [], ◌∷◌, arith, eq_iff,
}
use go_chat_x.GoMap.{GoMap, lookup, delete}
use go_chat_x.GoMap.Laws.{lookup-insert, lookup-delete, lookup-delete_self}
use go_chat_x.Go.{done, pure, modify, gets, for_each, ◌>>=◌}
use go_chat_x.Hub.{Client, Hub, set_clients, is_empty, drop_if_empty, unregister_online}
use go_chat_x.Hub.Lemmas.{pointer, with_room}
use go_chat_x.Hub.Sound.{IsSound, IsSound-HubRules}
use go_chat_x.Ws.Loop.{my_rooms, leave_room, leave_all, rooms_with}
use go_chat_x.Ws.Holds.{leave_room-Keeps}
use go_chat_x.Ws.Leaving.{
  without_member, leave_room_lem, OnlyIn, without_member-OnlyIn, rooms_with-In,
}

-- Every membership of `v` in `h` is one in `g`, and the users online and the channels are the same.
abbrev pub Stays : String → Hub → Hub → Type 0
Stays v h g =
    (r : String) (p : ℕ) (c : Client)
    → lookup r h.rooms ≡ some p
    → lookup v (h.room p).clients ≡ some c
    → (lookup r g.rooms ≡ some p) × (lookup v (g.room p).clients ≡ some c)

occupied : (v : String) (m : GoMap Client) (c : Client) → lookup v m ≡ some c → is_empty m ≡ false
unfolding is_empty lookup
occupied v [] c e = cc
occupied v (x ∷ m) c e = refl

drop_if_empty-Stays :
    (v id : String) (o : Option ℕ) (g : Hub)
    → lookup id g.rooms ≡ o
    → Stays v g (drop_if_empty id o g)
unfolding drop_if_empty
drop_if_empty-Stays v id none g found r p c e f = (e, f)
drop_if_empty-Stays v id (some q) g found r p c e f =
    ground (arith, lookup-delete id r g.rooms, eq_iff id r, occupied v (g.room q).clients c)

set_clients-Stays :
    (u v id : String) (h : Hub) (o : Option ℕ)
    → v ≢ u
    → IsSound h
    → lookup id h.rooms ≡ o
    → let g = with_room id o h in
      Stays v h (set_clients (pointer o h) (delete u (g.room (pointer o h)).clients) g)
unfolding pointer with_room set_clients
set_clients-Stays u v id h none other s found r p c e f =
    ground (arith, lookup-insert id r h.fresh h.rooms, eq_iff id r, s.room_old r p)
set_clients-Stays u v id h (some q) other s found r p c e f =
    ground (arith, lookup-delete u v (h.room q).clients, eq_iff u v)

without_member-Stays :
    (u v id : String) (h : Hub) → v ≢ u → IsSound h → Stays v h (without_member u id h)
unfolding without_member
without_member-Stays u v id h other s r p c e f =
    let (e', f') = set_clients-Stays u v id h _ other s refl r p c e f in
    drop_if_empty-Stays v id _ _ refl r p c e' f'

-- What the rounds of the cleanup leave alone.
pub record Untouched (h g : Hub) : Type 0 where
  pub same_online : g.online ≡ h.online
  pub same_chan : g.chan ≡ h.chan

Untouched-refl : (h : Hub) → Untouched h h
Untouched-refl h = record { same_online = refl; same_chan = refl }

with_room-Untouched : (id : String) (o : Option ℕ) (h : Hub) → Untouched h (with_room id o h)
unfolding with_room
with_room-Untouched id none h = record { same_online = refl; same_chan = refl }
with_room-Untouched id (some p) h = Untouched-refl h

drop_if_empty-Untouched :
    (id : String) (o : Option ℕ) (h : Hub) → Untouched h (drop_if_empty id o h)
unfolding drop_if_empty
drop_if_empty-Untouched id none h = Untouched-refl h
drop_if_empty-Untouched id (some p) h = ground arith

Untouched-trans : {h g k : Hub} → Untouched h g → Untouched g k → Untouched h k
Untouched-trans a b = record {
  same_online = b.same_online ∙ a.same_online;
  same_chan = b.same_chan ∙ a.same_chan;
}

without_member-Untouched : (u id : String) (h : Hub) → Untouched h (without_member u id h)
unfolding without_member set_clients
without_member-Untouched u id h =
    let first = with_room-Untouched id (lookup id h.rooms) h in
    Untouched-trans (record { same_online = first.same_online; same_chan = first.same_chan })
      (drop_if_empty-Untouched id _ _)

-- The hub after all rounds.
unfoldable pub without_member_in : String → List String → Hub → Hub
without_member_in u [] h = h
without_member_in u (id ∷ ids) h = without_member_in u ids (without_member u id h)

rounds_lem :
    (me : Client) (ids : List String) (h : Hub)
    → for_each ids (leave_room me) h ≡ (done tt, without_member_in me.user_id ids h)
unfolding for_each ◌>>=◌ pure without_member_in
rounds_lem me [] h = refl
rounds_lem me (id ∷ ids) h = rw (leave_room_lem me id h) (rounds_lem me ids _)

pub round-IsSound : (u id : String) (h : Hub) → IsSound h → IsSound (without_member u id h)
round-IsSound u id h v =
    let me : Client = record { user_id = u; conn = 0 } in
    rw (leave_room_lem me id h) at ((leave_room-Keeps IsSound-HubRules me id).at h v)

module _ (u : String) where
  rounds-OnlyIn :
      (ids : List String) (h : Hub)
      → IsSound h
      → OnlyIn u ids h
      → OnlyIn u [] (without_member_in u ids h)
  unfolding without_member_in
  rounds-OnlyIn [] h v only = only
  rounds-OnlyIn (id ∷ ids) h v only =
      rounds-OnlyIn ids _ (round-IsSound u id h v) (without_member-OnlyIn u id ids h v only)

  rounds-Stays :
      (v : String) (ids : List String) (h : Hub)
      → v ≢ u
      → IsSound h
      → Stays v h (without_member_in u ids h)
  unfolding without_member_in
  rounds-Stays v [] h other s r p c e f = (e, f)
  rounds-Stays v (id ∷ ids) h other s r p c e f =
      let (e', f') = without_member-Stays u v id h other s r p c e f in
      rounds-Stays v ids _ other (round-IsSound u id h s) r p c e' f'

  pub rounds-Untouched : (ids : List String) (h : Hub) → Untouched h (without_member_in u ids h)
  unfolding without_member_in
  rounds-Untouched [] h = Untouched-refl h
  rounds-Untouched (id ∷ ids) h =
      Untouched-trans (without_member-Untouched u id h) (rounds-Untouched ids _)

-- The hub that the cleanup leaves.
unfoldable pub left_all : String → Hub → Hub
left_all u h =
    let g : Hub = without_member_in u (rooms_with u h h.rooms) h in
    record g { online = delete u g.online }

pub leave_all_lem : (me : Client) (h : Hub) → leave_all me h ≡ (done tt, left_all me.user_id h)
unfolding leave_all my_rooms gets modify unregister_online ◌>>=◌ left_all
leave_all_lem me h = rw (rounds_lem me (rooms_with me.user_id h h.rooms) h) refl

-- What the cleanup of the user `u` promises.
pub record HasLeft (u : String) (h g : Hub) : Type 0 where
  pub offline : lookup u g.online ≡ none
  pub nowhere :
      (r : String) (p : ℕ) → lookup r g.rooms ≡ some p → lookup u (g.room p).clients ≡ none
  pub others_online : (v : String) → v ≢ u → lookup v g.online ≡ lookup v h.online
  pub others_stay : (v : String) → v ≢ u → Stays v h g
  pub channels : g.chan ≡ h.chan

-- From a sound state the cleanup ends, and does not panic: the user is then not online and in no
-- room of the table; every other user is online as before and in the same rooms; no channel changes.
pub leave_all-HasLeft :
    (me : Client) (h : Hub)
    → IsSound h
    → (g : Hub) × (leave_all me h ≡ (done tt, g)) × HasLeft me.user_id h g
unfolding left_all
leave_all-HasLeft me h v =
    let u = me.user_id in
    let ids = rooms_with u h h.rooms in
    (
      left_all u h,
      leave_all_lem me h,
      record {
        offline = lookup-delete_self u _;
        nowhere =
            λ r p e. ground (arith, rounds-OnlyIn u ids h v (rooms_with-In u h h.rooms) r p e);
        others_online = λ w other. ground (
          arith,
          lookup-delete u w (without_member_in u ids h).online,
          eq_iff u w,
          (rounds-Untouched u ids h).same_online,
        );
        others_stay = λ w other. rounds-Stays u w ids h other v;
        channels = (rounds-Untouched u ids h).same_chan;
      },
    )
