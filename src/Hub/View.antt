-- ===== src/Hub/View.antt =====
-- Who is online, and who is in which room: what clients.go and room.go keep, without the order of
-- the entries, the room pointers and the channels.
use mathlib.Core.Path.{fun_ext}
use go_chat_x.Common.{
  ℕ, String, ◌≡◌, refl, sym, ◌∙◌, true, inl, inr, Option, none, some, [], ◌∷◌, arith, ◌==◌, eq_iff,
  Bool-cases, if◌then◌else◌,
}
use go_chat_x.GoMap.{GoMap, lookup, insert, delete}
use go_chat_x.GoMap.Laws.{lookup-insert, lookup-delete, lookup-nil}
use go_chat_x.Hub.{Client, Hub, Room, init, new_room, set_clients, is_empty, drop_if_empty}
use go_chat_x.Hub.Lemmas.{with_room}
use go_chat_x.Hub.Sound.{IsSound}

-- The connection that a user is online with, and the one that it is in a room with.
pub record Chat : Type 0 where
  pub online : String → Option ℕ
  pub member : String → String → Option ℕ

-- A function, changed at one name.
unfoldable pub change {ℓ} : {A : Type ℓ} → (String → A) → String → A → String → A
change f key a name = if key == name then a else f name

unfoldable pub nobody : Chat
nobody = record { online = λ u. none; member = λ r u. none }

unfoldable pub sign_in : String → ℕ → Chat → Chat
unfolding change
sign_in u k c = record c { online = change c.online u (some k) }

unfoldable pub enter : String → String → ℕ → Chat → Chat
unfolding change
enter r u k c = record c { member = change c.member r (change (c.member r) u (some k)) }

unfoldable pub exit : String → String → Chat → Chat
unfolding change
exit r u c = record c { member = change c.member r (change (c.member r) u none) }

-- The user is gone, from every room.
unfoldable pub vanish : String → Chat → Chat
unfolding change
vanish u c = record { online = change c.online u none; member = λ r. change (c.member r) u none }

unfoldable pub conn_of : Option Client → Option ℕ
conn_of none = none
conn_of (some c) = some c.conn

unfoldable pub members_of : Option ℕ → (ℕ → Room) → String → Option ℕ
unfolding conn_of
members_of none room u = none
members_of (some p) room u = conn_of (lookup u (room p).clients)

-- What a hub shows.
unfoldable pub view : Hub → Chat
unfolding conn_of members_of
view h = record {
  online = λ u. conn_of (lookup u h.online);
  member = λ r. members_of (lookup r h.rooms) h.room;
}

pub chat_eq :
    (a b : Chat)
    → ((u : String) → a.online u ≡ b.online u)
    → ((r u : String) → a.member r u ≡ b.member r u)
    → a ≡ b
chat_eq a b o m = λ i. record { online = fun_ext o i; member = fun_ext (λ r. fun_ext (m r)) i }

pub view-init : view init ≡ nobody
unfolding view init nobody lookup
view-init = refl

-- The channels and the closed connections are not seen.
pub view_of_maps :
    (h g : Hub) → g.online ≡ h.online → g.rooms ≡ h.rooms → g.room ≡ h.room → view g ≡ view h
unfolding view
view_of_maps h g o t r = λ i. record {
  online = λ u. conn_of (lookup u (o i));
  member = λ n. members_of (lookup n (t i)) (r i);
}

pub view-online :
    (u : String) (c : Client) (h : Hub)
    → view (record h { online = insert u c h.online }) ≡ sign_in u c.conn (view h)
unfolding view sign_in
view-online u c h = chat_eq _ _ (λ w. ground (arith, lookup-insert u w c h.online)) (λ r w. refl)

-- A room that is looked up shows the same members, new or not.
pub view-with_room :
    (r : String) (o : Option ℕ) (h : Hub)
    → IsSound h
    → lookup r h.rooms ≡ o
    → view (with_room r o h) ≡ view h
unfolding view with_room new_room
view-with_room r none h v found =
    chat_eq _ _ (λ u. refl)
      (λ n u. ground (
        arith,
        found,
        lookup-insert r n h.fresh h.rooms,
        eq_iff r n,
        v.room_old n h.fresh,
        lookup-nil {V = Client} u,
      ))
view-with_room r (some p) h v found = refl

-- Two names of the table do not share a room.
same_name :
    (h : Hub) (r n : String) (p : ℕ)
    → IsSound h
    → lookup r h.rooms ≡ some p
    → lookup n h.rooms ≡ some p
    → r ≡ n
same_name h r n p v at_r at_n = sym (v.room_named r p at_r) ∙ v.room_named n p at_n

pub view-insert :
    (r : String) (p : ℕ) (c : Client) (h : Hub)
    → IsSound h
    → lookup r h.rooms ≡ some p
    → view (set_clients p (insert c.user_id c (h.room p).clients) h)
      ≡ enter r c.user_id c.conn (view h)
unfolding view set_clients enter
view-insert r p c h v found =
    chat_eq _ _ (λ u. refl)
      (λ n u. ground (
        arith,
        found,
        lookup-insert c.user_id u c (h.room p).clients,
        eq_iff r n,
        same_name h r n p v,
      ))

pub view-delete :
    (r : String) (p : ℕ) (w : String) (h : Hub)
    → IsSound h
    → lookup r h.rooms ≡ some p
    → view (set_clients p (delete w (h.room p).clients) h) ≡ exit r w (view h)
unfolding view set_clients exit
view-delete r p w h v found =
    chat_eq _ _ (λ u. refl)
      (λ n u.
        ground
          (arith, found, lookup-delete w u (h.room p).clients, eq_iff r n, same_name h r n p v))

empty_room : (m : GoMap Client) (u : String) → is_empty m ≡ true → lookup u m ≡ none
unfolding is_empty lookup
empty_room [] u e = refl
empty_room (x ∷ m) u e = cc

view-dropped :
    (r : String) (p : ℕ) (h : Hub)
    → lookup r h.rooms ≡ some p
    → is_empty (h.room p).clients ≡ true
    → view (record h { rooms = delete r h.rooms }) ≡ view h
unfolding view
view-dropped r p h found bare =
    chat_eq _ _ (λ u. refl)
      (λ n u.
        ground (
          arith,
          found,
          lookup-delete r n h.rooms,
          eq_iff r n,
          empty_room (h.room p).clients u bare,
        ))

-- Dropping a room that is empty is not seen.
pub view-drop_if_empty :
    (r : String) (o : Option ℕ) (h : Hub)
    → lookup r h.rooms ≡ o
    → view (drop_if_empty r o h) ≡ view h
unfolding drop_if_empty
view-drop_if_empty r none h found = refl
view-drop_if_empty r (some p) h found = elim (Bool-cases (is_empty (h.room p).clients)) [
  | inl bare ↦ rw (bare, drop_if_empty) (view-dropped r p h found bare)
  | inr full ↦ rw (full, drop_if_empty) refl
]
