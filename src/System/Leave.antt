-- ===== src/System/Leave.antt =====
-- The end of a connection takes its client out of the maps.
use go_chat_x.Common.{ℕ, String, ◌≡◌, ◌≢◌, sym, ◌∙◌, none, List, [], ◌∷◌, All, All-map}
use go_chat_x.GoMap.{GoMap, lookup}
use go_chat_x.GoMap.Laws.{All-absent}
use go_chat_x.Go.{done, for_each}
use go_chat_x.Go.Ends.{Ends, Ends-bind, Ends-weaken, Ends-pure, Ends-gets}
use go_chat_x.Hub.{Hub, Client}
use go_chat_x.Hub.Sound.{IsNamed, AreNamed}
use go_chat_x.Hub.Live.{
  IsLive, Holds, AreLive, remove_client-Ends, remove_empty_room-Ends, unregister_online-Ends,
}
use go_chat_x.Hub.LiveRooms.{InTable, get_or_create_room-Ends}
use go_chat_x.Ws.Loop.{leave_room, leave_all, my_rooms}
use go_chat_x.Ws.Cleanup.{leave_all-HasLeft}

module _ (L : Client → Type 0) (O : ℕ → Type 0) where
  leave_room-Ends :
      (me : Client) (id : String) → Ends (IsLive L O) (leave_room me id) (λ _. IsLive L O)
  unfolding leave_room
  leave_room-Ends me id = Ends-bind (InTable L O id) _ _ (get_or_create_room-Ends L O id) (λ p.
      Ends-weaken _ _ (λ h v. v.0)
        (Ends-bind (λ _. IsLive L O) _ _ (remove_client-Ends L O p me)
          (λ _. remove_empty_room-Ends L O id)))

  rounds-Ends :
      (me : Client) (ids : List String)
      → Ends (IsLive L O) (for_each ids (leave_room me)) (λ _. IsLive L O)
  unfolding for_each
  rounds-Ends me [] = Ends-pure tt (λ h v. v)
  rounds-Ends me (id ∷ ids) =
      Ends-bind (λ _. IsLive L O) _ _ (leave_room-Ends me id) (λ _. rounds-Ends me ids)

  leave_all-Ends : (me : Client) → Ends (IsLive L O) (leave_all me) (λ _. IsLive L O)
  unfolding leave_all my_rooms
  leave_all-Ends me =
      Ends-bind (λ _. IsLive L O) _ _ (Ends-gets _ (λ h v. v))
        (λ ids.
          Ends-bind (λ _. IsLive L O) _ _ (rounds-Ends me ids)
            (λ _. unregister_online-Ends L O me.user_id))

  -- The clients of `L` that have another user.
  abbrev pub Others : String → Client → Type 0
  Others u c = L c × (c.user_id ≢ u)

  both : (m : GoMap Client) → AreLive L m → AreNamed m → All (λ e. L e.1 × IsNamed e) m
  both [] l n = tt
  both (e ∷ m) l n = ((l.0, n.0), both m l.1 n.1)

  absent-Others :
      (u : String) (m : GoMap Client)
      → AreLive L m
      → AreNamed m
      → lookup u m ≡ none
      → AreLive (Others u) m
  absent-Others u m l n e =
      All-map _ (Holds (Others u)) (λ x h. (h.0.0, λ same. h.1 (sym h.0.1 ∙ same))) m
        (All-absent (λ x. L x.1 × IsNamed x) u m e (both m l n))

  -- After the cleanup of a user only clients of other users are left.
  pub leave_all-Others :
      (me : Client) (h : Hub)
      → IsLive L O h
      → (g : Hub) × (leave_all me h ≡ (done tt, g)) × IsLive (Others me.user_id) O g
  leave_all-Others me h v =
      let (g, e, left) = leave_all-HasLeft me h v.sound in
      let (_, _, live) = (leave_all-Ends me).at h v in
      let live' : IsLive L O g = rw e at live in
      (
        g,
        e,
        record {
          sound = live'.sound;
          online_live =
              absent-Others me.user_id g.online live'.online_live live'.sound.online_named
                left.offline;
          member_live = λ r p f.
              absent-Others me.user_id _ (live'.member_live r p f) (live'.sound.members_named p)
                (left.nowhere r p f);
          open_live = λ c l. live'.open_live c l.0;
          open_all = live'.open_all;
        },
      )
