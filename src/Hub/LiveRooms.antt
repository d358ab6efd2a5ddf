-- ===== src/Hub/LiveRooms.antt =====
-- Looking a room up, and broadcasting to it, when no send can panic.
use go_chat_x.Common.{
  ℕ, String, ◌≡◌, refl, inl, inr, Option, none, some, List, [], ◌∷◌, map, arith, eqb, All,
  Bool-cases,
}
use go_chat_x.GoMap.{GoMap, lookup}
use go_chat_x.GoMap.Laws.{lookup-insert, lookup-insert_self}
use go_chat_x.Go.{for_each}
use go_chat_x.Go.Ends.{Ends, Ends-bind, Ends-for_each, Ends-gets, ends_in}
use go_chat_x.Protocol.{WsPayload}
use go_chat_x.Hub.{Client, Hub, new_room, try_send, members, broadcast, get_or_create_room}
use go_chat_x.Hub.Lemmas.{pointer, with_room, get_or_create_room_lem}
use go_chat_x.Hub.Sound.{IsSound, IsSound-HubRules}
use go_chat_x.Hub.Rules.{get_or_create_room-Keeps}
use go_chat_x.Hub.Live.{IsLive, AreLive, try_send-Ends}

module _ (L : Client → Type 0) (O : ℕ → Type 0) where
  -- The pointer is that of the room in the table.
  abbrev pub InTable : String → ℕ → Hub → Type 0
  InTable r p h = IsLive L O h × (lookup r h.rooms ≡ some p)

  with_room-InTable :
      (r : String) (o : Option ℕ) (h : Hub)
      → lookup r h.rooms ≡ o
      → IsSound (with_room r o h)
      → IsLive L O h
      → InTable r (pointer o h) (with_room r o h)
  unfolding with_room pointer new_room
  with_room-InTable r none h found s v = (
    record {
      sound = s;
      online_live = v.online_live;
      member_live = λ q k e. elim (Bool-cases (eqb h.fresh k)) [
        | inl same ↦ rw same tt
        | inr other ↦
            rw other (v.member_live q k (ground (arith, lookup-insert r q h.fresh h.rooms)))
      ];
      open_live = v.open_live;
      open_all = v.open_all;
    },
    lookup-insert_self r h.fresh h.rooms,
  )
  with_room-InTable r (some p) h found s v = (v, found)

  pub get_or_create_room-Ends : (r : String) → Ends (IsLive L O) (get_or_create_room r) (InTable r)
  get_or_create_room-Ends r =
      ends_in (InTable r) (get_or_create_room r) (λ h. pointer (lookup r h.rooms) h)
        (λ h. with_room r (lookup r h.rooms) h)
        (λ h v. (
          get_or_create_room_lem r h,
          with_room-InTable r _ h refl
              (rw (get_or_create_room_lem r h) at
                ((get_or_create_room-Keeps IsSound-HubRules.quietly r).at h v.sound))
              v,
        ))

  All-clients : (m : GoMap Client) → AreLive L m → All L (map (λ e. e.1) m)
  All-clients [] v = tt
  All-clients ((u, c) ∷ m) v = (v.0, All-clients m v.1)

  pub broadcast-Ends :
      (r : String) (p : ℕ) (b : WsPayload) → Ends (InTable r p) (broadcast p b) (λ _. IsLive L O)
  unfolding broadcast members
  broadcast-Ends r p b =
      Ends-bind (λ cs h. IsLive L O h × All L cs) _ _
        (Ends-gets _ (λ h v. (v.0, All-clients _ (v.0.member_live r p v.1)))) (λ cs. sends cs)
    where
      sends :
          (cs : List Client)
          → Ends
              (λ h. IsLive L O h × All L cs)
              (for_each cs (λ c. try_send c.conn b))
              (λ _. IsLive L O)
      sends cs = record {
        at = λ h v. (Ends-for_each L cs _ v.1 (λ c l. try_send-Ends L O c b l)).at h v.0;
      }
