-- ===== src/Hub/Live.antt =====
-- When no send can panic: each client that the maps hold is one of the clients `L`, whose channels
-- are open, and so are those of the connections `O`.
use go_chat_x.Common.{
  ℕ, String, ◌≡◌, ◌⊎◌, inl, inr, ◌∙◌, true, false, Option, none, some, arith, eqb, All, All-map,
  Bool-cases,
}
use go_chat_x.GoMap.{GoMap, lookup}
use go_chat_x.GoMap.Laws.{lookup-delete, All-insert, All-delete, All-lookup}
use go_chat_x.Go.{modify}
use go_chat_x.Go.Ends.{Ends, Ends-gets, Ends-modify, ends_in}
use go_chat_x.Protocol.{WsPayload}
use go_chat_x.Hub.{
  Client, Hub, try_send, close_conn, register_online, unregister_online, set_clients, is_empty,
  add_client, get_online_client, remove_client, remove_empty_room, drop_if_empty,
}
use go_chat_x.Hub.Lemmas.{sent, try_send_open, sent-closed}
use go_chat_x.Hub.Sound.{
  IsSound, try_send-IsSound, close_conn-IsSound, register_online-IsSound, unregister_online-IsSound,
  add_client-IsSound, remove_client-IsSound, remove_empty_room-IsSound,
}

-- The clients of a map are among `L`.
abbrev pub Holds : (Client → Type 0) → String × Client → Type 0
Holds L e = L e.1

abbrev pub AreLive : (Client → Type 0) → GoMap Client → Type 0
AreLive L m = All (Holds L) m

module _ (L : Client → Type 0) (O : ℕ → Type 0) where
  pub record IsLive (h : Hub) : Type 0 where
    pub sound : IsSound h
    pub online_live : AreLive L h.online
    pub member_live :
        (r : String) (p : ℕ) → lookup r h.rooms ≡ some p → AreLive L (h.room p).clients
    pub open_live : (c : Client) → L c → (h.chan c.conn).closed ≡ false
    pub open_all : (j : ℕ) → O j → (h.chan j).closed ≡ false

pub IsLive-map :
    (L L' : Client → Type 0) (O : ℕ → Type 0)
    → ((c : Client) → L c → L' c)
    → ((c : Client) → L' c → O c.conn)
    → (h : Hub) → IsLive L O h
    → IsLive L' O h
IsLive-map L L' O more is_open h v = record {
  sound = v.sound;
  online_live = All-map (Holds L) (Holds L') (λ e. more e.1) _ v.online_live;
  member_live = λ r p e. All-map (Holds L) (Holds L') (λ e. more e.1) _ (v.member_live r p e);
  open_live = λ c l. v.open_all c.conn (is_open c l);
  open_all = v.open_all;
}

sent-IsLive :
    (L : Client → Type 0) (O : ℕ → Type 0) (j : ℕ) (b : WsPayload) (h : Hub)
    → (h.chan j).closed ≡ false
    → IsLive L O h
    → IsLive L O (sent j b h)
unfolding sent
sent-IsLive L O j b h o v = record {
  sound = rw (try_send_open j b h o, sent) at ((try_send-IsSound j b).at h v.sound);
  online_live = v.online_live;
  member_live = v.member_live;
  open_live = λ c l. sent-closed j c.conn b h ∙ v.open_live c l;
  open_all = λ i o. sent-closed j i b h ∙ v.open_all i o;
}

module _ (L : Client → Type 0) (O : ℕ → Type 0) where
  open_send :
      (j : ℕ) (b : WsPayload)
      → ((h : Hub) → IsLive L O h → (h.chan j).closed ≡ false)
      → Ends (IsLive L O) (try_send j b) (λ _. IsLive L O)
  open_send j b is_open =
      ends_in (λ _. IsLive L O) (try_send j b) (λ _. tt) (sent j b)
        (λ h v. (try_send_open j b h (is_open h v), sent-IsLive L O j b h (is_open h v) v))

  -- Sending to a connection that is open, or to a client of the maps.
  pub try_send_self-Ends :
      (self : ℕ) (b : WsPayload) → O self → Ends (IsLive L O) (try_send self b) (λ _. IsLive L O)
  try_send_self-Ends self b o = open_send self b (λ h v. v.open_all self o)

  pub try_send-Ends :
      (c : Client) (b : WsPayload) → L c → Ends (IsLive L O) (try_send c.conn b) (λ _. IsLive L O)
  try_send-Ends c b l = open_send c.conn b (λ h v. v.open_live c l)

  pub close_conn-Ends : (k : ℕ) → Ends (IsLive L O) (close_conn k) (λ _. IsLive L O)
  unfolding close_conn
  close_conn-Ends k =
      Ends-modify (λ _. IsLive L O) _
        (λ h v. record {
          sound = unfold close_conn modify in (close_conn-IsSound k).at h v.sound;
          online_live = v.online_live;
          member_live = v.member_live;
          open_live = v.open_live;
          open_all = v.open_all;
        })

  pub register_online-Ends :
      (c : Client) → L c → Ends (IsLive L O) (register_online c.user_id c) (λ _. IsLive L O)
  unfolding register_online
  register_online-Ends c l =
      Ends-modify (λ _. IsLive L O) _
        (λ h v. record {
          sound = unfold register_online modify in (register_online-IsSound c).at h v.sound;
          online_live = All-insert (Holds L) c.user_id c h.online l v.online_live;
          member_live = v.member_live;
          open_live = v.open_live;
          open_all = v.open_all;
        })

  pub unregister_online-Ends :
      (u : String) → Ends (IsLive L O) (unregister_online u) (λ _. IsLive L O)
  unfolding unregister_online
  unregister_online-Ends u =
      Ends-modify {P = IsLive L O} (λ _. IsLive L O) _
        (λ h v. record {
          sound = unfold unregister_online modify in (unregister_online-IsSound u).at h v.sound;
          online_live = All-delete (Holds L) u h.online v.online_live;
          member_live = v.member_live;
          open_live = v.open_live;
          open_all = v.open_all;
        })

  set_clients-IsLive :
      (p : ℕ) (m : GoMap Client) (h : Hub)
      → IsSound (set_clients p m h)
      → ((r : String) → lookup r h.rooms ≡ some p → AreLive L m)
      → IsLive L O h
      → IsLive L O (set_clients p m h)
  unfolding set_clients
  set_clients-IsLive p m h s new v = record {
    sound = s;
    online_live = v.online_live;
    member_live = λ r q e. set_member (r, e) (Bool-cases (eqb p q));
    open_live = v.open_live;
    open_all = v.open_all;
  }
    where
      set_member :
          {q : ℕ}
          → (r : String) × (lookup r h.rooms ≡ some q)
          → (eqb p q ≡ true) ⊎ (eqb p q ≡ false)
          → AreLive L ((set_clients p m h).room q).clients
      set_member {q} (r, e) (inl same) = rw same (new r (ground arith))
      set_member {q} (r, e) (inr other) = rw other (v.member_live r q e)

  pub add_client-Ends :
      (p : ℕ) (c : Client) → L c → Ends (IsLive L O) (add_client p c) (λ _. IsLive L O)
  unfolding add_client
  add_client-Ends p c l =
      Ends-modify {P = IsLive L O} (λ _. IsLive L O) _
        (λ h v.
          set_clients-IsLive p _ h
            (unfold add_client modify in (add_client-IsSound p c).at h v.sound)
            (λ r e. All-insert (Holds L) c.user_id c _ l (v.member_live r p e)) v)

  pub remove_client-Ends :
      (p : ℕ) (c : Client) → Ends (IsLive L O) (remove_client p c) (λ _. IsLive L O)
  unfolding remove_client
  remove_client-Ends p c =
      Ends-modify {P = IsLive L O} (λ _. IsLive L O) _
        (λ h v.
          set_clients-IsLive p _ h
            (unfold remove_client modify in (remove_client-IsSound p c).at h v.sound)
            (λ r e. All-delete (Holds L) c.user_id _ (v.member_live r p e)) v)

  drop_if_empty-IsLive :
      (r : String) (o : Option ℕ) (h : Hub)
      → IsSound (drop_if_empty r o h)
      → IsLive L O h
      → IsLive L O (drop_if_empty r o h)
  unfolding drop_if_empty
  drop_if_empty-IsLive r none h s v = v
  drop_if_empty-IsLive r (some p) h s v = elim (Bool-cases (is_empty (h.room p).clients)) [
    | inl y ↦
        rw (y, drop_if_empty)
          (record {
            sound = rw (y, drop_if_empty) at s;
            online_live = v.online_live;
            member_live = λ q k e. v.member_live q k (ground (arith, lookup-delete r q h.rooms));
            open_live = v.open_live;
            open_all = v.open_all;
          })
    | inr n ↦ rw (n, drop_if_empty) v
  ]

  pub remove_empty_room-Ends :
      (r : String) → Ends (IsLive L O) (remove_empty_room r) (λ _. IsLive L O)
  unfolding remove_empty_room
  remove_empty_room-Ends r =
      Ends-modify {P = IsLive L O} (λ _. IsLive L O) _
        (λ h v.
          drop_if_empty-IsLive r _ h
            (unfold remove_empty_room modify in (remove_empty_room-IsSound r).at h v.sound) v)

  pub get_online_client-Ends :
      (u : String)
      → Ends
          (IsLive L O)
          (get_online_client u)
          (λ o h. IsLive L O h × ((c : Client) → o ≡ some c → L c))
  unfolding get_online_client
  get_online_client-Ends u =
      Ends-gets _ (λ h v. (v, λ c e. (All-lookup (Holds L) u c h.online e v.online_live).1))
