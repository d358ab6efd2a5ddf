-- ===== src/System/Once.antt =====
-- In whatever order the connections act, nobody is listed twice, and a message to a room is offered
-- to nobody twice.
use mathlib.Core.Path.{fun_ext}
use go_chat_x.Common.{
  ℕ, String, ◌≡◌, ◌≢◌, refl, sym, ap, ◌∙◌, Bool, true, false, some, List, [], ◌∷◌, ◌++◌, map, arith,
  eqb, All, Bool-cases, inl, inr, if◌then◌else◌,
}
use go_chat_x.GoMap.{GoMap, lookup, keys}
use go_chat_x.GoMap.Distinct.{Distinct}
use go_chat_x.Go.{done}
use go_chat_x.Protocol.{WsPayload}
use go_chat_x.Hub.{Chan, Client, Hub, offer, members}
use go_chat_x.Hub.Broadcast.{IsOpenIn, copies, offers, sent_to}
use go_chat_x.Hub.Once.{IsOnce, init-IsOnce, IsOnce-HubRules}
use go_chat_x.Hub.Sound.{AreNamed}
use go_chat_x.Hub.Live.{AreLive}
use go_chat_x.Storage.Documents.{Collection}
use go_chat_x.World.{Server, Env}
use go_chat_x.Ws.Chat.{room_message, on_send}
use go_chat_x.Ws.Rooms.{on_send_lem}
use go_chat_x.Go.Keeps.{Keeps}
use go_chat_x.Go.{modify}
use go_chat_x.Ws.Loop.{write_next}
use go_chat_x.System.{Event, System, start, run}
use go_chat_x.System.Holds.{run-OnHub}
use go_chat_x.System.Live.{Registered, IsServing, IsServing-IsLive}
use go_chat_x.System.Safe.{IsEventOf, run_from-IsServing, start-IsServing}

write_next-IsOnce : (k : ℕ) → Keeps IsOnce (write_next k)
unfolding write_next modify
write_next-IsOnce k = record {
  at = λ h v. record {
    online_once = v.online_once;
    rooms_once = v.rooms_once;
    members_once = v.members_once;
  };
}

-- One of the clients sends through the channel `j`.
unfoldable pub has_conn : ℕ → List Client → Bool
has_conn j [] = false
has_conn j (c ∷ cs) = if eqb c.conn j then true else has_conn j cs

-- The channels of the clients are offered the payload, each of them once.
unfoldable pub told : List Client → WsPayload → Hub → Hub
told cs b h = record h { chan = λ j. if has_conn j cs then offer b (h.chan j) else h.chan j }

module _ (user : ℕ → String) where
  -- The entry stands under the user of its connection.
  abbrev IsOwn : String × Client → Type 0
  IsOwn e = user e.1.conn ≡ e.0

  values : GoMap Client → List Client
  values m = map (λ e. e.1) m

  no_copies :
      (j : ℕ) (m : GoMap Client)
      → All IsOwn m
      → All (λ y. user j ≢ y) (keys m)
      → copies j (values m) ≡ 0
  unfolding keys copies values
  no_copies j [] own other = refl
  no_copies j ((u, c) ∷ m) own other = ground (arith, no_copies j m own.1 other.1, other.0, own.0)

  offers_once :
      (j : ℕ) (b : WsPayload) (ch : Chan) (m : GoMap Client)
      → All IsOwn m
      → Distinct (keys m)
      → offers (copies j (values m)) b ch ≡ (if has_conn j (values m) then offer b ch else ch)
  unfolding keys copies offers values has_conn
  offers_once j b ch [] own d = refl
  offers_once j b ch ((u, c) ∷ m) own d = elim (Bool-cases (eqb c.conn j)) [
    | inl same ↦
        let mine : u ≡ user j = sym own.0 ∙ ap user (ground arith) in
        let none_else : All (λ y. user j ≢ y) (keys m) = rw mine at d.0 in
        rw (same, no_copies j m own.1 none_else) refl
    | inr other ↦ rw other (offers_once j b ch m own.1 d.1)
  ]

  entries-IsOwn :
      {S : Type 0} (s : System S) (m : GoMap Client)
      → IsServing user s
      → AreNamed m
      → AreLive (Registered s) m
      → All IsOwn m
  entries-IsOwn s [] v named live = tt
  entries-IsOwn s ((u, c) ∷ m) v named live = (
    ap (λ (d : Client). d.user_id) (sym (v.me_user c.conn c live.0.is_me)) ∙ named.0,
    entries-IsOwn s m v named.1 live.1,
  )

  open_members :
      {S : Type 0} (s : System S) (m : GoMap Client)
      → IsServing user s
      → AreLive (Registered s) m
      → All (IsOpenIn s.world.hub) (values m)
  unfolding values
  open_members s [] v live = tt
  open_members s ((u, c) ∷ m) v live =
      ((IsServing-IsLive v).open_live c live.0, open_members s m v live.1)

  sent_to-told :
      (b : WsPayload) (m : GoMap Client) (h : Hub)
      → All IsOwn m
      → Distinct (keys m)
      → sent_to (values m) b h ≡ told (values m) b h
  unfolding sent_to told
  sent_to-told b m h own d =
      λ i. record h { chan = fun_ext (λ j. offers_once j b (h.chan j) m own d) i }

module _ (C : Collection) (srv : Server) where
  open C use {State}

  -- Whatever the connections send and the services answer, in every order of events: no user is
  -- listed twice among those online, no name twice in the table of rooms, and no user twice in a
  -- room.
  pub run-IsOnce : (store : State) (es : List Event) → IsOnce (run C srv es (start store)).world.hub
  unfolding start
  run-IsOnce store es =
      (run-OnHub C srv IsOnce-HubRules write_next-IsOnce es (start store)
        (record { hub_holds = init-IsOnce })).hub_holds

  -- With MongoDB, and if every connection logs in as one user at most: after any order of events,
  -- a message to a room of the table is offered once to the channel of each connection that is a
  -- member, to no other channel, and handed to a saving goroutine; the handler does not panic, and
  -- nothing else changes.
  pub run-on_send :
      (user : ℕ → String) (store : State) (es : List Event)
      → srv.has_mongo ≡ true
      → All (IsEventOf C srv user) es
      → (env : Env) (k : ℕ) (room content : String) (me : Client) (p : ℕ)
      → let w = (run C srv es (start store)).world in
        lookup room w.hub.rooms ≡ some p
        → on_send C srv env k room content me w ≡ (
          done tt,
          record w {
            hub =
                told (members p w.hub) (WsPayload.chat me.user_id room (env.clock 0) content) w.hub;
            pending = w.pending ++ room_message env me room content ∷ [];
          },
        )
  unfolding members values
  run-on_send user store es mongo h env k room content me p found =
      let s = run C srv es (start store) in
      let v = run_from-IsServing C srv user es (start store) h (start-IsServing C srv user store) in
      let m = (s.world.hub.room p).clients in
      let live = v.member_live room p found in
      let own = entries-IsOwn user s m v (v.sound.members_named p) live in
      let b = WsPayload.chat me.user_id room (env.clock 0) content in
      on_send_lem C srv env k room content me p s.world mongo found (open_members user s m v live)
      ∙ ap
          (λ g. (
            done tt,
            record s.world {
              hub = g;
              pending = s.world.pending ++ room_message env me room content ∷ [];
            },
          ))
          (sent_to-told user b m s.world.hub own ((run-IsOnce store es).members_once p))
