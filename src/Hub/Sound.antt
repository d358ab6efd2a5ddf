-- ===== src/Hub/Sound.antt =====
-- The state that the maps and the send channels stay in: every entry stands under its own name, and
-- no channel holds more than its buffer.
use go_chat_x.Common.{
  ℕ, ◌≤◌, ◌<◌, String, ◌≡◌, refl, Option, none, some, [], ◌∷◌, arith, length, length-append, eq_iff,
  Bool-cases, inl, inr, All, eqb,
}
use go_chat_x.GoMap.{GoMap, lookup}
use go_chat_x.GoMap.Laws.{lookup-insert, lookup-delete, lookup-nil, All-insert, All-delete}
use go_chat_x.Go.{modify, panics}
use go_chat_x.Go.Keeps.{Keeps}
use go_chat_x.Protocol.{WsPayload}
use go_chat_x.Hub.Rules.{HubRules, finds_of}
use go_chat_x.Hub.{
  Client, Chan, Hub, chan_size, new_room, init, offer, try_send, close_conn, close_chan,
  register_online, unregister_online, set_clients, add_client, remove_client, allocate_room,
  is_empty, drop_if_empty, remove_empty_room,
}

-- Each client stands under its own user ID.
abbrev pub IsNamed : String × Client → Type 0
IsNamed e = e.1.user_id ≡ e.0

abbrev pub AreNamed : GoMap Client → Type 0
AreNamed m = All IsNamed m

pub record IsSound (h : Hub) : Type 0 where
  pub online_named : AreNamed h.online
  pub members_named : (p : ℕ) → AreNamed (h.room p).clients
  pub room_named : (r : String) (p : ℕ) → lookup r h.rooms ≡ some p → (h.room p).id ≡ r
  pub room_old : (r : String) (p : ℕ) → lookup r h.rooms ≡ some p → p < h.fresh
  pub fits : (k : ℕ) → length (h.chan k).buf ≤ chan_size

offer_fits :
    (b : WsPayload) (c : Chan) → length c.buf ≤ chan_size → length (offer b c).buf ≤ chan_size
unfolding offer
offer_fits b c h = ground (arith, length-append c.buf (b ∷ []))

pub init-IsSound : IsSound init
unfolding init new_room
init-IsSound = record {
  online_named = tt;
  members_named = λ p. tt;
  room_named = λ r p e. cc (lookup-nil {V = ℕ} r);
  room_old = λ r p e. absurd (cc (lookup-nil {V = ℕ} r));
  fits = λ k. omega arith;
}

pub try_send-IsSound : (k : ℕ) (b : WsPayload) → Keeps IsSound (try_send k b)
unfolding try_send modify panics
try_send-IsSound k b = record {
  at = λ h v. elim (Bool-cases (h.chan k).closed) [
    | inl e ↦ rw (e, try_send) v
    | inr e ↦
        rw (e, try_send)
          (record {
            online_named = v.online_named;
            members_named = v.members_named;
            room_named = v.room_named;
            room_old = v.room_old;
            fits = λ j. ground (arith, v.fits j, v.fits k, offer_fits b (h.chan k));
          })
  ];
}

pub close_conn-IsSound : (k : ℕ) → Keeps IsSound (close_conn k)
unfolding close_conn modify
close_conn-IsSound k = record {
  at = λ h v. record {
    online_named = v.online_named;
    members_named = v.members_named;
    room_named = v.room_named;
    room_old = v.room_old;
    fits = v.fits;
  };
}

pub close_chan-IsSound : (k : ℕ) → Keeps IsSound (close_chan k)
unfolding close_chan modify
close_chan-IsSound k = record {
  at = λ h v. record {
    online_named = v.online_named;
    members_named = v.members_named;
    room_named = v.room_named;
    room_old = v.room_old;
    fits = λ j. ground (arith, v.fits j, v.fits k);
  };
}

pub register_online-IsSound : (c : Client) → Keeps IsSound (register_online c.user_id c)
unfolding register_online modify
register_online-IsSound c = record {
  at = λ h v. record {
    online_named = All-insert IsNamed c.user_id c h.online refl v.online_named;
    members_named = v.members_named;
    room_named = v.room_named;
    room_old = v.room_old;
    fits = v.fits;
  };
}

pub unregister_online-IsSound : (u : String) → Keeps IsSound (unregister_online u)
unfolding unregister_online modify
unregister_online-IsSound u = record {
  at = λ h v. record {
    online_named = All-delete IsNamed u h.online v.online_named;
    members_named = v.members_named;
    room_named = v.room_named;
    room_old = v.room_old;
    fits = v.fits;
  };
}

set_clients-IsSound :
    (p : ℕ) (m : GoMap Client) (h : Hub) → AreNamed m → IsSound h → IsSound (set_clients p m h)
unfolding set_clients
set_clients-IsSound p m h named v = record {
  online_named = v.online_named;
  members_named = λ q. elim (Bool-cases (eqb p q)) [
    | inl same ↦ rw same named
    | inr other ↦ rw other (v.members_named q)
  ];
  room_named = λ r q e. ground (arith, v.room_named r q e);
  room_old = v.room_old;
  fits = v.fits;
}

pub add_client-IsSound : (p : ℕ) (c : Client) → Keeps IsSound (add_client p c)
unfolding add_client modify
add_client-IsSound p c = record {
  at = λ h v.
      set_clients-IsSound p _ h
        (All-insert IsNamed c.user_id c (h.room p).clients refl (v.members_named p)) v;
}

pub remove_client-IsSound : (p : ℕ) (c : Client) → Keeps IsSound (remove_client p c)
unfolding remove_client modify
remove_client-IsSound p c = record {
  at = λ h v.
      set_clients-IsSound p _ h
        (All-delete IsNamed c.user_id (h.room p).clients (v.members_named p)) v;
}

pub allocate_room-IsSound : (r : String) → Keeps IsSound (allocate_room r)
unfolding allocate_room new_room
allocate_room-IsSound r = record {
  at = λ h v. record {
    online_named = v.online_named;
    members_named = λ q. elim (Bool-cases (eqb h.fresh q)) [
      | inl same ↦ rw same tt
      | inr other ↦ rw other (v.members_named q)
    ];
    room_named = λ s q e.
        ground
          (arith, lookup-insert r s h.fresh h.rooms, eq_iff r s, v.room_named s q, v.room_old s q);
    room_old = λ s q e. ground (arith, lookup-insert r s h.fresh h.rooms, v.room_old s q);
    fits = v.fits;
  };
}

drop_if_empty-IsSound :
    (r : String) (o : Option ℕ) (h : Hub) → IsSound h → IsSound (drop_if_empty r o h)
unfolding drop_if_empty
drop_if_empty-IsSound r none h v = v
drop_if_empty-IsSound r (some p) h v = elim (Bool-cases (is_empty (h.room p).clients)) [
  | inl e ↦
      rw (e, drop_if_empty)
        (record {
          online_named = v.online_named;
          members_named = v.members_named;
          room_named = λ s q found. v.room_named s q (ground (arith, lookup-delete r s h.rooms));
          room_old = λ s q found. ground (arith, lookup-delete r s h.rooms, v.room_old s q);
          fits = v.fits;
        })
  | inr e ↦ rw (e, drop_if_empty) v
]

pub remove_empty_room-IsSound : (r : String) → Keeps IsSound (remove_empty_room r)
unfolding remove_empty_room modify
remove_empty_room-IsSound r = record { at = λ h v. drop_if_empty-IsSound r (lookup r h.rooms) h v }

pub IsSound-HubRules : HubRules IsSound
IsSound-HubRules = record {
  quietly = record {
    sends = try_send-IsSound;
    shuts = close_conn-IsSound;
    closes = close_chan-IsSound;
    finds = finds_of allocate_room-IsSound;
    drops = remove_empty_room-IsSound;
  };
  registers = register_online-IsSound;
  unregisters = unregister_online-IsSound;
  adds = add_client-IsSound;
  removes = remove_client-IsSound;
}
