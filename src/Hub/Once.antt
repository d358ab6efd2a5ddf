-- ===== src/Hub/Once.antt =====
-- Nobody is listed twice: in a map that the handlers keep, every key stands once.
use go_chat_x.Common.{ℕ, String, Bool, Option, none, some, eqb, Bool-cases, inl, inr}
use go_chat_x.GoMap.{GoMap, lookup, keys}
use go_chat_x.GoMap.Distinct.{Distinct, keys-insert-Distinct, keys-delete-Distinct}
use go_chat_x.Go.{modify, panics}
use go_chat_x.Go.Keeps.{Keeps}
use go_chat_x.Protocol.{WsPayload}
use go_chat_x.Hub.{
  Client, Chan, Hub, new_room, init, try_send, close_conn, close_chan, register_online,
  unregister_online, set_clients, add_client, remove_client, allocate_room, is_empty, drop_if_empty,
  remove_empty_room,
}
use go_chat_x.Hub.Rules.{HubRules, finds_of}

pub record IsOnce (h : Hub) : Type 0 where
  pub online_once : Distinct (keys h.online)
  pub rooms_once : Distinct (keys h.rooms)
  pub members_once : (p : ℕ) → Distinct (keys (h.room p).clients)

pub init-IsOnce : IsOnce init
unfolding init new_room keys
init-IsOnce = record { online_once = tt; rooms_once = tt; members_once = λ p. tt }

try_send-IsOnce : (k : ℕ) (b : WsPayload) → Keeps IsOnce (try_send k b)
unfolding try_send modify panics
try_send-IsOnce k b = record {
  at = λ h v. elim (Bool-cases (h.chan k).closed) [
    | inl e ↦ rw (e, try_send) v
    | inr e ↦
        rw (e, try_send)
          (record {
            online_once = v.online_once;
            rooms_once = v.rooms_once;
            members_once = v.members_once;
          })
  ];
}

set_clients-IsOnce :
    (p : ℕ) (m : GoMap Client) (h : Hub) → Distinct (keys m) → IsOnce h → IsOnce (set_clients p m h)
unfolding set_clients
set_clients-IsOnce p m h d v = record {
  online_once = v.online_once;
  rooms_once = v.rooms_once;
  members_once = λ q. elim (Bool-cases (eqb p q)) [
    | inl same ↦ rw same d
    | inr other ↦ rw other (v.members_once q)
  ];
}

add_client-IsOnce : (p : ℕ) (c : Client) → Keeps IsOnce (add_client p c)
unfolding add_client modify
add_client-IsOnce p c = record {
  at = λ h v. set_clients-IsOnce p _ h (keys-insert-Distinct c.user_id c _ (v.members_once p)) v;
}

remove_client-IsOnce : (p : ℕ) (c : Client) → Keeps IsOnce (remove_client p c)
unfolding remove_client modify
remove_client-IsOnce p c = record {
  at = λ h v. set_clients-IsOnce p _ h (keys-delete-Distinct c.user_id _ (v.members_once p)) v;
}

allocate_room-IsOnce : (r : String) → Keeps IsOnce (allocate_room r)
unfolding allocate_room new_room keys
allocate_room-IsOnce r = record {
  at = λ h v. record {
    online_once = v.online_once;
    rooms_once = keys-insert-Distinct r h.fresh h.rooms v.rooms_once;
    members_once = λ q. elim (Bool-cases (eqb h.fresh q)) [
      | inl same ↦ rw same tt
      | inr other ↦ rw other (v.members_once q)
    ];
  };
}

drop_if_empty-IsOnce :
    (r : String) (o : Option ℕ) (h : Hub) → IsOnce h → IsOnce (drop_if_empty r o h)
unfolding drop_if_empty
drop_if_empty-IsOnce r none h v = v
drop_if_empty-IsOnce r (some p) h v = elim (Bool-cases (is_empty (h.room p).clients)) [
  | inl e ↦
      rw (e, drop_if_empty)
        (record {
          online_once = v.online_once;
          rooms_once = keys-delete-Distinct r h.rooms v.rooms_once;
          members_once = v.members_once;
        })
  | inr e ↦ rw (e, drop_if_empty) v
]

pub IsOnce-HubRules : HubRules IsOnce
unfolding close_conn close_chan register_online unregister_online remove_empty_room modify
IsOnce-HubRules = record {
  quietly = record {
    sends = try_send-IsOnce;
    shuts = λ k. record { at = λ h v. same_maps h v };
    closes = λ k. record { at = λ h v. same_maps h v };
    finds = finds_of allocate_room-IsOnce;
    drops = λ r. record { at = λ h v. drop_if_empty-IsOnce r (lookup r h.rooms) h v };
  };
  registers = λ c. record {
    at = λ h v. record {
      online_once = keys-insert-Distinct c.user_id c h.online v.online_once;
      rooms_once = v.rooms_once;
      members_once = v.members_once;
    };
  };
  unregisters = λ u. record {
    at = λ h v. record {
      online_once = keys-delete-Distinct u h.online v.online_once;
      rooms_once = v.rooms_once;
      members_once = v.members_once;
    };
  };
  adds = add_client-IsOnce;
  removes = remove_client-IsOnce;
}
  where
    same_maps :
        {chan' : ℕ → Chan} {shut' : ℕ → Bool} (h : Hub)
        → IsOnce h
        → IsOnce (record h { chan = chan'; shut = shut' })
    same_maps h v = record {
      online_once = v.online_once;
      rooms_once = v.rooms_once;
      members_once = v.members_once;
    }
