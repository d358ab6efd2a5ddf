-- ===== src/Hub/Leads.antt =====
-- A channel only grows at its end, but for what the write goroutine takes out at its front.
use mathlib.Core.List.{append_assoc}
use go_chat_x.Common.{
  ℕ, String, ◌≡◌, refl, ap, ◌∙◌, false, Option, none, some, List, [], ◌∷◌, ◌++◌, arith, eqb, inl,
  inr, Bool-cases, length, ltb,
}
use go_chat_x.GoMap.{lookup}
use go_chat_x.Go.{modify}
use go_chat_x.Go.Keeps.{Keeps}
use go_chat_x.Protocol.{WsPayload}
use go_chat_x.Hub.{
  Chan, Hub, chan_size, offer, try_send, close_conn, close_chan, register_online, unregister_online,
  set_clients, add_client, remove_client, allocate_room, drop_if_empty, remove_empty_room,
}
use go_chat_x.Hub.Lemmas.{sent, try_send_open, try_send_closed}
use go_chat_x.Hub.Rules.{HubRules, finds_of}
use go_chat_x.Ws.Loop.{write_next}

-- The channel `k` holds `b`, and then what came later.
pub record Leads (k : ℕ) (b : List WsPayload) (h : Hub) : Type 0 where
  pub later : List WsPayload
  pub split : (h.chan k).buf ≡ b ++ later

-- A function that leaves the channels alone.
same_chan : (k : ℕ) (b : List WsPayload) (h g : Hub) → g.chan ≡ h.chan → Leads k b h → Leads k b g
same_chan k b h g e v = record { later = v.later; split = ap (λ c. (c k).buf) e ∙ v.split }

-- An offer only appends.
offer-Leads :
    (p : WsPayload) (c : Chan) (b more : List WsPayload)
    → c.buf ≡ b ++ more
    → (later : List WsPayload) × ((offer p c).buf ≡ b ++ later)
unfolding offer
offer-Leads p c b more e = elim (Bool-cases (ltb (length c.buf) chan_size)) [
  | inl room ↦ (more ++ p ∷ [], rw room (ap (λ x. x ++ p ∷ []) e ∙ append_assoc b more (p ∷ [])))
  | inr full ↦ (more, rw full e)
]

module _ (k : ℕ) (b : List WsPayload) where
  pub sent-Leads : (j : ℕ) (p : WsPayload) (h : Hub) → Leads k b h → Leads k b (sent j p h)
  unfolding sent
  sent-Leads j p h v = elim (Bool-cases (eqb j k)) [
    | inl same ↦
        let at_j : (h.chan j).buf ≡ b ++ v.later = ground (arith, v.split) in
        let (more, split) = offer-Leads p (h.chan j) b v.later at_j in
        record { later = more; split = ground (arith, split) }
    | inr other ↦ record { later = v.later; split = ground (arith, v.split) }
  ]

  try_send-Leads : (j : ℕ) (p : WsPayload) → Keeps (Leads k b) (try_send j p)
  try_send-Leads j p = record {
    at = λ h v. elim (Bool-cases (h.chan j).closed) [
      | inl shut ↦ rw (try_send_closed j p h shut) v
      | inr fine ↦ rw (try_send_open j p h fine) (sent-Leads j p h v)
    ];
  }

  close_chan-Leads : (j : ℕ) → Keeps (Leads k b) (close_chan j)
  unfolding close_chan modify
  close_chan-Leads j = record {
    at = λ h v. record { later = v.later; split = ground (arith, v.split) };
  }

  drop_if_empty-chan : (r : String) (o : Option ℕ) (h : Hub) → (drop_if_empty r o h).chan ≡ h.chan
  unfolding drop_if_empty
  drop_if_empty-chan r none h = refl
  drop_if_empty-chan r (some p) h = ground arith

  pub Leads-HubRules : HubRules (Leads k b)
  unfolding close_conn register_online unregister_online set_clients add_client remove_client
      allocate_room remove_empty_room modify
  Leads-HubRules = record {
    quietly = record {
      sends = try_send-Leads;
      shuts = λ j. record { at = λ h v. same_chan k b h _ refl v };
      closes = close_chan-Leads;
      finds = finds_of (λ r. record { at = λ h v. same_chan k b h _ refl v });
      drops = λ r. record {
        at = λ h v. same_chan k b h _ (drop_if_empty-chan r (lookup r h.rooms) h) v;
      };
    };
    registers = λ c. record { at = λ h v. same_chan k b h _ refl v };
    unregisters = λ u. record { at = λ h v. same_chan k b h _ refl v };
    adds = λ p c. record { at = λ h v. same_chan k b h _ refl v };
    removes = λ p c. record { at = λ h v. same_chan k b h _ refl v };
  }

  pub write_other-Leads : (j : ℕ) → eqb j k ≡ false → Keeps (Leads k b) (write_next j)
  unfolding write_next modify
  write_other-Leads j other = record {
    at = λ h v. record { later = v.later; split = rw other v.split };
  }
