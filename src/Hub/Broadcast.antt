-- ===== src/Hub/Broadcast.antt =====
-- What a broadcast puts into the channels, and when it panics.
use mathlib.Core.Path.{fun_ext}
use go_chat_x.Common.{
  ℕ, zero, suc, ◌≡◌, refl, sym, ap, ◌∙◌, ◌↔◌, inl, inr, false, List, [], ◌∷◌, arith, eqb, All,
  Bool-cases, if◌then◌else◌,
}
use go_chat_x.Go.{done, pure, gets, for_each, bind_done, bind_panic}
use go_chat_x.Protocol.{WsPayload}
use go_chat_x.Hub.{Client, Chan, Hub, offer, try_send, members, broadcast}
use go_chat_x.Hub.Lemmas.{sent, sent-closed, try_send_open, try_send_closed}

-- How many of the clients send through the channel `j`.
unfoldable pub copies : ℕ → List Client → ℕ
copies j [] = 0
copies j (c ∷ cs) = let rest = copies j cs in if eqb c.conn j then suc rest else rest

-- A payload offered `n` times.
unfoldable pub offers : ℕ → WsPayload → Chan → Chan
offers zero b c = c
offers (suc n) b c = offers n b (offer b c)

unfoldable pub sent_to : List Client → WsPayload → Hub → Hub
sent_to cs b h = record h { chan = λ j. offers (copies j cs) b (h.chan j) }

abbrev pub IsOpenIn : Hub → Client → Type 0
IsOpenIn h c = (h.chan c.conn).closed ≡ false

sent-All :
    (k : ℕ) (b : WsPayload) (h : Hub) (cs : List Client)
    → All (IsOpenIn h) cs
    → All (IsOpenIn (sent k b h)) cs
sent-All k b h [] a = tt
sent-All k b h (c ∷ cs) a = (sent-closed k c.conn b h ∙ a.0, sent-All k b h cs a.1)

sent_to-cons :
    (c : Client) (cs : List Client) (b : WsPayload) (h : Hub)
    → sent_to cs b (sent c.conn b h) ≡ sent_to (c ∷ cs) b h
unfolding sent_to sent copies offers
sent_to-cons c cs b h = λ i. record h { chan = fun_ext (λ j. at j) i }
  where
    at :
        (j : ℕ)
        → offers (copies j cs) b ((sent c.conn b h).chan j)
          ≡ offers (copies j (c ∷ cs)) b (h.chan j)
    at j = ground arith

sends_lem :
    (cs : List Client) (b : WsPayload) (h : Hub)
    → All (IsOpenIn h) cs
    → for_each cs (λ c. try_send c.conn b) h ≡ (done tt, sent_to cs b h)
unfolding for_each pure sent_to copies offers
sends_lem [] b h a = refl
sends_lem (c ∷ cs) b h a =
    bind_done _ _ h _ tt (try_send_open c.conn b h a.0)
    ∙ sends_lem cs b _ (sent-All c.conn b h cs a.1)
    ∙ ap (λ g. (done tt, g)) (unfold sent_to in sent_to-cons c cs b h)

-- If every member's channel is open, a broadcast ends, and changes the channels only: each one is
-- offered the payload once for each member that sends through it.
pub broadcast_lem :
    (p : ℕ) (b : WsPayload) (h : Hub)
    → All (IsOpenIn h) (members p h)
    → broadcast p b h ≡ (done tt, sent_to (members p h) b h)
unfolding broadcast gets
broadcast_lem p b h a = sends_lem (members p h) b h a

sent-All_iff :
    (k : ℕ) (b : WsPayload) (h : Hub) (cs : List Client)
    → All (IsOpenIn (sent k b h)) cs
    → All (IsOpenIn h) cs
sent-All_iff k b h [] a = tt
sent-All_iff k b h (c ∷ cs) a = (sym (sent-closed k c.conn b h) ∙ a.0, sent-All_iff k b h cs a.1)

open_of_done :
    (cs : List Client) (b : WsPayload) (h : Hub)
    → (for_each cs (λ c. try_send c.conn b) h).0 ≡ done tt
    → All (IsOpenIn h) cs
unfolding for_each
open_of_done [] b h e = tt
open_of_done (c ∷ cs) b h e = elim (Bool-cases (h.chan c.conn).closed) [
  | inl shut ↦ absurd (
      cc (
        e,
        ap (λ r. r.0)
            (bind_panic (try_send c.conn b) (λ _. for_each cs (λ x. try_send x.conn b)) h h
              (try_send_closed c.conn b h shut)),
      ))
  | inr fine ↦
      let next =
        bind_done (try_send c.conn b) (λ _. for_each cs (λ x. try_send x.conn b)) h _ tt
          (try_send_open c.conn b h fine) in
      (fine, sent-All_iff c.conn b h cs (open_of_done cs b _ (sym (ap (λ r. r.0) next) ∙ e)))
]

-- A broadcast ends without a panic exactly when every member's channel is open.
pub broadcast-eq-done_iff :
    (p : ℕ) (b : WsPayload) (h : Hub)
    → ((broadcast p b h).0 ≡ done tt) ↔ All (IsOpenIn h) (members p h)
unfolding broadcast gets
broadcast-eq-done_iff p b h =
    (open_of_done (members p h) b h, λ a. ap (λ r. r.0) (sends_lem (members p h) b h a))
