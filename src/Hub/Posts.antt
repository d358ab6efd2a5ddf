-- ===== src/Hub/Posts.antt =====
-- Payloads that fit into an open channel go in one after the other, in order.
use mathlib.Core.Path.{fun_ext}
use mathlib.Core.List.{append-nil, append_assoc}
use go_chat_x.Common.{
  ℕ, ◌+◌, ◌≤◌, ◌≡◌, List, [], ◌∷◌, ◌++◌, arith, length, length-append, ltb, update,
}
use go_chat_x.Protocol.{WsPayload}
use go_chat_x.Hub.{Chan, Hub, chan_size, offer}
use go_chat_x.Hub.Lemmas.{sent}

-- The payloads stand at the end of the channel `k`.
unfoldable pub posted : ℕ → List WsPayload → Hub → Hub
posted k bs h = record h {
  chan = update h.chan k (record (h.chan k) { buf = (h.chan k).buf ++ bs });
}

abbrev pub Fits : ℕ → List WsPayload → Hub → Type 0
Fits k bs h = length (h.chan k).buf + length bs ≤ chan_size

same_chans :
    (h : Hub) (f g : ℕ → Chan)
    → ((j : ℕ) → f j ≡ g j)
    → record h { chan = f } ≡ record h { chan = g }
same_chans h f g e = λ i. record h { chan = fun_ext e i }

pub posted-nil : (k : ℕ) (h : Hub) → posted k [] h ≡ h
unfolding posted
posted-nil k h = same_chans h _ h.chan (λ j. ground (arith, append-nil (h.chan k).buf))

pub posted-closed :
    (k : ℕ) (bs : List WsPayload) (h : Hub) → ((posted k bs h).chan k).closed ≡ (h.chan k).closed
unfolding posted
posted-closed k bs h = ground arith

pub sent-posted :
    (k : ℕ) (b : WsPayload) (h : Hub) → Fits k (b ∷ []) h → sent k b h ≡ posted k (b ∷ []) h
unfolding sent posted offer
sent-posted k b h fits = same_chans h _ _ (λ j. ground (arith, ltb, fits))

pub posted-append :
    (k : ℕ) (cs bs : List WsPayload) (h : Hub) → posted k bs (posted k cs h) ≡ posted k (cs ++ bs) h
unfolding posted
posted-append k cs bs h = same_chans h _ _ (λ j. ground (arith, append_assoc (h.chan k).buf cs bs))

pub posted-Fits :
    (k : ℕ) (cs bs : List WsPayload) (h : Hub) → Fits k (cs ++ bs) h → Fits k bs (posted k cs h)
unfolding posted
posted-Fits k cs bs h fits = ground (arith, length-append (h.chan k).buf cs, length-append cs bs)

pub posted-buf :
    (k : ℕ) (bs : List WsPayload) (h : Hub) → ((posted k bs h).chan k).buf ≡ (h.chan k).buf ++ bs
unfolding posted
posted-buf k bs h = ground arith
