-- ===== src/Ws/Ids.antt =====
-- The IDs that messages are saved under, which MongoDB keeps unique.
use Prim.Native.String.{◌++◌, len}
use text.Mathlib.TextLemmas.{append_cancel_left}
use text.Mathlib.TextPositions.{len-append}
use go_chat_x.Common.{ℕ, ◌<◌, String, ◌≡◌, sym, ap, ◌∙◌, arith, eq_iff}
use go_chat_x.Text.{itoa, four_digits}
use go_chat_x.Text.Reads.{read, read-itoa, read-four_digits, append_inj_of_len, len-four_digits}
use go_chat_x.Message.{ChatMessage}
use go_chat_x.Storage.{with_id}
use go_chat_x.Hub.{Client}
use go_chat_x.World.{Env}
use go_chat_x.Ws.Chat.{room_message}

-- A numeral before an underscore, and what follows, are told from each other.
stamp_inj :
    (n m : ℕ) (s t : String) → itoa n ++ ("_" ++ s) ≡ itoa m ++ ("_" ++ t) → (n ≡ m) × (s ≡ t)
stamp_inj n m s t e =
    let same = sym (read-itoa n s) ∙ ap (read 0) e ∙ read-itoa m t in
    (ap (λ r. r.0) same, append_cancel_left "_" s t (ap (λ r. r.1) same))

four_digits_inj : (a b : ℕ) → a < 10000 → b < 10000 → four_digits a ≡ four_digits b → a ≡ b
four_digits_inj a b ha hb e =
    ap (λ r. r.0) (sym (read-four_digits a ha) ∙ ap (read 0) e ∙ read-four_digits b hb)

-- A user's name and a random number of four digits are told from each other.
signed_inj :
    (u v : String) (a b : ℕ)
    → a < 10000
    → b < 10000
    → u ++ ("_" ++ four_digits a) ≡ v ++ ("_" ++ four_digits b)
    → (u ≡ v) × (a ≡ b)
signed_inj u v a b ha hb e =
    let lens : len ("_" ++ four_digits a) ≡ len ("_" ++ four_digits b) = omega (
      arith,
      len-append "_" (four_digits a),
      len-append "_" (four_digits b),
      len-four_digits a ha,
      len-four_digits b hb,
    ) in
    let (uv, ends) = append_inj_of_len u v _ _ lens e in
    (uv, four_digits_inj a b ha hb (append_cancel_left "_" _ _ ends))

-- Two messages to rooms are saved under one ID only if the same user has sent them in the same
-- millisecond and the random numbers, below 10000, were the same.
pub room_message-id_inj :
    (env env' : Env) (me me' : Client) (room room' content content' : String)
    → env.random < 10000
    → env'.random < 10000
    → (room_message env me room content).id ≡ (room_message env' me' room' content').id
    → (env.clock 1 ≡ env'.clock 1) × (me.user_id ≡ me'.user_id) × (env.random ≡ env'.random)
unfolding room_message
room_message-id_inj env env' me me' room room' content content' h h' e =
    let (at, rest) = stamp_inj (env.clock 1) (env'.clock 1) _ _ e in
    let (who, random) = signed_inj me.user_id me'.user_id env.random env'.random h h' rest in
    (at, who, random)

generated :
    (now : ℕ) (m : ChatMessage) → m.id ≡ "" → (with_id now m).id ≡ itoa now ++ ("_" ++ m.from)
unfolding with_id
generated now m blank = ground (arith, eq_iff m.id "", blank)

-- Two messages that reach SaveMessage without an ID get one ID only if the same user has sent them
-- and they are saved in the same nanosecond.
pub with_id_inj :
    (now now' : ℕ) (m m' : ChatMessage)
    → m.id ≡ ""
    → m'.id ≡ ""
    → (with_id now m).id ≡ (with_id now' m').id
    → (now ≡ now') × (m.from ≡ m'.from)
with_id_inj now now' m m' blank blank' e =
    stamp_inj now now' m.from m'.from (sym (generated now m blank) ∙ e ∙ generated now' m' blank')
