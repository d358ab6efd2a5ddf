-- ===== src/System/Live.antt =====
-- What keeps the gateway free of panics while every connection logs in as one user: the clients of
-- the maps are those of connections that are still in their read loop.
use go_chat_x.Common.{
  ℕ, String, ◌≡◌, ◌≢◌, sym, ap, subst, inl, inr, Bool, true, false, some, arith, eqb, update,
  All-map, Bool-cases,
}
use go_chat_x.GoMap.{lookup}
use go_chat_x.Hub.{Client}
use go_chat_x.Hub.Sound.{IsSound}
use go_chat_x.Hub.Live.{IsLive, Holds, AreLive}
use go_chat_x.World.{World, Session}
use go_chat_x.Ws.Frames.{OrNew}
use go_chat_x.System.{Phase, reading, ended, crashed, System}

unfoldable pub is_over : Phase → Bool
is_over ended = true
is_over crashed = true
is_over _ = false

module _ {S : Type 0} where
  -- The connection has not ended.
  abbrev pub IsOpen : System S → ℕ → Type 0
  IsOpen s k = is_over (s.phase k) ≡ false

  -- The client of a connection that is in its read loop.
  pub record Registered (s : System S) (c : Client) : Type 0 where
    pub in_loop : s.phase c.conn ≡ reading
    pub is_me : (s.session c.conn).me ≡ some c

  -- `user k` is the one user that the connection `k` may log in as.
  pub record IsServing (user : ℕ → String) (s : System S) : Type 0 where
    pub sound : IsSound s.world.hub
    pub online_live : AreLive (Registered s) s.world.hub.online
    pub member_live :
        (r : String) (p : ℕ)
        → lookup r s.world.hub.rooms ≡ some p
        → AreLive (Registered s) (s.world.hub.room p).clients
    pub open_chan : (k : ℕ) → IsOpen s k → (s.world.hub.chan k).closed ≡ false
    pub me_user :
        (k : ℕ) (c : Client) → (s.session k).me ≡ some c → c ≡ record { user_id = user k; conn = k }
    pub no_crash : (k : ℕ) → s.phase k ≢ crashed

  module _ {user : ℕ → String} {s : System S} (v : IsServing user s) where
    reading_open : (k : ℕ) → s.phase k ≡ reading → (s.world.hub.chan k).closed ≡ false
    unfolding is_over
    reading_open k e = v.open_chan k (ap is_over e)

    pub IsServing-IsLive : IsLive (Registered s) (IsOpen s) s.world.hub
    IsServing-IsLive = record {
      sound = v.sound;
      online_live = v.online_live;
      member_live = v.member_live;
      open_live = λ c l. reading_open c.conn l.in_loop;
      open_all = v.open_chan;
    }

-- The state after a frame of the connection `k`.
abbrev pub after_frame : {S : Type 0} → ℕ → Session → World S → System S → System S
after_frame k sess w s = record s { world = w; session = update s.session k sess }

module _ {S : Type 0} (user : ℕ → String) (s : System S) (v : IsServing user s) (k : ℕ)
    (reads : s.phase k ≡ reading) (sess : Session) (w : World S) where
  abbrev pub me : Client
  me = record { user_id = user k; conn = k }

  abbrev pub s' : System S
  s' = after_frame k sess w s

  pub same_session : (c : Client) → sess.me ≡ (s.session k).me → Registered s c → Registered s' c
  same_session c e l = record { in_loop = l.in_loop; is_me = ground (arith, l.is_me) }

  pub new_session : (c : Client) → sess.me ≡ some me → OrNew (Registered s) me c → Registered s' c
  new_session c e (inl l) = record {
    in_loop = l.in_loop;
    is_me = elim (Bool-cases (eqb k c.conn)) [
      | inl same ↦ rw same (ground (arith, v.me_user k c, l.is_me))
      | inr other ↦ rw other l.is_me
    ];
  }
  new_session c e (inr new) =
      subst (Registered s') (sym new) (record { in_loop = reads; is_me = ground (arith, e) })

  pub after_frame-IsServing :
      (L : Client → Type 0)
      → IsLive L (IsOpen s) w.hub
      → ((c : Client) → L c → Registered s' c)
      → ((c : Client) → sess.me ≡ some c → c ≡ me)
      → IsServing user s'
  after_frame-IsServing L live reg mine = record {
    sound = live.sound;
    online_live = All-map (Holds L) (Holds (Registered s')) (λ e. reg e.1) _ live.online_live;
    member_live = λ r p e.
        All-map (Holds L) (Holds (Registered s')) (λ e. reg e.1) _ (live.member_live r p e);
    open_chan = live.open_all;
    me_user = λ j c e. ground (arith, mine c, v.me_user j c);
    no_crash = v.no_crash;
  }
