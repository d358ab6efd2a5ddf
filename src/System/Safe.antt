-- ===== src/System/Safe.antt =====
-- No connection panics, as long as each logs in as one user.
use go_chat_x.Common.{
  ℕ, String, ◌≡◌, ◌≢◌, refl, sym, ap, ◌∙◌, subst, none, some, List, [], ◌∷◌, arith, update, All,
  All-map,
}
use go_chat_x.Go.{Result, done, panic}
use go_chat_x.Go.Ends.{Ends, Ends-bind, Ends-if_some, Ends-pure}
use go_chat_x.Ws.Live.{on_hub-Ends, redis_do-Ends}
use go_chat_x.Protocol.{Frame}
use go_chat_x.Hub.{Client, init, new_room}
use go_chat_x.Hub.Sound.{init-IsSound}
use go_chat_x.Hub.Live.{IsLive, IsLive-map, Holds}
use go_chat_x.Storage.Documents.{Collection}
use go_chat_x.World.{Server, World, Session, Env}
use go_chat_x.Ws.Loop.{on_frame, leave_all, cleanup, run_save}
use go_chat_x.Ws.Frames.{IsFrameOf, After, kept, logged, on_frame-Ends}
use go_chat_x.System.{
  Phase, idle, reading, waiting, crashed, System, Event, connect, frame, hang_up, finish, write,
  save, start, settle, settle_end, step_at, step, run, connection,
}
use go_chat_x.System.Live.{
  is_over, IsOpen, Registered, IsServing, IsServing-IsLive, after_frame, same_session, new_session,
  after_frame-IsServing,
}
use go_chat_x.System.Leave.{leave_all-Others}
use go_chat_x.System.Quiet.{finish-IsServing, connect-IsServing, write-IsServing, save-IsServing}

module _ (C : Collection) (srv : Server) (user : ℕ → String) where
  open C use {State}

  -- The event is no log-in of a connection as another user than its own.
  abbrev pub IsEventOf : Event → Type 0
  IsEventOf (frame k env f) = IsFrameOf srv env (user k) f
  IsEventOf _ = Unit

  settle_done :
      (k : ℕ) (p : Result Session × World State) (sess : Session) (s : System State)
      → p.0 ≡ done sess
      → settle C srv k p s ≡ after_frame k sess p.1 s
  unfolding settle
  settle_done k (done x, w) sess s e = ground arith
  settle_done k (panic, w) sess s e = cc

  settle_end_done :
      (k : ℕ) (p : Result (Unit {0}) × World State) (s : System State)
      → p.0 ≡ done tt
      → settle_end C srv k p s ≡ record s { world = p.1; phase = update s.phase k waiting }
  unfolding settle_end
  settle_end_done k (done x, w) s e = refl
  settle_end_done k (panic, w) s e = cc

  module _ (s : System State) (v : IsServing user s) (k : ℕ) (reads : s.phase k ≡ reading) where
    is_open : IsOpen s k
    unfolding is_over
    is_open = ap is_over reads

    After-IsServing :
        (env : Env) (sess : Session) (w : World State)
        → After C srv env
            (Registered s)
            (record { user_id = user k; conn = k })
            (IsOpen s)
            is_open
            (s.session k)
            sess
            w
        → IsServing user (after_frame k sess w s)
    After-IsServing env sess w (kept e live) =
        after_frame-IsServing user s v k reads sess w (Registered s) live
          (λ c. same_session user s v k reads sess w c e) (λ c f. v.me_user k c (sym e ∙ f))
    After-IsServing env sess w (logged e live) =
        after_frame-IsServing user s v k reads sess w _ live
          (λ c. new_session user s v k reads sess w c e) (λ c f. ground arith)

    held : (c : Client) → (s.session k).me ≡ some c → Registered s c
    held c e =
        subst (Registered s) (sym (v.me_user k c e))
          (record { in_loop = reads; is_me = ground (arith, v.me_user k c) })

    frame-IsServing :
        (env : Env) (f : Frame)
        → IsFrameOf srv env (user k) f
        → IsServing user (settle C srv k (on_frame C srv env k f (s.session k) s.world) s)
    frame-IsServing env f h =
        let c : Client = record { user_id = user k; conn = k } in
        let (sess, r, after) =
          (on_frame-Ends C srv env (Registered s) c (IsOpen s) is_open (s.session k) held f h).at
            s.world (IsServing-IsLive v) in
        let m = on_frame C srv env k f (s.session k) s.world in
        rw (settle_done k m sess s r) (After-IsServing env sess m.1 after)

    -- The clients of other connections.
    abbrev Elsewhere : Client → Type 0
    Elsewhere c = Registered s c × (c.conn ≢ k)

    Elsewhere-IsOpen : (c : Client) → Elsewhere c → IsOpen s c.conn
    unfolding is_over
    Elsewhere-IsOpen c l = ap is_over l.0.in_loop

    away : (c : Client) → Registered s c → c.user_id ≢ user k → Elsewhere c
    away c l other = (l, λ same. other (ground (arith, v.me_user k c, l.is_me)))

    cleanup-Ends :
        (env : Env)
        → Ends
            (λ w. IsLive (Registered s) (IsOpen s) w.hub)
            (cleanup C srv env k (s.session k))
            (λ _ w. IsLive Elsewhere (IsOpen s) w.hub)
    unfolding cleanup
    cleanup-Ends env =
        Ends-if_some (s.session k).me _ _
          (λ c e.
            Ends-bind (λ _ w. IsLive Elsewhere (IsOpen s) w.hub) _ _
              (Ends-bind (λ _ w. IsLive Elsewhere (IsOpen s) w.hub) _ _
                (on_hub-Ends _ (leaves c (v.me_user k c e)))
                (λ _. redis_do-Ends (IsLive Elsewhere (IsOpen s)) srv _))
              (λ _. redis_do-Ends (IsLive Elsewhere (IsOpen s)) srv _))
          (λ e. Ends-pure tt (λ w.
            IsLive-map (Registered s) Elsewhere (IsOpen s)
              (λ c l. (l, λ same. nobody c e (ap (λ j. (s.session j).me) (sym same) ∙ l.is_me)))
              Elsewhere-IsOpen w.hub))
      where
        leaves :
            (c : Client)
            → c ≡ record { user_id = user k; conn = k }
            → Ends
                (IsLive (Registered s) (IsOpen s))
                (leave_all c)
                (λ _. IsLive Elsewhere (IsOpen s))
        leaves c e = record {
          at = λ h live.
              let (g, r, others) = leave_all-Others (Registered s) (IsOpen s) c h live in
              (
                tt,
                ap (λ x. x.0) r,
                rw r (
                    IsLive-map _ Elsewhere (IsOpen s)
                      (λ d l. away d l.0 (λ same. l.1 (same ∙ sym (ap (λ x. x.user_id) e))))
                      Elsewhere-IsOpen g others),
              );
        }

        nobody : (c : Client) → (s.session k).me ≡ none → (s.session k).me ≡ some c → ⊥
        nobody c e f = cc

    waiting-IsServing :
        (w : World State)
        → IsLive Elsewhere (IsOpen s) w.hub
        → IsServing user (record s { world = w; phase = update s.phase k waiting })
    unfolding is_over
    waiting-IsServing w live = record {
      sound = live.sound;
      online_live = All-map (Holds Elsewhere) _ (λ e l. still l) _ live.online_live;
      member_live =
          λ r p e. All-map (Holds Elsewhere) _ (λ e l. still l) _ (live.member_live r p e);
      open_chan = λ j o. live.open_all j (was_open j o);
      me_user = v.me_user;
      no_crash = λ j e. ground (arith, v.no_crash j);
    }
      where
        s'' : System State
        s'' = record s { world = w; phase = update s.phase k waiting }

        still : {c : Client} → Elsewhere c → Registered s'' c
        still {c} l = record { in_loop = ground (arith, l.0.in_loop, l.1); is_me = l.0.is_me }

        was_open : (j : ℕ) → IsOpen s'' j → IsOpen s j
        was_open j o = ground (arith, is_open)

    hang_up-IsServing :
        (env : Env)
        → IsServing user (settle_end C srv k (cleanup C srv env k (s.session k) s.world) s)
    hang_up-IsServing env =
        let m = cleanup C srv env k (s.session k) s.world in
        let (_, r, live) = (cleanup-Ends env).at s.world (IsServing-IsLive v) in
        rw (settle_end_done k m s r) (waiting-IsServing m.1 live)

  pub step-IsServing :
      (e : Event) (s : System State) (p : Phase)
      → s.phase (connection C srv e) ≡ p
      → IsEventOf e
      → IsServing user s
      → IsServing user (step_at C srv e p s)
  unfolding step_at run_save connection
  step-IsServing (connect k) s idle at h v = connect-IsServing C srv user s k v at
  step-IsServing (frame k env f) s reading at h v = frame-IsServing s v k at env f h
  step-IsServing (hang_up k env) s reading at h v = hang_up-IsServing s v k at env
  step-IsServing (finish k) s waiting at h v = finish-IsServing C srv user s k v at
  step-IsServing (write k fails) s _ at h v = write-IsServing C srv user s k fails (s.writing k) v
  step-IsServing (save now i) s _ at h v = save-IsServing C srv user s now _ v
  step-IsServing _ s _ at h v = v

  pub run_from-IsServing :
      (es : List Event) (s : System State)
      → All IsEventOf es
      → IsServing user s
      → IsServing user (run C srv es s)
  unfolding run step
  run_from-IsServing [] s h v = v
  run_from-IsServing (e ∷ es) s h v = run_from-IsServing es _ h.1 (step-IsServing e s _ refl h.0 v)

  pub start-IsServing : (store : State) → IsServing user (start store)
  unfolding start init new_room is_over
  start-IsServing store = record {
    sound = init-IsSound;
    online_live = tt;
    member_live = λ r p e. tt;
    open_chan = λ j o. refl;
    me_user = λ j c e. cc;
    no_crash = λ j e. cc;
  }

  -- If every connection logs in as one user at most, then, whatever else the connections send and
  -- the services answer and in every order of events that run whole, no send meets a closed
  -- channel: no handler panics.
  pub run-ne-crashed :
      (store : State) (es : List Event)
      → All IsEventOf es
      → (k : ℕ) → (run C srv es (start store)).phase k ≢ crashed
  run-ne-crashed store es h =
      (run_from-IsServing es (start store) h (start-IsServing store)).no_crash
