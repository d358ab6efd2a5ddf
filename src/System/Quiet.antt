-- ===== src/System/Quiet.antt =====
-- Opening a connection, ending a handler, and the writing and saving goroutines keep what the
-- connections that are served rely on.
use go_chat_x.Common.{
  Bool, true, false, ℕ, String, ◌≡◌, Option, none, some, List, arith, update, All-map,
}
use go_chat_x.Go.{modify, ◌>>=◌}
use go_chat_x.Message.{ChatMessage}
use go_chat_x.Hub.{Client, close_chan, close_conn}
use go_chat_x.Hub.Live.{Holds}
use go_chat_x.Storage.Documents.{Collection}
use go_chat_x.World.{Server, no_session, on_hub}
use go_chat_x.Ws.Loop.{deferred, write_next, take_oldest, save_picked}
use go_chat_x.System.{idle, reading, waiting, ended, System, write_turn}
use go_chat_x.System.Live.{is_over, Registered, IsServing}
use go_chat_x.Hub.Sound.{IsSound-HubRules}
use go_chat_x.Ws.Sound.{write_next-IsSound}
use go_chat_x.Ws.Holds.{deferred-OnHub}

module _ (C : Collection) (srv : Server) (user : ℕ → String) where
  open C use {State}

  pub finish-IsServing :
      (s : System State) (k : ℕ)
      → IsServing user s
      → s.phase k ≡ waiting
      → IsServing user
          (record s { world = (deferred C srv k s.world).1; phase = update s.phase k ended })
  unfolding deferred ◌>>=◌ on_hub close_chan close_conn modify is_over
  finish-IsServing s k v waits = record {
    sound =
        ((deferred-OnHub IsSound-HubRules.quietly C srv k).at s.world
          (record { hub_holds = v.sound })).hub_holds;
    online_live = All-map (Holds (Registered s)) _ (λ e l. still l) _ v.online_live;
    member_live =
        λ r p e. All-map (Holds (Registered s)) _ (λ e l. still l) _ (v.member_live r p e);
    open_chan = λ j o. ground (arith, v.open_chan j);
    me_user = v.me_user;
    no_crash = λ j e. ground (arith, v.no_crash j);
  }
    where
      s'' : System State
      s'' = record s { world = (deferred C srv k s.world).1; phase = update s.phase k ended }

      still : {c : Client} → Registered s c → Registered s'' c
      still {c} l = record { in_loop = ground (arith, l.in_loop, waits); is_me = l.is_me }

  pub connect-IsServing :
      (s : System State) (k : ℕ)
      → IsServing user s
      → s.phase k ≡ idle
      → IsServing user (record s {
        phase = update s.phase k reading;
        session = update s.session k no_session;
        writing = update s.writing k true;
      })
  unfolding is_over
  connect-IsServing s k v idles = record {
    sound = v.sound;
    online_live = All-map (Holds (Registered s)) _ (λ e l. still l) _ v.online_live;
    member_live =
        λ r p e. All-map (Holds (Registered s)) _ (λ e l. still l) _ (v.member_live r p e);
    open_chan = λ j o. ground (arith, v.open_chan j, v.open_chan k);
    me_user = λ j c e. ground (arith, v.me_user j c);
    no_crash = λ j e. ground (arith, v.no_crash j);
  }
    where
      s'' : System State
      s'' = record s {
        phase = update s.phase k reading;
        session = update s.session k no_session;
        writing = update s.writing k true;
      }

      still : {c : Client} → Registered s c → Registered s'' c
      still {c} l = record {
        in_loop = ground (arith, l.in_loop, idles);
        is_me = ground (arith, l.in_loop, l.is_me, idles);
      }

  pub write-IsServing :
      (s : System State) (k : ℕ) (fails runs : Bool)
      → IsServing user s
      → IsServing user (write_turn k fails runs s)
  unfolding write_turn on_hub write_next take_oldest modify
  write-IsServing s k fails false v = v
  write-IsServing s k fails true v = record {
    sound = (write_next-IsSound k).at s.world.hub v.sound;
    online_live = All-map (Holds (Registered s)) _ (λ e l. still l) _ v.online_live;
    member_live =
        λ r p e. All-map (Holds (Registered s)) _ (λ e l. still l) _ (v.member_live r p e);
    open_chan = λ j o. ground (arith, v.open_chan j);
    me_user = v.me_user;
    no_crash = v.no_crash;
  }
    where
      still : {c : Client} → Registered s c → Registered (write_turn k fails true s) c
      still l = record { in_loop = l.in_loop; is_me = l.is_me }

  pub save-IsServing :
      (s : System State) (now : ℕ) (o : Option (ChatMessage × List ChatMessage))
      → IsServing user s
      → IsServing user (record s { world = save_picked C srv now o s.world })
  unfolding save_picked
  save-IsServing s now none v = v
  save-IsServing s now (some (m, rest)) v = record {
    sound = v.sound;
    online_live = All-map (Holds (Registered s)) _ (λ e l. still l) _ v.online_live;
    member_live =
        λ r p e. All-map (Holds (Registered s)) _ (λ e l. still l) _ (v.member_live r p e);
    open_chan = v.open_chan;
    me_user = v.me_user;
    no_crash = v.no_crash;
  }
    where
      still :
          {c : Client}
          → Registered s c
          → Registered (record s { world = save_picked C srv now (some (m, rest)) s.world }) c
      still l = record { in_loop = l.in_loop; is_me = l.is_me }
