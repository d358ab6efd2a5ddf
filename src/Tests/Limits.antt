-- ===== src/Tests/Limits.antt =====
-- Requests of one client to the rate limiter, with a limit of two in a minute.
use go_chat_x.Common.{ℕ, ◌≤◌, String, ◌≡◌, refl, some, [], ◌∷◌, arith, length, ltb, if◌then◌else◌}
use go_chat_x.Middleware.Limiter.{
  pipeline, card, effect, effects, lifetime, recent, has, put, passed, limited, judge, limit_key,
}
use go_chat_x.Middleware.Window.{
  Log, instants, pipeline_at, Judged, begin, same_key, limit_key-judge,
}
use go_chat_x.Middleware.Rate.{passes, passes-le-max}
use go_chat_x.Tests.Backends.{sets, no_sets, members_in, exec_in, store_at, Cell, expiry_of}

abbrev key : String
key = "login:10.0.0.1"

abbrev after_one : String → Cell
after_one = (exec_in (pipeline_at sets key 2 60000 1000) no_sets).1

abbrev after_two : String → Cell
after_two = (exec_in (pipeline_at sets key 2 60000 1500) after_one).1

abbrev log_one : Log
log_one = (1000, passed) ∷ []

abbrev log_two : Log
log_two = (1500, passed) ∷ log_one

counts_one : exec_in (pipeline_at sets key 2 60000 1000) no_sets ≡ (some 0, after_one)
unfolding exec_in members_in recent pipeline card effect effects lifetime expiry_of
counts_one = refl

counts_two : exec_in (pipeline_at sets key 2 60000 1500) after_one ≡ (some 1, after_two)
unfolding exec_in members_in recent store_at put has pipeline card effect effects lifetime expiry_of
counts_two = refl

after_one-Judged : Judged sets key 2 60000 no_sets log_one after_one
unfolding judge
after_one-Judged = same_key [] no_sets after_one 1000 0 passed begin tt counts_one refl

after_two-Judged : Judged sets key 2 60000 no_sets log_two after_two
unfolding judge
after_two-Judged =
    same_key log_one after_one after_two 1500 1 passed after_one-Judged (omega arith, tt) counts_two
      refl

starts_empty : (now : ℕ) → members_in "ratelimit:login:10.0.0.1" now no_sets ≡ []
unfolding members_in
starts_empty now = ground arith

abbrev after_three : String → Cell
after_three = (exec_in (pipeline_at sets key 2 60000 1700) after_two).1

counts_three : exec_in (pipeline_at sets key 2 60000 1700) after_two ≡ (some 2, after_three)
unfolding exec_in members_in recent store_at put has pipeline card effect effects lifetime expiry_of
counts_three = refl

limit_key-judge_example :
    (limit_key sets 2 60000 1700 key after_two).0
    ≡ (if ltb (length (recent 60000 1700 (instants log_two))) 2 then passed else limited)
limit_key-judge_example =
    limit_key-judge sets key 2 60000 no_sets starts_empty log_two after_two after_three 1700 2
      after_two-Judged (omega arith, (omega arith, tt)) counts_three

passes-le-max_example : length (recent 60000 1700 (passes log_two)) ≤ 2
passes-le-max_example =
    passes-le-max sets key 2 60000 no_sets starts_empty log_two after_two 1700 after_two-Judged
      ((omega arith, tt), (tt, tt)) (omega arith, (omega arith, tt))
