-- ===== src/Core/Services/Tests.antt =====
-- A manager on concrete inputs, and the theorems applied to them.
use ig_trading_bot.Common.{
  ◌≤◌, ◌≡◌, refl, true, false, some, List, [], ◌∷◌, fixed, pos, ℤ, fixed-IsOrdered,
  fixed-IsMonotone, lookup, insert, keep,
}
use ig_trading_bot.Core.Services.{
  ServiceManager, ServiceState, done, raised, Call, register_call, begin_start_call, end_start_call,
  run_call, error_call, resume_call, running, failed, run, step, register, begin_start, end_start,
  handle_service_error, resume_restart, stop_service, get_status,
}
use ig_trading_bot.Core.Services.Restarts.{restarts_in_window, restarts_are_limited}
use ig_trading_bot.Core.Services.Stopping.{finish, stop_service_loses_to_restart}

-- 300 seconds in the numbers of `fixed`.
abbrev window : ℤ
window = pos 3000000

abbrev empty : ServiceManager fixed
empty = record {
  services = [];
  next_object = 0;
  max_restart_attempts = 2;
  restart_window_seconds = window;
  has_callback = true;
  is_running = false;
  notified = [];
}

-- Three crashes within a minute: the third is not restarted.
abbrev crashes : List (Call fixed)
crashes =
    register_call "news"
    ∷ run_call
    ∷ begin_start_call "news"
    ∷ end_start_call "news" 0 done (pos 0)
    ∷ error_call "news" "a" (pos 100000)
    ∷ resume_call "news"
    ∷ end_start_call "news" 0 done (pos 400000)
    ∷ error_call "news" "b" (pos 500000)
    ∷ resume_call "news"
    ∷ end_start_call "news" 0 (raised "c") (pos 600000)
    ∷ error_call "news" "d" (pos 700000)
    ∷ []

abbrev news : ServiceState fixed
news = record {
  name = "news";
  object = 0;
  status = failed;
  restart_history =
      record { timestamp = pos 100000; error = "a" }
      ∷ record { timestamp = pos 500000; error = "b" }
      ∷ [];
  last_error = some "d";
  started_at = some (pos 400000);
}

run-crashes :
    (lookup "news" (run fixed empty crashes).services ≡ some news)
    × ((run fixed empty crashes).notified ≡ ("news", "d") ∷ [])
unfolding run step register begin_start end_start handle_service_error resume_restart lookup insert
    keep
run-crashes = (refl, refl)

restarts_are_limited_example :
    restarts_in_window fixed 2 window (pos 900000) news.restart_history ≤ 2
restarts_are_limited_example =
    restarts_are_limited fixed 2 window fixed-IsOrdered fixed-IsMonotone empty crashes "news" news
      (pos 900000) refl refl refl run-crashes.0

abbrev up : ServiceManager fixed
up = record empty {
  services = ("news", record news { status = running; restart_history = [] }) ∷ [];
  is_running = true;
}

stop_service_loses_to_restart_example :
    let m' =
      (stop_service fixed (handle_service_error fixed up "news" "x" (pos 1)).0 "news" []).0 in
    get_status fixed (finish fixed "news" done (pos 300001) (resume_restart fixed m' "news")) "news"
    ≡ some running
unfolding handle_service_error lookup keep
stop_service_loses_to_restart_example =
    stop_service_loses_to_restart fixed up "news" "x" (pos 1) (pos 300001) refl refl
