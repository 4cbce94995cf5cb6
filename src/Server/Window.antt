-- ===== src/Server/Window.antt =====
-- internal/subresourceapi/query.go: the window of a search for traces.
use kubewaf.Prelude.{ℕ, ◌+◌, ◌-◌, ◌*◌, ◌≤◌, Option, none, some, ltb, if◌then◌else◌, arith}
use kubewaf.Api.Atoi.{atoi}
use kubewaf.Server.Query.{Request}

-- A window of time in microseconds, and how many traces.
pub record Window : Type 0 where
  pub start_us : ℕ
  pub end_us : ℕ
  pub limit : ℕ

abbrev pub hour_us : ℕ
hour_us = 3600 * 1000000

-- A parameter that is a number above 0, or else a default.
unfoldable pub positive_or : ℕ → Option ℕ → ℕ
positive_or default none = default
positive_or default (some n) = if ltb 0 n then n else default

unfoldable pub capped_limit : ℕ → ℕ
capped_limit n = if ltb 200 n then 200 else n

-- The start is at most 24 hours before the end.
unfoldable pub clamped_start : ℕ → ℕ → ℕ
clamped_start start end = if ltb (24 * hour_us) (end - start) then end - 24 * hour_us else start

-- `parseTraceWindow` at a time. The difference of the source may be below 0, where both its tests
-- answer as they do at 0.
unfoldable pub parse_trace_window : ℕ → Request → Window
unfolding positive_or capped_limit clamped_start atoi
parse_trace_window now r =
    let end = positive_or now (atoi (r.param "end")) in
    record {
      start_us = clamped_start (positive_or (end - hour_us) (atoi (r.param "start"))) end;
      end_us = end;
      limit = capped_limit (positive_or 50 (atoi (r.param "limit")));
    }

-- The window that is asked for has 1 to 200 traces, and it starts at most 24 hours before its end.
pub parse_trace_window-bounds :
    (now : ℕ) (r : Request)
    → let w = parse_trace_window now r in
      (1 ≤ w.limit) × (w.limit ≤ 200) × (w.end_us ≤ w.start_us + 24 * hour_us)
unfolding parse_trace_window
parse_trace_window-bounds now r = ground arith
