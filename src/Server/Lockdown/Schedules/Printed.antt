-- ===== src/Server/Lockdown/Schedules/Printed.antt =====
-- internal/server/lockdown.go: schedules that are printed are read back.
use argo_watcher.Common.{
  ℕ, ◌^◌, ◌<◌, String, false, ◌&&◌, List, [], ◌∷◌, ◌++◌, map, leb, ◌⧺◌, join, ◌≡◌, ◌≢◌, refl, sym,
  ap, ap₂, ◌∙◌,
}
use argo_watcher.Common.Split.{split, trim_left, trim_right, trim_space}
use text.Mathlib.TextLemmas.{append-eq-nil_iff, append_assoc}
use mathlib.Core.List.{append-nil, append_assoc as append_assoc_list}
use argo_watcher.Models.Report.Failure.{decimal}
use argo_watcher.Server.Lockdown.{LockdownSchedule}
use argo_watcher.Server.Lockdown.Schedules.{
  parsed, parse_time, day_to_weekday, parse_schedule, parse_frames, parse, with_time, with_day,
  with_start, time_of_parts, schedule_of_parts, schedule_of_times,
}
use argo_watcher.Common.Split.Separator.{Free, Free-append, split-Free, split-at}
use argo_watcher.Server.Lockdown.Schedules.Numbers.{
  atoi-decimal, decimal-not_empty, decimal-Free, trim_right-append, trim_right-decimal,
}
use argo_watcher.Server.Lockdown.Schedules.Names.{
  day_name, print_time, print_end, print_schedule, InRange, IsValid, Named, day_name-Named,
}

-- No space at the end, and not empty.
abbrev Ends : String → Type 0
Ends s = (trim_right s ≡ s) × (s ≢ "")

Ends-append : (x s : String) → Ends s → Ends (x ⧺ s)
Ends-append x s (e, f) = (trim_right-append x s e f, λ h. f (append-eq-nil_iff.0 h).1)

Ends-print_end : (day hour min : ℕ) → Ends (print_end day hour min)
Ends-print_end day hour min = Ends-append (day_name day) (" " ⧺ print_time hour min) (
    Ends-append " " (print_time hour min) (
      Ends-append (decimal hour) (":" ⧺ decimal min)
        (Ends-append ":" (decimal min) (trim_right-decimal min, decimal-not_empty min))))

trimmed :
    (day : ℕ) (x : String)
    → Named day
    → Ends (day_name day ⧺ x)
    → trim_space (day_name day ⧺ x) ≡ day_name day ⧺ x
trimmed day x (_, _, _, _, starts) (e, _) = ap trim_left e ∙ starts x

print_time-Free :
    (b hour min : ℕ) → (leb 48 b && leb b 57) ≡ false → Free b ":" → Free b (print_time hour min)
print_time-Free b hour min o colon =
    Free-append b (decimal hour) (":" ⧺ decimal min) (decimal-Free b hour o)
      (Free-append b ":" (decimal min) colon (decimal-Free b min o))

parse_time-print_time :
    (hour min : ℕ)
    → hour < 2 ^ 63
    → min < 2 ^ 63
    → parse_time (print_time hour min) ≡ parsed (hour, min)
unfolding parse_time
parse_time-print_time hour min h m =
    ap time_of_parts (
      split-at b':' (decimal hour) ":" (decimal min) (decimal-Free b':' hour refl) refl
      ∙ ap (λ l. decimal hour ∷ l) (split-Free b':' (decimal min) (decimal-Free b':' min refl)))
    ∙ rw (atoi-decimal hour h, atoi-decimal min m) refl

split-print_end :
    (day hour min : ℕ)
    → Named day
    → split b' ' (trim_space (print_end day hour min)) ≡ day_name day ∷ print_time hour min ∷ []
split-print_end day hour min n =
    let (_, spaceless, _, _, _) = n in
    ap (split b' ') (trimmed day (" " ⧺ print_time hour min) n (Ends-print_end day hour min))
    ∙ split-at b' ' (day_name day) " " (print_time hour min) spaceless refl
    ∙ ap (λ l. day_name day ∷ l)
        (split-Free b' ' (print_time hour min) (print_time-Free b' ' hour min refl (refl, tt)))

end_read :
    (day hour min : ℕ)
    → InRange day hour min
    → with_day (day_to_weekday (day_name day)) (print_time hour min) ≡ parsed (day, hour, min)
end_read day hour min (d, h, m) =
    ap (λ o. with_day o (print_time hour min)) (day_name-Named day d).0
    ∙ ap (with_time day) (parse_time-print_time hour min h m)

print_end-Free :
    (b day hour min : ℕ)
    → (leb 48 b && leb b 57) ≡ false
    → Free b ":"
    → Free b " "
    → Free b (day_name day)
    → Free b (print_end day hour min)
print_end-Free b day hour min o colon space name =
    Free-append b (day_name day) (" " ⧺ print_time hour min) name
      (Free-append b " " (print_time hour min) space (print_time-Free b hour min o colon))

parse_schedule-print_schedule :
    (s : LockdownSchedule) → IsValid s → parse_schedule (print_schedule s) ≡ parsed s
unfolding parse_schedule print_schedule
parse_schedule-print_schedule s (v, w) =
    let start = print_end s.start_day s.start_hour s.start_min in
    let end = print_end s.end_day s.end_hour s.end_min in
    let n = day_name-Named s.start_day v.0 in
    let n' = day_name-Named s.end_day w.0 in
    let whole = start ⧺ "-" ⧺ end in
    let (ends, _) =
      Ends-append start ("-" ⧺ end)
        (Ends-append "-" end (Ends-print_end s.end_day s.end_hour s.end_min)) in
    let (_, _, dashless, _, starts) = n in
    let (_, _, dashless', _, _) = n' in
    let assoc : whole
        ≡ day_name s.start_day ⧺ (" " ⧺ print_time s.start_hour s.start_min) ⧺ "-" ⧺ end =
      append_assoc (day_name s.start_day) (" " ⧺ print_time s.start_hour s.start_min) ("-" ⧺ end) in
    let kept : trim_space whole ≡ whole = ap trim_left (ends ∙ assoc) ∙ starts _ ∙ sym assoc in
    ap (λ t. schedule_of_times (split b'-' t)) kept
    ∙ ap schedule_of_times (
        split-at b'-' start "-" end
          (print_end-Free b'-' s.start_day s.start_hour s.start_min refl (refl, tt) (refl, tt)
            dashless)
          refl
        ∙ ap (λ l. start ∷ l)
            (split-Free b'-' end (
              print_end-Free b'-' s.end_day s.end_hour s.end_min refl (refl, tt) (refl, tt)
                dashless')))
    ∙ ap₂ schedule_of_parts (split-print_end s.start_day s.start_hour s.start_min n)
        (split-print_end s.end_day s.end_hour s.end_min n')
    ∙ ap₂ with_start (end_read s.start_day s.start_hour s.start_min v)
        (end_read s.end_day s.end_hour s.end_min w)

print_schedule-Free : (s : LockdownSchedule) → IsValid s → Free b',' (print_schedule s)
unfolding print_schedule
print_schedule-Free s (v, w) =
    let (_, _, _, free, _) = day_name-Named s.start_day v.0 in
    let (_, _, _, free', _) = day_name-Named s.end_day w.0 in
    Free-append b',' (print_end s.start_day s.start_hour s.start_min)
      ("-" ⧺ print_end s.end_day s.end_hour s.end_min)
      (print_end-Free b',' s.start_day s.start_hour s.start_min refl (refl, tt) (refl, tt) free)
      (Free-append b',' "-" (print_end s.end_day s.end_hour s.end_min) (refl, tt)
        (print_end-Free b',' s.end_day s.end_hour s.end_min refl (refl, tt) (refl, tt) free'))

abbrev pub AllValid : List LockdownSchedule → Type 0
AllValid [] = Unit {0}
AllValid (s ∷ rest) = IsValid s × AllValid rest

split-join :
    (s : LockdownSchedule) (rest : List LockdownSchedule)
    → AllValid (s ∷ rest)
    → split b',' (join (map print_schedule (s ∷ rest)) ",") ≡ map print_schedule (s ∷ rest)
unfolding join
split-join s [] (v, _) = split-Free b',' (print_schedule s) (print_schedule-Free s v)
split-join s (t ∷ rest) (v, w) =
    split-at b',' (print_schedule s) "," (join (map print_schedule (t ∷ rest)) ",")
      (print_schedule-Free s v) refl
    ∙ ap (λ l. print_schedule s ∷ l) (split-join t rest w)

parse_frames-map :
    (frames schedules : List LockdownSchedule)
    → AllValid frames
    → parse_frames (map print_schedule frames) schedules ≡ (schedules ++ frames, parsed tt)
unfolding parse_frames
parse_frames-map [] schedules v = ap (λ l. (l, parsed tt)) (sym (append-nil schedules))
parse_frames-map (s ∷ rest) schedules (v, w) = rw (parse_schedule-print_schedule s v) (
    parse_frames-map rest (schedules ++ s ∷ []) w
    ∙ ap (λ l. (l, parsed tt)) (append_assoc_list schedules (s ∷ []) rest))

-- Schedules that are printed without spaces at the dash and without leading zeros, and joined by commas,
-- are read as they are meant, after those that there were. Their days are days of the week, and hours
-- and minutes any numbers that an integer holds.
pub parse-print_schedule :
    (s : LockdownSchedule) (rest schedules : List LockdownSchedule)
    → AllValid (s ∷ rest)
    → parse (join (map print_schedule (s ∷ rest)) ",") schedules
      ≡ (schedules ++ s ∷ rest, parsed tt)
unfolding parse
parse-print_schedule s rest schedules v =
    ap (λ l. parse_frames l schedules) (split-join s rest v)
    ∙ parse_frames-map (s ∷ rest) schedules v
