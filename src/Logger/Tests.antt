-- ===== src/Logger/Tests.antt =====
-- Runs of the log, and the theorems at them.
use rocket_rpc.Common.{◌+◌, ◌≡◌, refl, true, false, [], ◌∷◌, ◌++◌}
use rocket_rpc.Logger.{
  Logger, create, format_line, swap, swap_any, go_idle, ask_writer, stop, final_swap, take_ready,
  write,
}
use rocket_rpc.Logger.Buffers.{
  count, buffered, Step, formats, ends, stops, Steps, here, later, leaves_early,
}

-- Line 1 lies ready for the writer, line 2 has been formatted after it.
abbrev ready_1 : Logger
ready_1 = go_idle (format_line (1 ∷ []) create)

abbrev behind : Logger
behind = format_line (2 ∷ []) ready_1

-- A round of the writer whose write takes all.
abbrev round : Logger → Logger
round l = write 9 (take_ready l)

-- The final swap comes before the writer takes line 1: line 1 never reaches the file.
swap_back_test :
    ((round (final_swap (stop behind))).file ≡ 2 ∷ [])
    × ((round (final_swap (stop behind))).fmt_buf ≡ 1 ∷ [])
unfolding final_swap stop take_ready write format_line go_idle swap_any swap create
swap_back_test = (refl, refl)

-- The writer takes line 1 first: both lines are written.
take_first_test : (round (final_swap (round (stop behind)))).file ≡ 1 ∷ 2 ∷ []
unfolding final_swap stop take_ready write format_line go_idle swap_any swap create
take_first_test = refl

-- A second idle round swaps the lines: line 2 is written before line 1.
order_test : (round (go_idle (round (go_idle behind)))).file ≡ 2 ∷ 1 ∷ []
unfolding take_ready write format_line go_idle swap_any swap create
order_test = refl

-- A write that fails loses the line.
short_test : (write 0 (take_ready ready_1)).lost ≡ 1 ∷ []
unfolding take_ready write format_line go_idle swap_any swap create
short_test = refl

flush_test : (ask_writer create).write_ready ≡ true
unfolding ask_writer
flush_test = refl

abbrev formatted_1 : Logger
formatted_1 = format_line (1 ∷ []) create

formatted_1-Steps : Steps create ([] ++ 1 ∷ []) formatted_1
unfolding create
formatted_1-Steps = later here (formats (1 ∷ []) refl)

abbrev stopped_1 : Logger
stopped_1 = stop formatted_1

stopped_1-Steps : Steps create (([] ++ 1 ∷ []) ++ []) stopped_1
stopped_1-Steps = later formatted_1-Steps stops

is_stopped : stopped_1.running ≡ false
unfolding stop format_line create
is_stopped = refl

not_ready : stopped_1.write_ready ≡ false
unfolding stop format_line create
not_ready = refl

still_there : stopped_1.writer_done ≡ false
unfolding stop format_line create
still_there = refl

empty_hand : stopped_1.hand ≡ []
unfolding stop format_line create
empty_hand = refl

formatter_on : (take_ready stopped_1).formatter_done ≡ false
unfolding take_ready stop format_line create
formatter_on = refl

stopped_on : (take_ready stopped_1).running ≡ false
unfolding take_ready stop format_line create
stopped_on = refl

-- The writer returns, and then the formatting thread swaps and returns.
ended_1 : Steps (take_ready stopped_1) ([] ++ []) (final_swap (take_ready stopped_1))
ended_1 = later here (ends formatter_on stopped_on)

leaves_early_example :
    let t = final_swap (take_ready stopped_1) in
    Step stopped_1 [] (take_ready stopped_1)
    × (t.writer_done ≡ true)
    × (t.file ≡ stopped_1.file)
    × (buffered 1 t ≡ buffered 1 stopped_1 + count 1 ([] ++ []))
leaves_early_example =
    leaves_early stopped_1 (([] ++ 1 ∷ []) ++ []) (final_swap (take_ready stopped_1)) ([] ++ []) 1
      stopped_1-Steps is_stopped not_ready still_there empty_hand ended_1
