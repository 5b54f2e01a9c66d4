-- ===== src/Logger.antt =====
-- src/rocket/common/log.{h,cc}: the two buffers between the thread that formats lines and the thread that
-- writes the file. Rotation and fsync are outside. How many bytes `::write` takes is an argument, 0
-- where it fails.
pub mod Buffers
pub mod Tests
use rocket_rpc.Common.{
  ℕ, ◌*◌, Bool, true, false, Option, none, some, List, [], ◌∷◌, ◌++◌, leb, ◌==◌, if◌then◌else◌,
  length, take, drop,
}

abbrev pub write_threshold : ℕ
write_threshold = 256 * 1024

-- `hand` is the writer's own buffer, `file` what the kernel has taken of it, and `lost` what it has
-- not: the code has no such field. `formatter_done` and `writer_done`: the thread has returned.
pub record Logger : Type 0 where
  pub running : Bool
  pub fmt_buf : List ℕ
  pub write_buf : List ℕ
  pub write_ready : Bool
  pub hand : List ℕ
  pub file : List ℕ
  pub lost : List ℕ
  pub formatter_done : Bool
  pub writer_done : Bool

pub create : Logger
create = record {
  running = true;
  fmt_buf = [];
  write_buf = [];
  write_ready = false;
  hand = [];
  file = [];
  lost = [];
  formatter_done = false;
  writer_done = false;
}

-- `formatLine` of a line with its end.
pub format_line : List ℕ → Logger → Logger
format_line line l = record l { fmt_buf = l.fmt_buf ++ line }

-- `m_write_buf.swap(wb)` and the mark for the writer.
pub swap : Logger → Logger
swap l = record l { fmt_buf = l.write_buf; write_buf = l.fmt_buf; write_ready = true }

-- `swapBuffer`, after lines were formatted.
pub swap_buffer : Logger → Logger
swap_buffer l = if leb write_threshold (length l.fmt_buf) then swap l else l

-- With nothing to format, and after the final drain: whatever there is.
swap_any : List ℕ → Logger → Logger
swap_any [] l = l
swap_any (b ∷ bytes) l = swap l

pub go_idle : Logger → Logger
go_idle l = swap_any l.fmt_buf l

-- With a flush asked for and nothing to format.
pub ask_writer : Logger → Logger
ask_writer l = record l { write_ready = true }

pub stop : Logger → Logger
stop l = record l { running = false }

-- The swap after the final drain, with which the formatting thread returns.
pub final_swap : Logger → Logger
final_swap l = record (go_idle l) { formatter_done = true }

-- The writer under the mutex, with nothing in its hand: it takes what lies ready; otherwise it goes on
-- waiting, or returns when the log has been stopped.
pub take_ready : Logger → Logger
take_ready l =
    if l.write_ready
    then record l { hand = l.write_buf; write_buf = l.hand; write_ready = false }
    else if l.running
    then l
    else record l { writer_done = true }

-- The write of which the kernel takes `n` bytes, and `buf.clear()`.
pub write : ℕ → Logger → Logger
write n l = record l { file = l.file ++ take n l.hand; lost = l.lost ++ drop n l.hand; hand = [] }
