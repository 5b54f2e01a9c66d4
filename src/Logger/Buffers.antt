-- ===== src/Logger/Buffers.antt =====
-- Where the bytes of the log are while it runs and while it ends.
use rocket_rpc.Common.{
  ℕ, suc, ◌+◌, ◌≡◌, refl, sym, ap, ◌∙◌, true, false, List, [], ◌∷◌, ◌++◌, arith, leb, ◌==◌,
  if◌then◌else◌, length,
}
use mathlib.Core.Bool.{true≢false}
use rocket_rpc.Logger.{
  Logger, create, format_line, swap, swap_buffer, swap_any, go_idle, ask_writer, stop, final_swap,
  take_ready, write, write_threshold,
}

-- How often a byte occurs.
pub count : ℕ → List ℕ → ℕ
count b [] = 0
count b (c ∷ cs) = let rest = count b cs in if c == b then suc rest else rest

-- The two threads and the caller of `stop`, in any order; the list is what was formatted in the step.
pub data Step (l : Logger) : List ℕ → Logger → Type 0 where
  formats : (line : List ℕ) → l.formatter_done ≡ false → Step l line (format_line line l)
  swaps : l.formatter_done ≡ false → Step l [] (swap_buffer l)
  idles : l.formatter_done ≡ false → Step l [] (go_idle l)
  asks : l.formatter_done ≡ false → Step l [] (ask_writer l)
  ends : l.formatter_done ≡ false → l.running ≡ false → Step l [] (final_swap l)
  takes : l.writer_done ≡ false → l.hand ≡ [] → Step l [] (take_ready l)
  writes : (n : ℕ) → l.writer_done ≡ false → Step l [] (write n l)
  stops : Step l [] (stop l)

pub data Steps (l : Logger) : List ℕ → Logger → Type 0 where
  here : Steps l [] l
  later :
      {t u : Logger} {formatted more : List ℕ}
      → Steps l formatted t
      → Step t more u
      → Steps l (formatted ++ more) u

-- A byte in the two buffers that the threads share, and everywhere.
unfoldable pub buffered : ℕ → Logger → ℕ
buffered b l = count b l.write_buf + count b l.fmt_buf

unfoldable pub held : ℕ → Logger → ℕ
held b l = count b l.file + count b l.lost + count b l.hand + buffered b l

count-append : (b : ℕ) (xs ys : List ℕ) → count b (xs ++ ys) ≡ count b xs + count b ys
unfolding count
count-append b [] ys = omega arith
count-append b (x ∷ xs) ys =
    let ih = count-append b xs ys in
    elim (x == b)
      as (λ t.
        (if t then suc (count b (xs ++ ys)) else count b (xs ++ ys))
        ≡ (if t then suc (count b xs) else count b xs) + count b ys) [
          | true ↦ omega (arith, ih)
          | false ↦ ih
        ]

swap-buffered : (b : ℕ) (l : Logger) → buffered b (swap l) ≡ buffered b l
unfolding buffered swap
swap-buffered b l = omega arith

-- What the formatting thread does leaves the writer's side alone.
pub record Same (b : ℕ) (more : List ℕ) (l t : Logger) : Type 0 where
  pub file : t.file ≡ l.file
  pub lost : t.lost ≡ l.lost
  pub hand : t.hand ≡ l.hand
  pub writer : t.writer_done ≡ l.writer_done
  pub buffers : buffered b t ≡ buffered b l + count b more

Same-refl : (b : ℕ) (l t : Logger) → t ≡ l → Same b [] l t
unfolding count
Same-refl b l t e = record {
  file = ap (λ (x : Logger). x.file) e;
  lost = ap (λ (x : Logger). x.lost) e;
  hand = ap (λ (x : Logger). x.hand) e;
  writer = ap (λ (x : Logger). x.writer_done) e;
  buffers = omega (arith, ap (buffered b) e);
}

swap-Same : (b : ℕ) (l : Logger) → Same b [] l (swap l)
unfolding swap count
swap-Same b l = record {
  file = refl;
  lost = refl;
  hand = refl;
  writer = refl;
  buffers = omega (arith, swap-buffered b l);
}

swap_any-Same : (b : ℕ) (bytes : List ℕ) (l : Logger) → Same b [] l (swap_any bytes l)
unfolding swap_any
swap_any-Same b [] l = Same-refl b l l refl
swap_any-Same b (x ∷ bytes) l = swap-Same b l

swap_buffer-Same : (b : ℕ) (l : Logger) → Same b [] l (swap_buffer l)
unfolding swap_buffer
swap_buffer-Same b l =
    elim (leb write_threshold (length l.fmt_buf)) as (λ t. Same b [] l (if t then swap l else l)) [
      | true ↦ swap-Same b l
      | false ↦ Same-refl b l l refl
    ]

format_line-Same : (b : ℕ) (line : List ℕ) (l : Logger) → Same b line l (format_line line l)
unfolding format_line buffered
format_line-Same b line l = record {
  file = refl;
  lost = refl;
  hand = refl;
  writer = refl;
  buffers = omega (arith, count-append b l.fmt_buf line);
}

ask_writer-Same : (b : ℕ) (l : Logger) → Same b [] l (ask_writer l)
unfolding ask_writer count buffered
ask_writer-Same b l = record {
  file = refl;
  lost = refl;
  hand = refl;
  writer = refl;
  buffers = omega arith;
}

stop-Same : (b : ℕ) (l : Logger) → Same b [] l (stop l)
unfolding stop count buffered
stop-Same b l = record {
  file = refl;
  lost = refl;
  hand = refl;
  writer = refl;
  buffers = omega arith;
}

go_idle-Same : (b : ℕ) (l : Logger) → Same b [] l (go_idle l)
unfolding go_idle
go_idle-Same b l = swap_any-Same b l.fmt_buf l

final_swap-Same : (b : ℕ) (l : Logger) → Same b [] l (final_swap l)
unfolding final_swap buffered
final_swap-Same b l =
    let s = go_idle-Same b l in
    record { file = s.file; lost = s.lost; hand = s.hand; writer = s.writer; buffers = s.buffers }

-- What the formatting thread and `stop` do after the writer has returned.
Step-Same :
    (b : ℕ) {l : Logger} {more : List ℕ} {t : Logger}
    → l.writer_done ≡ true
    → Step l more t
    → Same b more l t
Step-Same b {l} w (formats line _) = format_line-Same b line l
Step-Same b {l} w (swaps _) = swap_buffer-Same b l
Step-Same b {l} w (idles _) = go_idle-Same b l
Step-Same b {l} w (asks _) = ask_writer-Same b l
Step-Same b {l} w (ends _ _) = final_swap-Same b l
Step-Same b {l} w (takes n _) = absurd (true≢false (sym w ∙ n))
Step-Same b {l} w (writes _ n) = absurd (true≢false (sym w ∙ n))
Step-Same b {l} w stops = stop-Same b l

Steps-Same :
    (b : ℕ) {l : Logger} {more : List ℕ} {t : Logger}
    → l.writer_done ≡ true
    → Steps l more t
    → Same b more l t
Steps-Same b {l} w here = Same-refl b l l refl
Steps-Same b {l} w (later {t} {u} {formatted} {more} r s) =
    let a = Steps-Same b w r in
    let c = Step-Same b (a.writer ∙ w) s in
    record {
      file = c.file ∙ a.file;
      lost = c.lost ∙ a.lost;
      hand = c.hand ∙ a.hand;
      writer = c.writer ∙ a.writer;
      buffers = omega (arith, a.buffers, c.buffers, count-append b formatted more);
    }

leave :
    (l : Logger)
    → l.running ≡ false
    → l.write_ready ≡ false
    → take_ready l ≡ record l { writer_done = true }
unfolding take_ready
leave l stopped idle = rw (idle, stopped) refl

-- The log has been stopped while nothing lies ready and the writer's hand is empty: the writer may
-- return at once, whatever the formatting thread still has. From then on, whatever steps follow,
-- the file does not grow, and every byte of the two buffers and every byte that is formatted later
-- stays in the two buffers.
pub leaves_early :
    (l : Logger) (formatted : List ℕ) (t : Logger) (more : List ℕ) (b : ℕ)
    → Steps create formatted l
    → l.running ≡ false
    → l.write_ready ≡ false
    → l.writer_done ≡ false
    → l.hand ≡ []
    → Steps (take_ready l) more t
    → Step l [] (take_ready l)
      × (t.writer_done ≡ true)
      × (t.file ≡ l.file)
      × (buffered b t ≡ buffered b l + count b more)
leaves_early l formatted t more b r stopped idle waits empty after =
    let e = leave l stopped idle in
    let gone = ap (λ (x : Logger). x.writer_done) e in
    let s = Steps-Same b gone after in
    (
      takes waits empty,
      s.writer ∙ gone,
      s.file ∙ ap (λ (x : Logger). x.file) e,
      s.buffers ∙ ap (λ n. n + count b more) (ap (buffered b) e ∙ unfold buffered in refl),
    )
