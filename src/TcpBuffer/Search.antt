-- ===== src/TcpBuffer/Search.antt =====
-- `findCRLF` and `findEOL` of tcp_buffer.cc.
use rocket_rpc.Common.{
  ℕ, ◌+◌, ◌-◌, ◌≤◌, ◌<◌, ◌≡◌, refl, sym, ap, Bool, true, false, ◌&&◌, Option, none, some, List, [],
  ◌∷◌, arith, ◌>>=◌, ltb, le→ltb, ◌==◌, if◌then◌else◌, length, drop, drop-slice, drop-drop,
  length-drop,
}
use mathlib.Core.Option
use rocket_rpc.Common.Words.{add_size, sub_size}
use rocket_rpc.Common.Search.{find_first, IsFirst, find_first-IsFirst}
use rocket_rpc.TcpBuffer.{TcpBuffer, load, readable}
use rocket_rpc.TcpBuffer.Valid.{
  IsValid, IsValid-IsSafe, content, readable_lem, length-content, load-some,
}

abbrev pub starts_crlf : List ℕ → Bool
starts_crlf (x ∷ y ∷ r) = x == 13 && y == 10
starts_crlf _ = false

abbrev pub starts_eol : List ℕ → Bool
starts_eol (x ∷ r) = x == 10
starts_eol [] = false

-- A search among the readable bytes from offset `start` on; the result counts from the read index.
-- An offset past the readable bytes is a fault.
search_from : (List ℕ → Bool) → TcpBuffer → ℕ → Option (Option ℕ)
search_from test b start = if ltb (readable b) start then none else do
  ds ← load b.mem (add_size b.read_index start) (sub_size (readable b) start)
  some (Option.map (λ i. start + i) (find_first test ds))

pub find_crlf : TcpBuffer → ℕ → Option (Option ℕ)
find_crlf b start = search_from starts_crlf b start

pub find_eol : TcpBuffer → Option (Option ℕ)
find_eol b = search_from starts_eol b 0

-- What a search from `start` should find in a sequence.
abbrev pub FirstFrom : (List ℕ → Bool) → ℕ → List ℕ → Option ℕ → Type 0
FirstFrom test start xs none = (j : ℕ) → start ≤ j → test (drop j xs) ≡ false
FirstFrom test start xs (some i) =
    (start ≤ i)
    × (i < length xs)
    × (test (drop i xs) ≡ true)
    × ((j : ℕ) → start ≤ j → j < i → test (drop j xs) ≡ false)

module _ (test : List ℕ → Bool) (start : ℕ) (xs : List ℕ) (start_in : start ≤ length xs) where
  at : (j : ℕ) → start ≤ j → drop (j - start) (drop start xs) ≡ drop j xs
  at j h = drop-drop start (j - start) j xs (omega arith)

  FirstFrom-of_IsFirst :
      (o : Option ℕ)
      → IsFirst test (drop start xs) o
      → FirstFrom test start xs (Option.map (λ i. start + i) o)
  FirstFrom-of_IsFirst none f = λ j h. rw (← at j h) (f (j - start))
  FirstFrom-of_IsFirst (some i) (lt, hit, before) = (
    omega arith,
    omega (arith, length-drop start xs),
    rw (drop-drop start i (start + i) xs refl) at hit,
    λ j h k. rw (← at j h) (before (j - start) (omega arith)),
  )

module _ (test : List ℕ → Bool) (none_at_end : test [] ≡ false) (b : TcpBuffer)
    (v : IsValid b) where
  search_from_lem :
      (start : ℕ)
      → start ≤ readable b
      → (o : Option ℕ) × (search_from test b start ≡ some o) × FirstFrom test start (content b) o
  unfolding search_from
  search_from_lem start h =
      let r : readable b ≡ b.write_index - b.read_index = readable_lem (IsValid-IsSafe v) in
      let e : add_size b.read_index start ≡ b.read_index + start = omega (arith, v.small) in
      let n : sub_size (readable b) start ≡ b.write_index - b.read_index - start =
        omega (arith, v.small) in
      (
        Option.map (λ i. start + i) (find_first test (drop start (content b))),
        rw
            (
              le→ltb (readable b) start h,
              e,
              n,
              load-some b.mem (b.read_index + start) (b.write_index - b.read_index - start)
                  (omega arith),
            )
            (ap (λ ds. some (Option.map (λ i. start + i) (find_first test ds)))
              (sym (drop-slice b.read_index (b.write_index - b.read_index) start b.mem))),
        FirstFrom-of_IsFirst test start (content b)
            (omega (arith, length-content (IsValid-IsSafe v)))
            (find_first test (drop start (content b)))
            (find_first-IsFirst test none_at_end (drop start (content b))),
      )

-- `findCRLF` from an offset within the readable bytes stays inside the storage and finds the first
-- place at or after the offset where a carriage return is followed by a line feed, if there is
-- one, and nothing otherwise.
pub find_crlf_lem :
    (b : TcpBuffer) (start : ℕ)
    → IsValid b
    → start ≤ readable b
    → (o : Option ℕ) × (find_crlf b start ≡ some o) × FirstFrom starts_crlf start (content b) o
unfolding find_crlf
find_crlf_lem b start v h = search_from_lem starts_crlf refl b v start h

-- `findEOL` stays inside the storage and finds the first line feed of the readable bytes, if there
-- is one, and nothing otherwise.
pub find_eol_lem :
    (b : TcpBuffer)
    → IsValid b
    → (o : Option ℕ) × (find_eol b ≡ some o) × FirstFrom starts_eol 0 (content b) o
unfolding find_eol
find_eol_lem b v = search_from_lem starts_eol refl b v 0 (omega arith)
