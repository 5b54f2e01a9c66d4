-- ===== src/TcpBuffer/Tests.antt =====
-- Runs of the buffer operations on small buffers.
use rocket_rpc.Common.{◌≡◌, refl, true, none, some, [], ◌∷◌, arith, replicate}
use rocket_rpc.TcpBuffer.{
  TcpBuffer, create, capacity, is_empty, ensure_writable, append_view, append_int, retrieve_int,
}
use rocket_rpc.TcpBuffer.Valid.{IsValid, IsValid-IsSafe, content}
use rocket_rpc.TcpBuffer.Room.{Roomy, accepts, ensure_writable_lem}
use rocket_rpc.TcpBuffer.Fifo.{append_lem}
use rocket_rpc.TcpBuffer.Ints.{retrieve_int-append_int}
use rocket_rpc.TcpBuffer.Front.{IsCramped, append_faults}

-- Eight free bytes, `readable` bytes `5 13 10 7`, and room for two more.
abbrev line : TcpBuffer
line = record {
  mem = 0 ∷ 0 ∷ 0 ∷ 0 ∷ 0 ∷ 0 ∷ 0 ∷ 0 ∷ 5 ∷ 13 ∷ 10 ∷ 7 ∷ 0 ∷ 0 ∷ [];
  read_index = 8;
  write_index = 12;
}

line-IsValid : IsValid line
line-IsValid = record {
  behind = omega arith;
  order = omega arith;
  inside = omega arith;
  small = omega arith;
}

abbrev fresh : TcpBuffer
fresh = record { mem = replicate 16 0; read_index = 8; write_index = 8 }

fresh-IsValid : IsValid fresh
fresh-IsValid = record {
  behind = omega arith;
  order = omega arith;
  inside = omega arith;
  small = omega arith;
}

-- A buffer after a `prepend`, with no room left.
abbrev cramped : TcpBuffer
cramped = record { mem = replicate 12 0; read_index = 4; write_index = 12 }

cramped-IsCramped : IsCramped cramped
cramped-IsCramped = record {
  before = omega arith;
  order = omega arith;
  inside = omega arith;
  cramped = omega arith;
  small = omega arith;
}

create_run : (capacity (create 8) ≡ 16) × (is_empty (create 8) ≡ true)
unfolding create capacity is_empty
create_run = (refl, refl)

ensure_writable_lem_example :
    (b' : TcpBuffer) × (ensure_writable line 100 ≡ some (accepts line 100, b'))
    × Roomy line 100 (accepts line 100) b'
ensure_writable_lem_example = ensure_writable_lem line (IsValid-IsSafe line-IsValid) 100

append_lem_example :
    (b' : TcpBuffer) × (append_view line (1 ∷ 2 ∷ 3 ∷ []) ≡ some (true, b'))
    × IsValid b'
    × (content b' ≡ 5 ∷ 13 ∷ 10 ∷ 7 ∷ 1 ∷ 2 ∷ 3 ∷ [])
append_lem_example = append_lem line line-IsValid (1 ∷ 2 ∷ 3 ∷ [])

retrieve_int-append_int_example :
    (b' b'' : TcpBuffer) × (append_int 8 fresh 258 ≡ some (true, b'))
    × (retrieve_int 8 b' ≡ some (258, b''))
    × IsValid b''
    × (content b'' ≡ [])
retrieve_int-append_int_example =
    retrieve_int-append_int fresh 8 258 fresh-IsValid refl refl (omega arith)

append_faults_example : append_view cramped (9 ∷ []) ≡ none
append_faults_example = append_faults cramped cramped-IsCramped (9 ∷ []) (omega arith) (omega arith)
