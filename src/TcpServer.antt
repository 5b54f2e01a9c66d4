-- ===== src/TcpServer.antt =====
-- src/rocket/net/tcp/tcp_server.{h,cc} and src/rocket/net/io_thread_group.{h,cc}: which connections a
-- server has, and what it gives to its IO loops. A connection object and a loop are numbers; the
-- number of the connection that an `accept` makes is an argument. `onAccept` is cut before the insertion into the set, where the loop of the
-- connection can come in between.
pub mod Live
pub mod Stops
pub mod Early
pub mod Tests
use rocket_rpc.Common.{
  ℕ, suc, ◌+◌, ◌-◌, ◌%◌, Bool, true, false, not, ◌||◌, Option, none, some, List, [], ◌∷◌, ◌++◌,
  ◌==◌, leb, if◌then◌else◌, map,
}

-- `m_size` is also the number of threads.
pub record IoThreadGroup : Type 0 where
  pub size : ℕ
  pub index : ℕ

pub get_io_thread : IoThreadGroup → Option ℕ × IoThreadGroup
get_io_thread g =
    if g.size == 0 then (none, g) else (some g.index, record g { index = (g.index + 1) % g.size })

-- What the server queues in an IO loop.
pub data Task : Type 0 where
  establish destroy shutdown : ℕ → Task

-- A connection with its loop.
abbrev pub Conn : Type 0
Conn = ℕ × ℕ

pub record TcpServer : Type 0 where
  pub running : Bool
  pub io_group : Option IoThreadGroup
  pub connections : List Conn
  pub connection_count : ℕ → ℕ
  pub direct_flush : List ℕ
  pub queued : List (ℕ × Task)
  pub closed_fds : List ℕ

abbrev pub direct_flush_threshold : ℕ
direct_flush_threshold = 256

pub create : ℕ → TcpServer
create io_threads = record {
  running = false;
  io_group = some record { size = io_threads; index = 0 };
  connections = [];
  connection_count = λ l. 0;
  direct_flush = [];
  queued = [];
  closed_fds = [];
}

pub set_count : (ℕ → ℕ) → ℕ → ℕ → ℕ → ℕ
set_count f l n = λ k. if k == l then n else f k

pub queue_in : ℕ → Task → TcpServer → TcpServer
queue_in l task s = record s { queued = s.queued ++ (l, task) ∷ [] }

-- The new connection is counted and made known to its loop.
counted : ℕ → ℕ → TcpServer → TcpServer
counted c l s =
    let n = s.connection_count l + 1 in
    queue_in l (establish c) (record s {
      connection_count = set_count s.connection_count l n;
      direct_flush = if leb direct_flush_threshold n then c ∷ s.direct_flush else s.direct_flush;
    })

on_thread : ℕ → Option ℕ → TcpServer → Option Conn × TcpServer
on_thread c none s = (none, record s { closed_fds = c ∷ s.closed_fds })
on_thread c (some l) s = (some (c, l), counted c l s)

with_group : ℕ → Option IoThreadGroup → TcpServer → Option Conn × TcpServer
with_group c none s = (none, record s { closed_fds = c ∷ s.closed_fds })
with_group c (some g) s =
    let (l, g') = get_io_thread g in on_thread c l (record s { io_group = some g' })

accepted : Option ℕ → TcpServer → Option Conn × TcpServer
accepted none s = (none, s)
accepted (some c) s = with_group c s.io_group s

-- `onAccept` up to the insertion: the connection to insert.
pub begin_accept : Option ℕ → TcpServer → Option Conn × TcpServer
begin_accept fd s = if s.running then accepted fd s else (none, s)

-- `m_connections.erase`.
pub erase : ℕ → List Conn → List Conn
erase c [] = []
erase c ((d, l) ∷ cs) = let rest = erase c cs in if d == c then rest else (d, l) ∷ rest

-- `m_connections.insert`; the new connection is not in the set.
pub insert : Conn → TcpServer → TcpServer
insert p s = record s { connections = p ∷ s.connections }

-- The close callback of a connection.
pub remove_connection : Conn → TcpServer → TcpServer
remove_connection (c, l) s = queue_in l (destroy c) (record s {
  connections = erase c s.connections;
  connection_count = set_count s.connection_count l (s.connection_count l - 1);
})

-- `start`, up to the loop.
pub start : TcpServer → TcpServer
start s = if s.running then s else record s { running = true }

shutdown_of : Conn → ℕ × Task
shutdown_of (c, l) = (l, shutdown c)

-- `stop`, after the main loop has ended.
pub stop : TcpServer → TcpServer
stop s =
    if s.running
    then record s {
      running = false;
      queued = s.queued ++ map shutdown_of s.connections;
      io_group = none;
    }
    else s
