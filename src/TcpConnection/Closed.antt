-- ===== src/TcpConnection/Closed.antt =====
-- Connections that are closed, and those that are being shut down.
use rocket_rpc.Common.{
  ℕ, zero, suc, ◌-◌, ◌≡◌, refl, sym, ap, subst, ◌>>=◌, ◌∙◌, Bool, true, false, Option, some, List,
  ◌==◌, if◌then◌else◌, drop,
}
use mathlib.Core.Bool.{false≢true}
use rocket_rpc.TcpBuffer.{TcpBuffer, readable}
use rocket_rpc.TcpBuffer.Io.{WriteReply, ReadReply}
use rocket_rpc.Protocol.{Protocol, DecodeResult}
use rocket_rpc.TcpConnection.{
  TcpConnection, TcpState, closed, half_closing, not_connected, connected, is_closed, is_open,
  is_new, is_connected, refuses, emit, connect_established, connect_destroyed, handle_close,
  handle_write, flush_task, send_in_loop_batch, send, shut_wr, take_batch, drain_rounds, rearm,
  drain_write_queue, send_across, handle_read, shutdown_in_loop,
}

skip : {A : Type 0} (x y : A) (b : Bool) → b ≡ false → (if b then x else y) ≡ y
skip x y true e = absurd (false≢true (sym e))
skip x y false e = refl

enter : {A : Type 0} (x y : A) (b : Bool) → b ≡ true → (if b then x else y) ≡ x
enter x y true e = refl
enter x y false e = absurd (false≢true e)

open-not_closed : (s : TcpState) → is_open s ≡ true → is_closed s ≡ false
unfolding is_open is_closed
open-not_closed not_connected e = absurd (false≢true e)
open-not_closed connected e = refl
open-not_closed half_closing e = refl
open-not_closed closed e = absurd (false≢true e)

-- After `shutdown` of an open connection.
shutdown-state :
    (c : TcpConnection)
    → is_open c.state ≡ true
    → ((shutdown_in_loop c).state ≡ half_closing) × ((shutdown_in_loop c).in_flight ≡ c.in_flight)
unfolding shutdown_in_loop emit
shutdown-state c o =
    subst (λ (d : TcpConnection). (d.state ≡ half_closing) × (d.in_flight ≡ c.in_flight))
      (sym (skip _ _ (is_closed c.state) (open-not_closed c.state o)))
      (ends (readable c.out_buffer == 0))
  where
    ends :
        (b : Bool)
        → let c' = record c { state = half_closing } in
          let d = if b then emit shut_wr c' else c' in
          (d.state ≡ half_closing) × (d.in_flight ≡ c.in_flight)
    ends true = (refl, refl)
    ends false = (refl, refl)

module _ (encode : List Protocol → TcpBuffer → Option (Bool × TcpBuffer))
    (decode : TcpBuffer → Option (DecodeResult × TcpBuffer))
    (on_message : TcpConnection → List Protocol → Option TcpConnection) where
  -- What the loop thread and the other threads do with a connection.
  pub data Step (c : TcpConnection) : TcpConnection → Type 0 where
    establishes : Step c (connect_established c)
    destroys : Step c (connect_destroyed c)
    fails : Step c (handle_close c)
    reads :
        (rs : List ReadReply) (c' : TcpConnection)
        → handle_read decode on_message c rs ≡ some c'
        → Step c c'
    writes : (rs : List WriteReply) (c' : TcpConnection) → handle_write c rs ≡ some c' → Step c c'
    flushes : (rs : List WriteReply) (c' : TcpConnection) → flush_task c rs ≡ some c' → Step c c'
    sends :
        (m : Protocol) (rs : List WriteReply) (c' : TcpConnection)
        → send encode c m rs ≡ some c'
        → Step c c'
    crosses : (m : Protocol) → Step c (send_across c m)
    drains :
        (rs : ℕ → List WriteReply) (c' : TcpConnection)
        → drain_write_queue encode c rs ≡ some c'
        → Step c c'
    shuts : Step c (shutdown_in_loop c)

  -- The connection is closed, and the log is `l`.
  abbrev IsSilent : TcpConnection → TcpConnection → Type 0
  IsSilent c c' = (c'.state ≡ closed) × (c'.log ≡ c.log)

  same : (c c' : TcpConnection) → c.state ≡ closed → some c ≡ some c' → IsSilent c c'
  same c c' h e =
      let e' : c ≡ c' = cc in (ap TcpConnection.state (sym e') ∙ h, ap TcpConnection.log (sym e'))

  drain-closed :
      (n : ℕ) (c : TcpConnection) (rs : ℕ → List WriteReply)
      → c.state ≡ closed
      → (c' : TcpConnection) × (drain_rounds encode n c rs ≡ some c') × IsSilent c c'
  unfolding drain_rounds take_batch is_connected send_in_loop_batch
  drain-closed zero c rs h = (c, refl, (h, refl))
  drain-closed (suc n) c rs h =
      let c₁ : TcpConnection = record c { write_queue = drop 256 c.write_queue } in
      let (c', e, s) = drain-closed n c₁ rs h in
      (
        c',
        ap (λ ms. send_in_loop_batch encode c₁ ms (rs n) >>= λ c₂. drain_rounds encode n c₂ rs)
              (skip _ _ (is_connected c.state) (ap is_connected h))
            ∙ e,
        s,
      )

  -- A closed connection stays closed whatever happens to it, and does nothing more to the socket
  -- and to the callbacks: the close callback is not called again, and no byte is written.
  pub closed_lem : (c c' : TcpConnection) → c.state ≡ closed → Step c c' → IsSilent c c'
  unfolding connect_established connect_destroyed handle_close handle_read handle_write flush_task
      send send_across drain_write_queue rearm shutdown_in_loop is_closed is_open is_new refuses
  closed_lem c c' h establishes =
      subst (IsSilent c) (sym (skip _ _ (is_new c.state) (ap is_new h))) (h, refl)
  closed_lem c c' h destroys = (refl, refl)
  closed_lem c c' h fails =
      subst (IsSilent c) (sym (enter _ _ (is_closed c.state) (ap is_closed h))) (h, refl)
  closed_lem c c' h (reads rs c'' e) =
      same c c' h (sym (skip _ _ (is_open c.state) (ap is_open h)) ∙ e)
  closed_lem c c' h (writes rs c'' e) =
      same c c' h (sym (skip _ _ (is_open c.state) (ap is_open h)) ∙ e)
  closed_lem c c' h (flushes rs c'' e) =
      same (record c { flush_queued = false; flushes = c.flushes - 1 }) c' h
        (sym (skip _ _ (is_open c.state) (ap is_open h)) ∙ e)
  closed_lem c c' h (sends m rs c'' e) =
      same c c' h (sym (enter _ _ (refuses c.state) (ap refuses h)) ∙ e)
  closed_lem c c' h (crosses m) =
      subst (IsSilent c) (sym (enter _ _ (refuses c.state) (ap refuses h))) (h, refl)
  closed_lem c c' h (drains rs c'' e) =
      let c₀ : TcpConnection = record c { drains = c.drains - 1 } in
      let (c₂, e₂, s) = drain-closed 3 c₀ rs h in
      let (s', l) =
        same (rearm encode c₂) c' s.0 (ap (λ o. o >>= λ c₁. some (rearm encode c₁)) (sym e₂) ∙ e) in
      (s', l ∙ s.1)
  closed_lem c c' h shuts =
      subst (IsSilent c) (sym (enter _ _ (is_closed c.state) (ap is_closed h))) (h, refl)

  -- Once `shutdown` has run on an open connection, a `send` on any thread leaves the connection as
  -- it is, however many requests are in flight: their responses are dropped.
  pub shutdown_drops_lem :
      (c : TcpConnection) (m : Protocol) (rs : List WriteReply)
      → is_open c.state ≡ true
      → let c' = shutdown_in_loop c in
        (send encode c' m rs ≡ some c') × (send_across c' m ≡ c') × (c'.in_flight ≡ c.in_flight)
  unfolding send send_across refuses
  shutdown_drops_lem c m rs o =
      let (e, n) = shutdown-state c o in
      (
        enter _ _ (refuses (shutdown_in_loop c).state) (ap refuses e),
        enter _ _ (refuses (shutdown_in_loop c).state) (ap refuses e),
        n,
      )
