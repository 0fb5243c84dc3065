-- ===== src/Balancer/State.antt =====
-- The heartbeats of the frontend servers and the choice of one, of frontend/loadbalancer.cc. The
-- threads take a lock around each of these operations.
use distributed_cloud_storag.Prelude.{
  ℕ, ◌-◌, Bool, true, false, ◌&&◌, List, [], ◌∷◌, ◌++◌, Option, none, some, ltb, leb, ◌==◌,
  if◌then◌else◌, length,
}
use distributed_cloud_storag.Prelude.Dict.{Bytes}
use distributed_cloud_storag.Prelude.Int.{ℤ, pos, negsuc, ltz}
use distributed_cloud_storag.Text.{codes}
use distributed_cloud_storag.Text.Cstring.{c_string}
use distributed_cloud_storag.Text.Decimal.{to_string, atoi}

-- map<int, A> with ports as keys, in their order
module _ {A : Type 0} where
  unfoldable pub at : ℕ → List (ℕ × A) → Option A
  at p [] = none
  at p ((q, a) ∷ m) = if q == p then some a else at p m

  unfoldable pub put : ℕ → A → List (ℕ × A) → List (ℕ × A)
  put p a [] = (p, a) ∷ []
  put p a ((q, b) ∷ m) =
      let rest = put p a m in
      if q == p then (q, a) ∷ m else if ltb p q then (p, a) ∷ (q, b) ∷ m else (q, b) ∷ rest

-- `status` is server_status, `load` is server_load and `last` is lastHeartbeat, in seconds.
pub record Balancer : Type 0 where
  pub status : List (ℕ × Bool)
  pub load : List (ℕ × ℤ)
  pub last : List (ℕ × ℕ)

abbrev pub ports : List ℕ
ports = 20000 ∷ 20001 ∷ 20002 ∷ []

-- The globals as they are at the start.
abbrev pub initial : Balancer
initial = record {
  status = (20000, false) ∷ (20001, false) ∷ (20002, false) ∷ [];
  load = (20000, pos 0) ∷ (20001, pos 0) ∷ (20002, pos 0) ∷ [];
  last = [];
}

abbrev buf_size : ℕ
buf_size = 1024

noted : ℕ → ℕ → Balancer → Option ℤ → Option Balancer
noted now port b none = none
noted now port b (some n) = some (record {
  status = put port true b.status;
  load = put port n b.load;
  last = put port now b.last;
})

-- One datagram from a port. `none`: the buffer is full, and a byte is written behind it, or the
-- number in it is no int.
unfoldable receive_heartbeat : ℕ → ℕ → Bytes → Balancer → Option Balancer
unfolding noted
receive_heartbeat now port [] b = some b
receive_heartbeat now port (c ∷ buffer) b =
    if ltb (length (c ∷ buffer)) buf_size
    then noted now port b (atoi (c_string (c ∷ buffer)))
    else none

abbrev timeout_seconds : ℕ
timeout_seconds = 5

unfoldable pub is_late : ℕ → Option ℕ → Bool
is_late now none = false
is_late now (some time) = ltb timeout_seconds (now - time)

-- One pass over the ports.
unfoldable pub check_ports : ℕ → List ℕ → Balancer → Balancer
unfolding is_late
check_ports now [] b = b
check_ports now (port ∷ ports) b =
    check_ports now ports
      (if is_late now (at port b.last) then record b { status = put port false b.status } else b)

unfoldable pub check_timeout : ℕ → Balancer → Balancer
unfolding check_ports
check_timeout now b = check_ports now ports b

unfoldable pub load_of : ℕ → Balancer → ℤ
load_of p b = elim (at p b.load) [ none ↦ pos 0 | some n ↦ n ]

-- status.first - 10000
unfoldable pub client_port : ℕ → ℤ
client_port p = if leb 10000 p then pos (p - 10000) else negsuc (9999 - p)

unfoldable pub choose_from : Balancer → List (ℕ × Bool) → ℤ → ℤ → ℤ
choose_from b [] port min_clients = port
choose_from b ((p, live) ∷ rest) port min_clients =
    let taken = choose_from b rest (client_port p) (load_of p b) in
    let passed = choose_from b rest port min_clients in
    if live && ltz (load_of p b) min_clients then taken else passed

unfoldable pub choose_port : Balancer → ℤ
unfolding choose_from
choose_port b = choose_from b b.status (pos 10000) (pos 666666)

unfoldable pub redirect_reply : ℤ → Bytes
redirect_reply port =
    codes "HTTP/1.1 302 Found\r\nLocation: http://localhost:"
    ++ (to_string port ++ codes "\r\n\r\n\r\n")
