-- ===== src/Balancer/Worker.antt =====
-- `thread_worker` of frontend/loadbalancer.cc: a browser is redirected to a frontend server. The
-- buffer is taken to be empty at the start, and a byte that is written behind the array `tmp`, which
-- nothing reads, is left out.
use distributed_cloud_storag.Prelude.{
  ℕ, zero, suc, ◌+◌, Bool, true, false, List, [], ◌∷◌, ◌++◌, none, some, if◌then◌else◌, length,
  take, drop,
}
use distributed_cloud_storag.Prelude.Dict.{Bytes, eqb}
use distributed_cloud_storag.Text.{codes}
use distributed_cloud_storag.Text.Cstring.{c_string}
use distributed_cloud_storag.Text.Find.{find, starts_with}
use distributed_cloud_storag.Balancer.State.{Balancer, choose_port, redirect_reply}

pub record Worker : Type 0 where
  pub buffer : Bytes
  pub read_header : Bool
  pub sent : List Bytes

-- One line, of a request or of its headers; an empty line ends the headers.
unfoldable process_line : Balancer → Bytes → Worker → Worker
unfolding choose_port redirect_reply
process_line b cmd w =
    if w.read_header
    then if eqb cmd []
      then record w { read_header = false; sent = w.sent ++ redirect_reply (choose_port b) ∷ [] }
      else w
    else if starts_with (codes "GET ") cmd
    then record w { read_header = true }
    else w

-- The lines that are complete. A line drops two bytes at least, so the length of the buffer is fuel
-- enough.
unfoldable process_lines : Balancer → ℕ → Worker → Worker
unfolding process_line
process_lines b zero w = w
process_lines b (suc fuel) w = elim (find (codes "\r\n") (c_string w.buffer)) [
  | none ↦ w
  | some n ↦
      process_lines b fuel
        (process_line b (take n w.buffer) (record w { buffer = drop (n + 2) w.buffer }))
]

-- What one `read` of at most READ_SIZE bytes returned.
unfoldable worker_read : Balancer → Bytes → Worker → Worker
unfolding process_lines
worker_read b bytes w =
    let buffer = w.buffer ++ bytes in process_lines b (length buffer) (record w { buffer = buffer })
