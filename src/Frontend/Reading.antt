-- ===== src/Frontend/Reading.antt =====
-- The connection of a frontend to the key-value store: frontend/readingHelper.cc.
pub mod Exchange
use distributed_cloud_storag.Prelude.{
  ℕ, zero, suc, Bool, true, false, ◌++◌, [], Option, none, some, if◌then◌else◌,
}
use distributed_cloud_storag.Prelude.Dict.{Bytes}
use distributed_cloud_storag.Prelude.Int.{ℤ, pos, negsuc, eqz}
use distributed_cloud_storag.Text.{codes}
use distributed_cloud_storag.Text.Find.{find}
use distributed_cloud_storag.Smtp.Text.{extract_ip_and_port}

-- What the sockets do, as operations on a state `W`. `ask_master` is a connection to the master with
-- a command and its reply, `reach` is one to a server with its greeting; `none` is a call that
-- failed. `send` tells whether it was done, and `recv` gives bytes, or `none` for an error.
pub record Network (W : Type 0) : Type 0 where
  pub ask_master : Bytes → W → Option Bytes × W
  pub reach : Bytes × ℤ → W → Option ℤ × W
  pub send : ℤ → Bytes → W → Bool × W
  pub recv : ℤ → W → Option Bytes × W

-- The entry of a connection in `backend_socks`, as far as it is used.
pub record Node : Type 0 where
  pub ip : Bytes
  pub port : ℤ
  pub socket : ℤ

-- A round of the loop that reads: an exception, an answer, or another round.
pub data Step (W : Type 0) : Type 0 where
  broken : Step W
  stopped : Bytes → Node → W → Step W
  more : Bytes → Node → W → Step W

-- A text with a line end in it is an answer.
unfoldable pub if_whole : {W : Type 0} → Bytes → Node → W → Option ℕ → Step W
if_whole response node w none = more response node w
if_whole response node w (some n) = stopped response node w

module _ {W : Type 0} (net : Network W) where
  unfoldable pub reached : Bytes × ℤ → Node → Option ℤ × W → ℤ × Node × W
  reached server node (none, w) = (negsuc 0, node, w)
  reached (ip, port) node (some sock, w) =
      (pos 0, record { ip = ip; port = port; socket = sock }, w)

  unfoldable pub at_address : Node → W → Option (Bytes × ℤ) → Option (ℤ × Node × W)
  unfolding reached
  at_address node w none = none
  at_address node w (some server) = some (reached server node (net.reach server w))

  unfoldable pub after_master : Node → Option Bytes × W → Option (ℤ × Node × W)
  unfolding at_address
  after_master node (none, w) = some (negsuc 0, node, w)
  after_master node (some info, w) = at_address node w (extract_ip_and_port info)

  -- 0, or -1 where a call failed. `none` is the exception of stoi.
  unfoldable pub connect_to_backend : Bytes → Node → W → Option (ℤ × Node × W)
  unfolding after_master
  connect_to_backend username node w =
      after_master node (net.ask_master (codes "GET_SERVER:" ++ (username ++ codes "\r\n")) w)

  -- The test `!connectToBackend(...)` holds for 0. The second send is on the old socket.
  unfoldable pub resent : Bytes → ℤ → Option (ℤ × Node × W) → Option (Bool × Node × W)
  resent command sock none = none
  resent command sock (some (result, node, w)) =
      let (ok, w') = net.send sock command w in
      some (if eqz result (pos 0) then (false, node, w) else (ok, node, w'))

  unfoldable pub after_send : Bytes → Bytes → Node → Bool × W → Option (Bool × Node × W)
  unfolding resent connect_to_backend
  after_send command username node (true, w) = some (true, node, w)
  after_send command username node (false, w) =
      resent command node.socket (connect_to_backend username node w)

  unfoldable pub send_to_backend : Bytes → Bytes → Node → W → Option (Bool × Node × W)
  unfolding after_send
  send_to_backend command username node w =
      after_send command username node (net.send node.socket command w)

  unfoldable pub reconnected : Bytes → Option (ℤ × Node × W) → Step W
  reconnected response none = broken
  reconnected response (some (result, node, w)) =
      if eqz result (pos 0) then stopped [] node w else more response node w

  unfoldable pub after_recv : Bytes → Bytes → Node → Option Bytes × W → Step W
  unfolding reconnected connect_to_backend if_whole
  after_recv username response node (none, w) =
      reconnected response (connect_to_backend username node w)
  after_recv username response node (some bytes, w) =
      if_whole (response ++ bytes) node w (find (codes "\r\n") (response ++ bytes))

  -- The loop, which ends only with a line end or with an error; `none` too where the fuel runs out.
  unfoldable pub read_on : Bytes → ℕ → ℤ → Bytes → Node → W → Option (Bytes × Node × W)
  unfolding after_recv
  read_on username zero sock response node w = none
  read_on username (suc fuel) sock response node w =
      elim (after_recv username response node (net.recv sock w)) [
        | broken ↦ none
        | stopped text node' w' ↦ some (text, node', w')
        | more text node' w' ↦ read_on username fuel sock text node' w'
      ]

  unfoldable pub read_from_backend : Bytes → ℕ → Node → W → Option (Bytes × Node × W)
  unfolding read_on
  read_from_backend username fuel node w = read_on username fuel node.socket [] node w

  unfoldable pub answer_to : Bytes → ℕ → Option (Bool × Node × W) → Option (Bytes × Node × W)
  unfolding read_from_backend
  answer_to username fuel none = none
  answer_to username fuel (some (ok, node, w)) = read_from_backend username fuel node w

  -- A command and its answer, as the callers ask for them: whether it was sent is not looked at.
  unfoldable pub ask : Bytes → Bytes → ℕ → Node → W → Option (Bytes × Node × W)
  unfolding send_to_backend answer_to
  ask username command fuel node w =
      answer_to username fuel (send_to_backend command username node w)
