-- ===== src/Frontend/Reading/Exchange.antt =====
-- A command of a frontend and its answer: `sendToBackendSocket` and `readFromBackendSocket`.
use distributed_cloud_storag.Prelude.{
  ℕ, zero, suc, ◌<◌, ◌≡◌, refl, sym, ap, ◌∙◌, true, false, List, [], ◌∷◌, ◌++◌, append_assoc,
  append-nil, Option, none, some, arith, length,
}
use distributed_cloud_storag.Prelude.Dict.{Bytes}
use distributed_cloud_storag.Prelude.Int.{ℤ, eqz}
use distributed_cloud_storag.Text.{codes}
use distributed_cloud_storag.Text.Find.{find, starts_with}
use distributed_cloud_storag.Smtp.Text.{extract_ip_and_port}
use distributed_cloud_storag.Frontend.Reading.{
  Network, Node, broken, stopped, more, if_whole, reached, at_address, after_master,
  connect_to_backend, resent, after_send, send_to_backend, after_recv, read_on, read_from_backend,
  answer_to, ask,
}

starts_with-front : (t s u : Bytes) → starts_with t (s ++ u) ≡ false → starts_with t s ≡ false
unfolding starts_with
starts_with-front [] s u h = h
starts_with-front (p ∷ t) [] u h = refl
starts_with-front (p ∷ t) (c ∷ s) u h = ground (arith, starts_with-front t s u)

-- A text without a line end has none in its front part.
find-front : (s u : Bytes) → find (codes "\r\n") (s ++ u) ≡ none → find (codes "\r\n") s ≡ none
unfolding find starts_with
find-front [] u h = refl
find-front (c ∷ s) u h = ground (arith, starts_with-front (codes "\r\n") (c ∷ s) u, find-front s u)

abbrev pub joined : List Bytes → Bytes
joined [] = []
joined (p ∷ ps) = p ++ joined ps

module _ {W : Type 0} (net : Network W) where
  -- The reads from a socket give these pieces.
  abbrev pub Gives : ℤ → List Bytes → W → W → Type 0
  Gives sock [] w w' = w ≡ w'
  Gives sock (p ∷ ps) w w' = (next : W) × (net.recv sock w ≡ (some p, next)) × Gives sock ps next w'

  read_on-more :
      (username response p : Bytes) (fuel : ℕ) (sock : ℤ) (node : Node) (w next : W)
      → net.recv sock w ≡ (some p, next)
      → find (codes "\r\n") (response ++ p) ≡ none
      → read_on net username (suc fuel) sock response node w
        ≡ read_on net username fuel sock (response ++ p) node next
  unfolding read_on after_recv if_whole
  read_on-more username response p fuel sock node w next e n =
      (λ i. elim (after_recv net username response node (e i)) [
        | broken ↦ none
        | stopped text node' w' ↦ some (text, node', w')
        | more text node' w' ↦ read_on net username fuel sock text node' w'
      ])
      ∙ (λ i. elim (if_whole (response ++ p) node next (n i)) [
        | broken ↦ none
        | stopped text node' w' ↦ some (text, node', w')
        | more text node' w' ↦ read_on net username fuel sock text node' w'
      ])

  read_on-last :
      (username response p : Bytes) (fuel n : ℕ) (sock : ℤ) (node : Node) (w next : W)
      → net.recv sock w ≡ (some p, next)
      → find (codes "\r\n") (response ++ p) ≡ some n
      → read_on net username (suc fuel) sock response node w ≡ some (response ++ p, node, next)
  unfolding read_on after_recv if_whole
  read_on-last username response p fuel n sock node w next e f =
      (λ i. elim (after_recv net username response node (e i)) [
        | broken ↦ none
        | stopped text node' w' ↦ some (text, node', w')
        | more text node' w' ↦ read_on net username fuel sock text node' w'
      ])
      ∙ (λ i. elim (if_whole (response ++ p) node next (f i)) [
        | broken ↦ none
        | stopped text node' w' ↦ some (text, node', w')
        | more text node' w' ↦ read_on net username fuel sock text node' w'
      ])

  read_on-Gives :
      (username response : Bytes) (pieces : List Bytes) (last : Bytes) (fuel n : ℕ) (sock : ℤ)
      (node : Node) (w w' : W)
      → Gives sock (pieces ++ last ∷ []) w w'
      → find (codes "\r\n") (response ++ joined pieces) ≡ none
      → find (codes "\r\n") ((response ++ joined pieces) ++ last) ≡ some n
      → length pieces < fuel
      → read_on net username fuel sock response node w
        ≡ some ((response ++ joined pieces) ++ last, node, w')
  read_on-Gives username response pieces last zero n sock node w w' g unclosed closed h =
      absurd (omega (arith, h))
  read_on-Gives username response [] last (suc fuel) n sock node w w' (next, e, same) unclosed
        closed h =
      let r = append-nil response in
      read_on-last username response last fuel n sock node w next e
        ((λ i. find (codes "\r\n") (sym r i ++ last)) ∙ closed)
      ∙ (λ i. some (sym r i ++ last, node, same i))
  read_on-Gives username response (p ∷ ps) last (suc fuel) n sock node w w' (next, e, g) unclosed
        closed h =
      let a = append_assoc response p (joined ps) in
      read_on-more username response p fuel sock node w next e
        (find-front (response ++ p) (joined ps) (ap (find (codes "\r\n")) a ∙ unclosed))
      ∙ read_on-Gives username (response ++ p) ps last fuel n sock node next w' g
          (ap (find (codes "\r\n")) a ∙ unclosed)
          ((λ i. find (codes "\r\n") (a i ++ last)) ∙ closed) (omega (arith, h))
      ∙ (λ i. some (a i ++ last, node, w'))

  -- A command that could be sent, to whose socket then come some pieces with no line end in them
  -- together and a last one with which there is one, has all the pieces for its answer, with fuel for
  -- one read each, and the connection stays the same.
  pub ask_lem :
      (username command : Bytes) (pieces : List Bytes) (last : Bytes) (fuel n : ℕ) (node : Node)
      (w sent w' : W)
      → net.send node.socket command w ≡ (true, sent)
      → Gives node.socket (pieces ++ last ∷ []) sent w'
      → find (codes "\r\n") (joined pieces) ≡ none
      → find (codes "\r\n") (joined pieces ++ last) ≡ some n
      → length pieces < fuel
      → ask net username command fuel node w ≡ some (joined pieces ++ last, node, w')
  unfolding ask send_to_backend after_send answer_to read_from_backend
  ask_lem username command pieces last fuel n node w sent w' e g unclosed closed h =
      (λ i. answer_to net username fuel (after_send net command username node (e i)))
      ∙ read_on-Gives username [] pieces last fuel n node.socket node sent w' g unclosed closed h

  -- A command could not be sent, the master's reply has the address of a server, that server is
  -- reached, and on the new socket come some pieces with no line end in them together and a last one
  -- with which there is one. Then the command is not sent again, neither there nor elsewhere, and
  -- these pieces are taken for its answer, with fuel for one read each.
  pub ask-lost :
      (username command info ip : Bytes) (port sock : ℤ) (pieces : List Bytes) (last : Bytes)
      (fuel n : ℕ) (node : Node) (w failed asked found w' : W)
      → net.send node.socket command w ≡ (false, failed)
      → net.ask_master (codes "GET_SERVER:" ++ (username ++ codes "\r\n")) failed
        ≡ (some info, asked)
      → extract_ip_and_port info ≡ some (ip, port)
      → net.reach (ip, port) asked ≡ (some sock, found)
      → Gives sock (pieces ++ last ∷ []) found w'
      → find (codes "\r\n") (joined pieces) ≡ none
      → find (codes "\r\n") (joined pieces ++ last) ≡ some n
      → length pieces < fuel
      → ask net username command fuel node w
        ≡ some (joined pieces ++ last, record { ip = ip; port = port; socket = sock }, w')
  unfolding ask send_to_backend after_send answer_to read_from_backend resent eqz connect_to_backend
      after_master at_address reached
  ask-lost username command info ip port sock pieces last fuel n node w failed asked found w' e m a
        r g unclosed closed h =
      let new : Node = record { ip = ip; port = port; socket = sock } in
      let answered : Option (ℤ × Node × W) → Option (Bytes × Node × W) =
        λ o. answer_to net username fuel (resent net command node.socket o) in
      (λ i. answer_to net username fuel (after_send net command username node (e i)))
      ∙ (λ i. answered (after_master net node (m i)))
      ∙ (λ i. answered (at_address net node asked (a i)))
      ∙ (λ i. answered (some (reached net (ip, port) node (r i))))
      ∙ read_on-Gives username [] pieces last fuel n sock new found w' g unclosed closed h
