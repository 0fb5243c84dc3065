-- ===== src/Tests/Sockets.antt =====
-- A network on which one socket is closed.
use distributed_cloud_storag.Prelude.{◌≡◌, refl, List, [], ◌∷◌, Option, some, arith}
use distributed_cloud_storag.Prelude.Dict.{Bytes}
use distributed_cloud_storag.Prelude.Int.{ℤ, pos, eqz}
use distributed_cloud_storag.Text.{codes}
use distributed_cloud_storag.Text.Find.{find, find_byte, starts_with, behind, up_to}
use distributed_cloud_storag.Text.Decimal.{stoi}
use distributed_cloud_storag.Smtp.Text.{extract_ip_and_port, split_address, port_of, with_port}
use distributed_cloud_storag.Frontend.Reading.{Network, Node, ask}
use distributed_cloud_storag.Frontend.Reading.Exchange.{ask_lem, ask-lost}

-- The reads to come, from whatever socket.
abbrev take_read : List Bytes → Option Bytes × List Bytes
take_read [] = (some [], [])
take_read (p ∷ ps) = (some p, ps)

abbrev network : Network (List Bytes)
network = record {
  ask_master = λ command w. (some (codes "SERVER_INFO:10.0.0.1:8001\r\n"), w);
  reach = λ server w. (some (pos 5), w);
  send = λ sock command w. (eqz sock (pos 5), w);
  recv = λ sock w. take_read w;
}

abbrev node_at : ℤ → Node
node_at sock = record { ip = codes "10.0.0.1"; port = pos 8001; socket = sock }

abbrev reads : List Bytes
reads = codes "+OK a" ∷ codes "bc\r\n" ∷ []

ask_lem_example :
    ask network (codes "ann") (codes "GET ann,a\r\n") 2 (node_at (pos 5)) reads
    ≡ some (codes "+OK abc\r\n", node_at (pos 5), [])
unfolding eqz find starts_with
ask_lem_example =
    ask_lem network (codes "ann") (codes "GET ann,a\r\n") (codes "+OK a" ∷ []) (codes "bc\r\n") 2 7
      (node_at (pos 5)) reads reads [] refl (_, refl, (_, refl, refl)) refl refl (omega arith)

ask-lost_example :
    ask network (codes "ann") (codes "GET ann,a\r\n") 2 (node_at (pos 4)) reads
    ≡ some (codes "+OK abc\r\n", node_at (pos 5), [])
unfolding eqz find starts_with extract_ip_and_port split_address port_of with_port find_byte behind
    up_to stoi
ask-lost_example =
    ask-lost network (codes "ann") (codes "GET ann,a\r\n") (codes "SERVER_INFO:10.0.0.1:8001\r\n")
      (codes "10.0.0.1") (pos 8001) (pos 5) (codes "+OK a" ∷ []) (codes "bc\r\n") 2 7
      (node_at (pos 4)) reads reads reads reads [] refl refl refl refl (_, refl, (_, refl, refl))
      refl refl (omega arith)
