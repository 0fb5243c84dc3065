-- ===== src/Tests/Balancers.antt =====
-- The load balancer with two live frontend servers.
use distributed_cloud_storag.Prelude.{◌≡◌, refl, true, false, ◌&&◌, [], ◌∷◌, some, if◌then◌else◌}
use distributed_cloud_storag.Prelude.Int.{pos, ltz}
use distributed_cloud_storag.Balancer.State.{
  Balancer, at, check_timeout, choose_from, load_of, client_port, choose_port,
}
use distributed_cloud_storag.Balancer.Choice.{Found, choose_port-Found}
use distributed_cloud_storag.Balancer.Timeout.{is_in, overdue, frontends, check_timeout_lem}

abbrev balancer : Balancer
balancer = record {
  status = (20000, true) ∷ (20001, true) ∷ (20002, false) ∷ [];
  load = (20000, pos 7) ∷ (20001, pos 3) ∷ (20002, pos 0) ∷ [];
  last = (20000, 50) ∷ (20001, 40) ∷ [];
}

choose_port-least : choose_port balancer ≡ pos 10001
unfolding choose_port choose_from load_of at client_port ltz
choose_port-least = refl

choose_port-Found_example :
    Found balancer balancer.status (pos 666666) (pos 10000) (choose_port balancer)
choose_port-Found_example = choose_port-Found balancer

check_timeout_lem_example : at 20001 (check_timeout 46 balancer).status ≡ (
    if is_in 20001 frontends && overdue 46 (at 20001 balancer.last)
    then some false
    else at 20001 balancer.status)
check_timeout_lem_example = check_timeout_lem 46 20001 balancer
