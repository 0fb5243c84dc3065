-- ===== src/Smtp/Address.antt =====
-- How the SMTP server reads what the master answers to GET_SERVER.
use distributed_cloud_storag.Prelude.{
  ℕ, zero, suc, ◌^◌, ◌<◌, ◌≡◌, refl, sym, ap, ◌∙◌, false, ◌⊎◌, inl, inr, List, [], ◌∷◌, ◌++◌,
  append_assoc, Option, none, some, arith, length, drop, take-append, drop-append-suc, get_elem?,
  All, All-append, true,
}
use distributed_cloud_storag.Prelude.Dict.{Bytes}
use distributed_cloud_storag.Prelude.Int.{ℤ, pos}
use distributed_cloud_storag.Text.{codes}
use distributed_cloud_storag.Text.Find.{
  Lacks, find, find-line_end, starts_with, find_byte, find_byte-append, find_byte-Lacks, behind,
  up_to,
}
use distributed_cloud_storag.Text.Decimal.{to_string, print_nat, stoi}
use distributed_cloud_storag.Text.Decimal.RoundTrip.{
  print_nat-digits, Lacks-digits, stoi-to_string_alone,
}
use distributed_cloud_storag.Kvstore.Config.{ServerInfo, group_of}
use distributed_cloud_storag.Master.State.{Master, address}
use distributed_cloud_storag.Master.Request.{next_of, choose_server}
use distributed_cloud_storag.Master.Request.Answer.{choose_server_lem}
use distributed_cloud_storag.Smtp.Text.{port_of, with_port, split_address, extract_ip_and_port}

-- An address with no colon, and a port that is an int.
abbrev HasAddress : ServerInfo → Type 0
HasAddress info = Lacks b':' info.ip × ((p : ℕ) × (info.tcp_port ≡ pos p) × (p < 2 ^ 31))

port_of-to_string :
    (p : ℕ) (rest : Bytes)
    → p < 2 ^ 31
    → port_of (to_string (pos p) ++ b'\r' ∷ b'\n' ∷ rest) ≡ some (pos p)
unfolding port_of up_to to_string
port_of-to_string p rest h =
    let t = print_nat p in
    (λ i. stoi (
      up_to (find-line_end t rest (Lacks-digits b'\r' t refl (print_nat-digits p)) i)
        (t ++ b'\r' ∷ b'\n' ∷ rest)))
    ∙ (λ i. stoi (take-append t (b'\r' ∷ b'\n' ∷ rest) i))
    ∙ stoi-to_string_alone p h

-- The address and the port of a server in a reply, whatever stands behind its line end.
extract_ip_and_port-address :
    (info : ServerInfo) (rest : Bytes)
    → HasAddress info
    → extract_ip_and_port (codes "SERVER_INFO:" ++ (address info ++ (codes "\r\n" ++ rest)))
      ≡ some (info.ip, info.tcp_port)
unfolding extract_ip_and_port split_address address find_byte behind with_port
extract_ip_and_port-address info rest (lip, (p, e, h)) =
    let tail = to_string info.tcp_port ++ (codes "\r\n" ++ rest) in
    let reply =
      codes "SERVER_INFO:"
      ++ ((info.ip ++ b':' ∷ to_string info.tcp_port) ++ (codes "\r\n" ++ rest)) in
    let a : (info.ip ++ b':' ∷ to_string info.tcp_port) ++ (codes "\r\n" ++ rest)
        ≡ info.ip ++ b':' ∷ tail =
      append_assoc info.ip (b':' ∷ to_string info.tcp_port) (codes "\r\n" ++ rest) in
    (λ i. split_address reply (a i) (find_byte b':' (a i)))
    ∙ (λ i. split_address reply (info.ip ++ b':' ∷ tail) (find_byte-append b':' info.ip tail lip i))
    ∙ (λ i.
        with_port (take-append info.ip (b':' ∷ tail) i)
          (port_of (drop-append-suc info.ip b':' tail i)))
    ∙ (λ i. with_port info.ip (port_of (to_string (e i) ++ (codes "\r\n" ++ rest))))
    ∙ ap (with_port info.ip) (port_of-to_string p rest h)
    ∙ ap (λ z. some (info.ip, z)) (sym e)

-- The reply that no server is alive ends the SMTP server.
extract_ip_and_port-none_alive :
    (rest : Bytes)
    → Lacks b':' rest
    → extract_ip_and_port (codes "-ERR NO_SERVERS_ALIVE\r\n" ++ rest) ≡ none
unfolding extract_ip_and_port split_address behind port_of up_to find starts_with
extract_ip_and_port-none_alive rest h =
    let s = codes "-ERR NO_SERVERS_ALIVE\r\n" ++ rest in
    let f : find_byte b':' s ≡ none =
      find_byte-Lacks b':' s
        (All-append _ (codes "-ERR NO_SERVERS_ALIVE\r\n") rest (omega arith) h) in
    let p : port_of s ≡ none = unfold stoi in refl in
    (λ i. split_address s (drop (behind (f i)) s) (find_byte b':' (drop (behind (f i)) s)))
    ∙ (λ i. split_address s s (f i))
    ∙ ap (with_port s) p

-- The SMTP server reads a live server of the group in the reply, or is ended by an exception.
abbrev pub Reads : ℤ → Master → Bytes → Type 0
Reads g m rest =
    (info : ServerInfo) × (i : ℕ) × (next : Master) × (reply : Bytes) × (get_elem?
        (group_of g m.servers) i
      ≡ some info)
    × (info.is_dead ≡ false)
    × (choose_server g m ≡ some (next, reply))
    × (extract_ip_and_port (reply ++ rest) ≡ some (info.ip, info.tcp_port))

abbrev pub Ends : ℤ → Master → Bytes → Type 0
Ends g m rest =
    (reply : Bytes) × (choose_server g m ≡ some (m, reply))
    × All (λ info. info.is_dead ≡ true) (group_of g m.servers)
    × (extract_ip_and_port (reply ++ rest) ≡ none)

some_or : ServerInfo → Option ServerInfo → ServerInfo
some_or d none = d
some_or d (some x) = x

all_at :
    (P : ServerInfo → Type 0) (infos : List ServerInfo) (i : ℕ) (info : ServerInfo)
    → All P infos
    → get_elem? infos i ≡ some info
    → P info
unfolding some_or
all_at P [] i info h e = cc
all_at P (x ∷ infos) zero info h e = coe 0 1 (i. P (some_or x (e i))) h.0
all_at P (x ∷ infos) (suc i) info h e = all_at P infos i info h.1 e

-- If the index of the master's next server lies in the group, and each server of the group has an
-- address with no colon and a port that is an int, then the SMTP server reads in the answer to
-- GET_SERVER, whatever bytes with no colon stand behind it in the buffer, the address of a live
-- server of the group; or every server of the group is dead, and then an exception ends it.
pub extract_ip_and_port-choose_server :
    (g : ℤ) (m : Master) (rest : Bytes)
    → next_of g m < length (group_of g m.servers)
    → All HasAddress (group_of g m.servers)
    → Lacks b':' rest
    → Reads g m rest ⊎ Ends g m rest
extract_ip_and_port-choose_server g m rest h addressed l = elim (choose_server_lem g m h) [
  | inl (e, dead) ↦ inr (_, e, dead, extract_ip_and_port-none_alive rest l)
  | inr (k, _, _, (info, at, live, e, _)) ↦ inl (
    info,
    _,
    _,
    _,
    at,
    live,
    e,
    (λ i.
          extract_ip_and_port
            (append_assoc (codes "SERVER_INFO:") (address info ++ codes "\r\n") rest i))
        ∙ (λ i.
            extract_ip_and_port
              (codes "SERVER_INFO:" ++ append_assoc (address info) (codes "\r\n") rest i))
        ∙ extract_ip_and_port-address info rest
            (all_at HasAddress (group_of g m.servers) _ info addressed at),
  )
]
