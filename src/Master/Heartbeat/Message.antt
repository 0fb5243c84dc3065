-- ===== src/Master/Heartbeat/Message.antt =====
-- A heartbeat of a configured server, from `sendHeartbeat` of backend/kvstore/kvstore.cc to the
-- state of the master.
use distributed_cloud_storag.Prelude.{
  ℕ, suc, ◌+◌, ◌-◌, ◌^◌, ◌<◌, ◌≡◌, ◌≢◌, refl, sym, ap, ◌∙◌, true, false, List, [], ◌∷◌, ◌++◌,
  append_assoc, append-nil, none, some, arith, ltb, if◌then◌else◌, length, take, drop, All,
  All-append, take-append, take-append-longer, drop-append-suc,
}
use distributed_cloud_storag.Prelude.Dict.{Bytes, insert}
use distributed_cloud_storag.Prelude.Int.{ℤ, pos, eqz_refl}
use distributed_cloud_storag.Text.{codes}
use distributed_cloud_storag.Text.Cstring.{c_string, c_string-append}
use distributed_cloud_storag.Text.Find.{
  Lacks, Lacks-holds_no, find_byte, behind, up_to, find_byte-append,
}
use distributed_cloud_storag.Text.Decimal.{to_string, stoi, is_digit}
use distributed_cloud_storag.Text.Decimal.RoundTrip.{
  print_nat-digits, print_nat-ne-nil, Lacks-digits, stoi-to_string,
}
use distributed_cloud_storag.Kvstore.Config.{ServerInfo, group_of, set_group}
use distributed_cloud_storag.Kvstore.Server.{Server}
use distributed_cloud_storag.Kvstore.Status.{heartbeat_message}
use distributed_cloud_storag.Master.State.{Master, Primaries, Datagram}
use distributed_cloud_storag.Master.Groups.{IsSound, group_of-set_group, update-IsSound}
use distributed_cloud_storag.Master.Heartbeat.{
  heartbeat_key, before_comma, port_text, buffer_size, revive, noted, heartbeat_of, recv_heartbeat,
}
use distributed_cloud_storag.Master.Heartbeat.Revival.{last_port}
use distributed_cloud_storag.Master.Heartbeat.Settled.{Heard, revive_sound}

pub to_string-Lacks : (c n : ℕ) → is_digit c ≡ false → Lacks c (to_string (pos n))
unfolding to_string
to_string-Lacks c n h = Lacks-digits c _ h (print_nat-digits n)

to_string-ne-nil : (n : ℕ) → to_string (pos n) ≢ []
unfolding to_string
to_string-ne-nil n = print_nat-ne-nil n

-- The text of the message, before its NUL byte.
abbrev pub text : ℕ → ℕ → Bytes
text g t = to_string (pos g) ++ (b',' ∷ (to_string (pos t) ++ codes ",heartbeat"))

find_byte-text : (g t : ℕ) → find_byte b',' (text g t) ≡ some (length (to_string (pos g)))
find_byte-text g t = find_byte-append b',' (to_string (pos g)) _ (to_string-Lacks b',' g refl)

group-text :
    (g t : ℕ) → g < 2 ^ 31 → stoi (up_to (find_byte b',' (text g t)) (text g t)) ≡ some (pos g)
unfolding up_to
group-text g t h =
    ap (λ f. stoi (up_to f (text g t))) (find_byte-text g t)
    ∙ ap stoi (take-append (to_string (pos g)) (b',' ∷ (to_string (pos t) ++ codes ",heartbeat")))
    ∙ ap stoi (sym (append-nil (to_string (pos g))))
    ∙ stoi-to_string g [] h tt

stoi-longer :
    (k t : ℕ)
    → t < 2 ^ 31
    → stoi (take (length (to_string (pos t)) + suc k) (to_string (pos t) ++ codes ",heartbeat"))
      ≡ some (pos t)
stoi-longer k t h =
    ap stoi (take-append-longer (suc k) (to_string (pos t)) (codes ",heartbeat"))
    ∙ stoi-to_string t _ h refl

port_text-of :
    (m rest : Bytes) (a b : ℕ)
    → find_byte b',' m ≡ some a
    → drop (a + 1) m ≡ rest
    → find_byte b',' rest ≡ some b
    → port_text m ≡ take (b + a) rest
unfolding port_text behind before_comma
port_text-of m rest a b ea er eb =
    let e : a + 1 + b - 1 ≡ b + a = omega arith in
    ap (λ f. before_comma (behind f) (drop (behind f) m) (find_byte b',' (drop (behind f) m))) ea
    ∙ ap (λ r. before_comma (a + 1) r (find_byte b',' r)) er
    ∙ ap (before_comma (a + 1) rest) eb
    ∙ ap (λ n. take n rest) e

length-ne-nil : (s : Bytes) → s ≢ [] → (k : ℕ) × (length s ≡ suc k)
length-ne-nil [] h = ground arith
length-ne-nil (c ∷ s) h = (length s, refl)

stoi-port_text : (g t : ℕ) → t < 2 ^ 31 → stoi (port_text (text g t)) ≡ some (pos t)
stoi-port_text g t h =
    let (k, e) = length-ne-nil (to_string (pos g)) (to_string-ne-nil g) in
    ap stoi (
      port_text-of (text g t) _ _ _ (find_byte-text g t)
        (drop-append-suc (to_string (pos g)) b',' (to_string (pos t) ++ codes ",heartbeat"))
        (find_byte-append b',' (to_string (pos t)) (codes "heartbeat")
          (to_string-Lacks b',' t refl)))
    ∙ ap
        (λ n.
          stoi (take (length (to_string (pos t)) + n) (to_string (pos t) ++ codes ",heartbeat")))
        e
    ∙ stoi-longer k t h

recv_heartbeat-of :
    (now : ℕ) (d message : Bytes) (m : Master) (g tcp : ℤ) (infos : List ServerInfo)
    (ps : Primaries) (found : ServerInfo) (out : List Datagram)
    → d ≢ []
    → length d < buffer_size
    → c_string d ≡ message
    → stoi (up_to (find_byte b',' message) message) ≡ some g
    → stoi (port_text message) ≡ some tcp
    → revive g tcp (group_of g m.servers) m.primaries none ≡ some (infos, (ps, (some found, out)))
    → recv_heartbeat now d m
      ≡ some (
        record m {
          servers = set_group g infos m.servers;
          primaries = ps;
          seen = insert (heartbeat_key found) now m.seen;
        },
        out,
      )
unfolding recv_heartbeat heartbeat_of noted
recv_heartbeat-of now [] message m g tcp infos ps found out ne l ec eg et er = ground arith
recv_heartbeat-of now (c ∷ d) message m g tcp infos ps found out ne l ec eg et er =
    let short : ltb (length (c ∷ d)) buffer_size ≡ true = ground arith in
    ap
      (λ b.
        if b
        then heartbeat_of now m
            (stoi (up_to (find_byte b',' (c_string (c ∷ d))) (c_string (c ∷ d))))
            (stoi (port_text (c_string (c ∷ d))))
        else none)
      short
    ∙ ap (λ s. heartbeat_of now m (stoi (up_to (find_byte b',' s) s)) (stoi (port_text s))) ec
    ∙ ap (λ o. heartbeat_of now m o (stoi (port_text message))) eg
    ∙ ap (heartbeat_of now m (some g)) et
    ∙ ap (noted now g m) er

heartbeat_message-text :
    (g t : ℕ) (s : Server)
    → s.group ≡ pos g
    → s.info.tcp_port ≡ pos t
    → heartbeat_message s ≡ text g t ++ 0 ∷ []
unfolding heartbeat_message
heartbeat_message-text g t s eg et =
    (λ i. to_string (eg i) ++ (b',' ∷ (to_string (et i) ++ (codes ",heartbeat" ++ (0 ∷ [])))))
    ∙ rw (
      append_assoc (to_string (pos g)) (b',' ∷ (to_string (pos t) ++ codes ",heartbeat")) (0 ∷ []),
      append_assoc (to_string (pos t)) (codes ",heartbeat") (0 ∷ []),
    )

text-Lacks : (g t : ℕ) → Lacks 0 (text g t)
text-Lacks g t = All-append _ (to_string (pos g)) _ (to_string-Lacks 0 g refl) (
  (λ e. ground arith),
  All-append _ (to_string (pos t)) (codes ",heartbeat") (to_string-Lacks 0 t refl)
      (Lacks-holds_no 0 (codes ",heartbeat") refl),
)

append-ne-nil : (s t : Bytes) (c : ℕ) → s ++ c ∷ t ≢ []
append-ne-nil [] t c = λ e. ground arith
append-ne-nil (x ∷ s) t c = λ e. ground arith

-- A heartbeat of a server that is configured, with a group and a port that are no negative int, and
-- that fits the buffer, is taken where the master's state is sound: every server of the group with the port is
-- alive, the time is noted for the last of them, and the master's state is sound again: each group
-- has one primary, which is alive and registered, or all servers of the group are dead.
pub recv_heartbeat_lem :
    (now g t : ℕ) (s : Server) (m : Master) (found : ServerInfo)
    → s.group ≡ pos g
    → s.info.tcp_port ≡ pos t
    → g < 2 ^ 31
    → t < 2 ^ 31
    → length (heartbeat_message s) < buffer_size
    → last_port (pos t) (group_of (pos g) m.servers) none ≡ some found
    → IsSound m
    → (m' : Master) × (out : List Datagram) × (recv_heartbeat now (heartbeat_message s) m
        ≡ some (m', out))
      × (m'.seen ≡ insert (heartbeat_key found) now m.seen)
      × All (Heard (pos t)) (group_of (pos g) m'.servers)
      × IsSound m'
recv_heartbeat_lem now g t s m found eg et lg lt l ef sound =
    let (infos, ps, (out, e), sg, ag, heard, others) =
      revive_sound (pos g) (pos t) (group_of (pos g) m.servers) m.primaries none (sound (pos g)).0
        (sound (pos g)).1 in
    let em = heartbeat_message-text g t s eg et in
    let q : group_of (pos g) (set_group (pos g) infos m.servers) ≡ infos =
      group_of-set_group (pos g) (pos g) infos m.servers ∙ rw (eqz_refl (pos g)) in
    (
      _,
      out,
      recv_heartbeat-of now (heartbeat_message s) (text g t) m (pos g) (pos t) infos ps found out
          (λ z. append-ne-nil (text g t) [] 0 (sym em ∙ z)) l
          (ap c_string em ∙ c_string-append (text g t) [] (text-Lacks g t)) (group-text g t lg)
          (stoi-port_text g t lt) (e ∙ ap (λ f. some (infos, (ps, (f, out)))) ef),
      refl,
      coe 1 0 (i. All (Heard (pos t)) (q i)) heard,
      update-IsSound m (pos g) infos ps (insert (heartbeat_key found) now m.seen) sound sg ag
          others,
    )
