-- ===== src/Master/Expiry/Key.antt =====
-- The keys of `last_heartbeat`, written and read back.
use distributed_cloud_storag.Prelude.{
  ℕ, ◌+◌, ◌^◌, ◌<◌, ◌≡◌, refl, sym, ap, ◌∙◌, ◌∷◌, ◌++◌, append_assoc, some, arith, length, take,
  drop, All-append, take-append, drop-append-suc,
}
use distributed_cloud_storag.Prelude.Dict.{Bytes}
use distributed_cloud_storag.Prelude.Int.{pos}
use distributed_cloud_storag.Text.Find.{find_byte, behind, up_to, find_byte-append}
use distributed_cloud_storag.Text.Decimal.{to_string, stoi}
use distributed_cloud_storag.Text.Decimal.RoundTrip.{stoi-to_string_alone}
use distributed_cloud_storag.Kvstore.Config.{ServerInfo}
use distributed_cloud_storag.Kvstore.Status.{between}
use distributed_cloud_storag.Master.State.{Master, address}
use distributed_cloud_storag.Master.Heartbeat.{heartbeat_key}
use distributed_cloud_storag.Master.Heartbeat.Message.{to_string-Lacks}
use distributed_cloud_storag.Master.Mail.Address.{IsIp, IsIp-Lacks, IsAddressed, between-behind}
use distributed_cloud_storag.Master.Expiry.{keyed, parse_key, bury, expire_at, expire}

-- The key's text.
abbrev key : ℕ → Bytes → ℕ → Bytes
key g ip t = to_string (pos g) ++ b';' ∷ (ip ++ b':' ∷ to_string (pos t))

key-split :
    (g : ℕ) (ip : Bytes) (t : ℕ)
    → key g ip t ≡ (to_string (pos g) ++ b';' ∷ ip) ++ b':' ∷ to_string (pos t)
key-split g ip t = sym (append_assoc (to_string (pos g)) (b';' ∷ ip) (b':' ∷ to_string (pos t)))

colon_at :
    (g : ℕ) (ip : Bytes) (t : ℕ)
    → IsIp ip
    → find_byte b':' (key g ip t) ≡ some (length (to_string (pos g) ++ b';' ∷ ip))
colon_at g ip t h =
    ap (find_byte b':') (key-split g ip t)
    ∙ find_byte-append b':' (to_string (pos g) ++ b';' ∷ ip) (to_string (pos t)) (
        All-append _ (to_string (pos g)) (b';' ∷ ip) (to_string-Lacks b':' g refl)
          ((λ e. ground arith), IsIp-Lacks b':' ip refl h))

parse_key-key :
    (g : ℕ) (ip : Bytes) (t : ℕ)
    → IsIp ip
    → g < 2 ^ 31
    → t < 2 ^ 31
    → parse_key (key g ip t) ≡ some (pos g, (ip, pos t))
unfolding parse_key keyed behind up_to
parse_key-key g ip t h lg lt =
    let k = key g ip t in
    let p = to_string (pos g) ++ b';' ∷ ip in
    ap
      (λ f.
        keyed (between f (find_byte b':' k) k) (stoi (up_to f k))
          (stoi (drop (behind (find_byte b':' k)) k)))
      (find_byte-append b';' (to_string (pos g)) (ip ++ b':' ∷ to_string (pos t))
        (to_string-Lacks b';' g refl))
    ∙ ap
        (λ f.
          keyed (between (some (length (to_string (pos g)))) f k)
            (stoi (take (length (to_string (pos g))) k)) (stoi (drop (behind f) k)))
        (colon_at g ip t h)
    ∙ (λ i.
        keyed (between-behind b';' (to_string (pos g)) ip (b':' ∷ to_string (pos t)) i)
          (stoi (take-append (to_string (pos g)) (b';' ∷ (ip ++ b':' ∷ to_string (pos t))) i))
          (stoi (drop (length p + 1) (key-split g ip t i))))
    ∙ (λ i.
        keyed ip (stoi-to_string_alone g lg i)
          (stoi (drop-append-suc p b':' (to_string (pos t)) i)))
    ∙ ap (keyed ip (some (pos g))) (stoi-to_string_alone t lt)

heartbeat_key-key :
    (g : ℕ) (info : ServerInfo) (a : IsAddressed info)
    → info.replica_group ≡ pos g
    → heartbeat_key info ≡ key g info.ip a.port
unfolding heartbeat_key address
heartbeat_key-key g info a e =
    λ i. to_string (e i) ++ b';' ∷ (info.ip ++ b':' ∷ to_string (a.is_port i))

-- The entry of `last_heartbeat` that a heartbeat of a server makes, whose address can be sent and
-- whose group is no negative int, is read back, when it is too
-- old, as the server's own group, IP address and port: so the death that is handled is its own.
pub expire-heartbeat_key :
    (g : ℕ) (info : ServerInfo) (m : Master)
    → IsAddressed info
    → info.replica_group ≡ pos g
    → g < 2 ^ 31
    → expire (heartbeat_key info) m ≡ bury info.replica_group info.ip info.tcp_port m
unfolding expire expire_at
expire-heartbeat_key g info m a e l =
    ap (λ k. expire_at m (parse_key k)) (heartbeat_key-key g info a e)
    ∙ ap (expire_at m) (parse_key-key g info.ip a.port a.ip l a.in_range)
    ∙ (λ i. bury (sym e i) info.ip (sym a.is_port i) m)
