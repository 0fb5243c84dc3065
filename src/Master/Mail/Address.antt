-- ===== src/Master/Mail/Address.antt =====
-- The addresses "ip:port" in the messages of the master, written and read back.
use distributed_cloud_storag.Prelude.{
  ℕ, ◌+◌, ◌-◌, ◌^◌, ◌≤◌, ◌<◌, ◌≡◌, ◌≢◌, refl, sym, ap, ◌∙◌, true, false, ◌||◌, [], ◌∷◌, ◌++◌,
  append-nil, some, arith, ltb, if◌then◌else◌, length, take, drop, All, All-append, length-append,
  take-append, drop-append-suc,
}
use distributed_cloud_storag.Prelude.Dict.{Bytes}
use distributed_cloud_storag.Prelude.Int.{pos}
use distributed_cloud_storag.Text.Find.{Lacks, behind, up_to, find_byte-append}
use distributed_cloud_storag.Text.Decimal.{to_string, stoi}
use distributed_cloud_storag.Text.Decimal.RoundTrip.{IsDigit, print_nat-digits, stoi-to_string}
use distributed_cloud_storag.Kvstore.Config.{ServerInfo}
use distributed_cloud_storag.Kvstore.Status.{between, addressed, parse_address}
use distributed_cloud_storag.Master.State.{address}

-- The bytes of an IP address: digits and dots.
abbrev pub IsIp : Bytes → Type 0
IsIp = All (λ c. (b'.' ≤ c) × (c ≤ b'9'))

pub IsIp-Lacks : (c : ℕ) (s : Bytes) → (ltb c b'.' || ltb b'9' c) ≡ true → IsIp s → Lacks c s
IsIp-Lacks c [] h a = tt
IsIp-Lacks c (x ∷ s) h a = ground (arith, IsIp-Lacks c s h a.1)

digits-IsIp : (s : Bytes) → All IsDigit s → IsIp s
digits-IsIp [] a = tt
digits-IsIp (x ∷ s) a = ground (arith, digits-IsIp s a.1)

to_string-IsIp : (n : ℕ) → IsIp (to_string (pos n))
unfolding to_string
to_string-IsIp n = digits-IsIp _ (print_nat-digits n)

-- A server whose address can be sent: its IP address, and a port of `int`.
pub record IsAddressed (info : ServerInfo) : Type 0 where
  pub ip : IsIp info.ip
  pub port : ℕ
  pub is_port : info.tcp_port ≡ pos port
  pub in_range : port < 2 ^ 31

address-text :
    (info : ServerInfo) (a : IsAddressed info)
    → address info ≡ info.ip ++ b':' ∷ to_string (pos a.port)
unfolding address
address-text info a = λ i. info.ip ++ b':' ∷ to_string (a.is_port i)

parse_address-text :
    (ip : Bytes) (n : ℕ)
    → IsIp ip
    → n < 2 ^ 31
    → parse_address (ip ++ b':' ∷ to_string (pos n)) ≡ some (ip, pos n)
unfolding parse_address addressed behind up_to
parse_address-text ip n h l =
    let s = ip ++ b':' ∷ to_string (pos n) in
    let e = find_byte-append b':' ip (to_string (pos n)) (IsIp-Lacks b':' ip refl h) in
    ap (λ f. addressed (up_to f s) (stoi (drop (behind f) s))) e
    ∙ (λ i.
        addressed (take-append ip (b':' ∷ to_string (pos n)) i)
          (stoi (drop-append-suc ip b':' (to_string (pos n)) i)))
    ∙ ap (λ t. addressed ip (stoi t)) (sym (append-nil (to_string (pos n))))
    ∙ ap (addressed ip) (stoi-to_string n [] l tt)

pub parse_address-address :
    (info : ServerInfo)
    → IsAddressed info
    → parse_address (address info) ≡ some (info.ip, info.tcp_port)
parse_address-address info a =
    ap parse_address (address-text info a)
    ∙ parse_address-text info.ip a.port a.ip a.in_range
    ∙ (λ i. some (info.ip, sym a.is_port i))

pub address-Lacks :
    (c : ℕ) (info : ServerInfo)
    → IsAddressed info
    → (ltb c b'.' || ltb b':' c) ≡ true
    → Lacks c (address info)
address-Lacks c info a h =
    let t =
      All-append (λ x. x ≢ c) info.ip (b':' ∷ to_string (pos a.port))
        (IsIp-Lacks c info.ip (ground arith) a.ip)
        (
          (λ e. ground arith),
          IsIp-Lacks c (to_string (pos a.port)) (ground arith) (to_string-IsIp a.port),
        ) in
    coe 1 0 (i. Lacks c (address-text info a i)) t

pub between-behind :
    (c : ℕ) (word a rest : Bytes)
    → between (some (length word)) (some (length (word ++ c ∷ a))) (word ++ c ∷ (a ++ rest)) ≡ a
unfolding between behind
between-behind c word a rest =
    let s = word ++ c ∷ (a ++ rest) in
    let at = length (word ++ c ∷ a) in
    let n = length-append word (c ∷ a) in
    let later : ltb at (length word + 1) ≡ false = ground arith in
    let size : at - (length word + 1) ≡ length a = omega arith in
    ap
      (λ b.
        if b
        then drop (length word + 1) s
        else take (at - (length word + 1)) (drop (length word + 1) s))
      later
    ∙ (λ i. take (size i) (drop-append-suc word c (a ++ rest) i))
    ∙ take-append a rest
