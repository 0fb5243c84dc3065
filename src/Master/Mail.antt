-- ===== src/Master/Mail.antt =====
-- What a server makes of the status messages of the master: from `sendIsPrimary` and
-- `sendNewSecondaryInfoToPrimary` of backend/kvstore/master.cc to `receiveStatus` of kvstore.cc.
pub mod Address
use distributed_cloud_storag.Prelude.{
  ℕ, ◌+◌, ◌-◌, ◌^◌, ◌≤◌, ◌<◌, ◌≡◌, ◌≢◌, refl, sym, ap, ◌∙◌, Bool, true, false, ◌||◌, [], ◌∷◌, ◌++◌,
  append_assoc, append-nil, Option, none, some, arith, ltb, if◌then◌else◌, length, take, drop, All,
  All-append, length-append, take-append, drop-append-suc,
}
use distributed_cloud_storag.Prelude.Dict.{Bytes, eqb}
use distributed_cloud_storag.Prelude.Int.{pos}
use distributed_cloud_storag.Text.{codes}
use distributed_cloud_storag.Text.Cstring.{c_string-append}
use distributed_cloud_storag.Text.Find.{
  Lacks, Lacks-holds_no, holds_no, find_byte, behind, up_to, find_byte-append, find_byte-Lacks,
}
use distributed_cloud_storag.Text.Decimal.{to_string, stoi}
use distributed_cloud_storag.Text.Decimal.RoundTrip.{IsDigit, print_nat-digits, stoi-to_string}
use distributed_cloud_storag.Kvstore.Config.{ServerInfo}
use distributed_cloud_storag.Kvstore.Server.{Server}
use distributed_cloud_storag.Kvstore.Status.{
  between, addressed, parse_address, as_primary, new_secondary, hear_secondary, become_primary,
  as_secondary, hear_primary, become_secondary, peer_died, hear_death, note_death, receive_status,
}
use distributed_cloud_storag.Master.State.{address, dead_part, status_message, send_new_secondary}
use distributed_cloud_storag.Master.Mail.Address.{
  IsIp, IsIp-Lacks, IsAddressed, parse_address-address, address-Lacks, between-behind,
}

-- The server that the mail names as dead can be addressed.
abbrev pub IsNamed : Option ServerInfo → Type 0
IsNamed none = Unit {0}
IsNamed (some d) = (d.is_dead ≡ true) × IsAddressed d

dead_part-Lacks :
    (c : ℕ) (d : Option ServerInfo)
    → IsNamed d
    → (ltb c b'.' || ltb b';' c) ≡ true
    → Lacks c (dead_part d)
unfolding dead_part
dead_part-Lacks c none n h = tt
dead_part-Lacks c (some d) n h =
    let e : (if d.is_dead then b';' ∷ address d else []) ≡ b';' ∷ address d = rw (n.0) in
    coe 1 0 (i. Lacks c (e i)) ((λ q. ground arith), address-Lacks c d n.1 (ground arith))

-- What the mail means for its receiver.
abbrev bereaved : Option ServerInfo → Server → Option Server
bereaved none s = some s
bereaved (some d) s = peer_died s (some (d.ip, d.tcp_port))

hear_death-part :
    (prefix : Bytes) (d : Option ServerInfo) (s : Server)
    → Lacks b';' prefix
    → IsNamed d
    → note_death (prefix ++ dead_part d) (some s) ≡ bereaved d s
unfolding note_death hear_death dead_part
hear_death-part prefix none s l n =
    ap (λ f. hear_death (prefix ++ []) s f)
      (find_byte-Lacks b';' (prefix ++ []) (All-append _ prefix [] l tt))
hear_death-part prefix (some d) s l n =
    ap (λ b. note_death (prefix ++ (if b then b';' ∷ address d else [])) (some s)) n.0
    ∙ ap (hear_death (prefix ++ b';' ∷ address d) s) (find_byte-append b';' prefix (address d) l)
    ∙ ap (λ t. peer_died s (parse_address t)) (drop-append-suc prefix b';' (address d))
    ∙ ap (peer_died s) (parse_address-address d n.1)

become_primary-part :
    (d : Bytes) (s : Server)
    → Lacks b'@' d
    → become_primary (codes "PRIMARY:" ++ d) s ≡ some (as_primary s)
unfolding become_primary hear_secondary
become_primary-part d s l = ap (hear_secondary (codes "PRIMARY:" ++ d) (as_primary s)) (
    find_byte-Lacks b'@' (codes "PRIMARY:" ++ d)
      (All-append _ (codes "PRIMARY:") d (Lacks-holds_no b'@' (codes "PRIMARY:") refl) l))

become_secondary-part :
    (p : ServerInfo) (d : Bytes) (s : Server)
    → IsAddressed p
    → become_secondary (codes "SECONDARY:" ++ (address p ++ b'@' ∷ d)) s
      ≡ some (as_secondary (p.ip, p.tcp_port) s)
unfolding become_secondary hear_primary find_byte
become_secondary-part p d s a =
    let m = codes "SECONDARY:" ++ (address p ++ b'@' ∷ d) in
    let l : Lacks b'@' (codes "SECONDARY:" ++ address p) =
      All-append _ (codes "SECONDARY:") (address p) (Lacks-holds_no b'@' (codes "SECONDARY:") refl)
        (address-Lacks b'@' p a refl) in
    ap (λ f. hear_primary s (parse_address (between (some 9) f m)))
      (find_byte-append b'@' (codes "SECONDARY:" ++ address p) d l)
    ∙ ap (λ t. hear_primary s (parse_address t))
        (between-behind b':' (codes "SECONDARY") (address p) (b'@' ∷ d))
    ∙ ap (hear_primary s) (parse_address-address p a)

abbrev body : Bool → ServerInfo → Bytes
body true p = codes "PRIMARY:"
body false p = codes "SECONDARY:" ++ (address p ++ b'@' ∷ [])

body-Lacks :
    (c : ℕ) (b : Bool) (p : ServerInfo)
    → IsAddressed p
    → holds_no c (codes "PRIMARY:") ≡ true
    → holds_no c (codes "SECONDARY:") ≡ true
    → holds_no c (b'@' ∷ []) ≡ true
    → (ltb c b'.' || ltb b':' c) ≡ true
    → Lacks c (body b p)
body-Lacks c true p a h1 h2 h3 l = Lacks-holds_no c (codes "PRIMARY:") h1
body-Lacks c false p a h1 h2 h3 l =
    All-append _ (codes "SECONDARY:") _ (Lacks-holds_no c (codes "SECONDARY:") h2) (
      All-append _ (address p) (b'@' ∷ []) (address-Lacks c p a l)
        (Lacks-holds_no c (b'@' ∷ []) h3))

status_message-body :
    (b : Bool) (p : ServerInfo) (d : Option ServerInfo)
    → status_message b p d ≡ (body b p ++ dead_part d) ++ 0 ∷ []
unfolding status_message
status_message-body true p d = sym (append_assoc (body true p) (dead_part d) (0 ∷ []))
status_message-body false p d = sym (append_assoc (body false p) (dead_part d) (0 ∷ []))

text-Lacks :
    (b : Bool) (p : ServerInfo) (d : Option ServerInfo)
    → IsAddressed p
    → IsNamed d
    → Lacks 0 (body b p ++ dead_part d)
text-Lacks b p d a n =
    All-append _ (body b p) (dead_part d) (body-Lacks 0 b p a refl refl refl refl)
      (dead_part-Lacks 0 d n refl)

-- What a server makes of the mail.
abbrev pub told : Bool → ServerInfo → Option ServerInfo → Server → Option Server
told true p d s = bereaved d (as_primary s)
told false p d s = bereaved d (as_secondary (p.ip, p.tcp_port) s)

receive_status-body :
    (b : Bool) (p : ServerInfo) (d : Option ServerInfo) (s : Server)
    → IsAddressed p
    → IsNamed d
    → receive_status ((body b p ++ dead_part d) ++ 0 ∷ []) s ≡ told b p d s
unfolding receive_status find_byte up_to eqb
receive_status-body true p d s a n =
    ap
      (λ t. note_death t (
        if eqb (up_to (find_byte b':' t) t) (codes "PRIMARY")
        then become_primary t s
        else become_secondary t s))
      (c_string-append (body true p ++ dead_part d) [] (text-Lacks true p d a n))
    ∙ ap (note_death (body true p ++ dead_part d))
        (become_primary-part (dead_part d) s (dead_part-Lacks b'@' d n refl))
    ∙ hear_death-part (body true p) d (as_primary s) (body-Lacks b';' true p a refl refl refl refl)
        n
receive_status-body false p d s a n =
    ap
      (λ t. note_death t (
        if eqb (up_to (find_byte b':' t) t) (codes "PRIMARY")
        then become_primary t s
        else become_secondary t s))
      (c_string-append (body false p ++ dead_part d) [] (text-Lacks false p d a n))
    ∙ ap (λ t. note_death (body false p ++ dead_part d) (become_secondary t s))
        (append_assoc (codes "SECONDARY:") (address p ++ b'@' ∷ []) (dead_part d)
          ∙ ap (λ t. codes "SECONDARY:" ++ t) (append_assoc (address p) (b'@' ∷ []) (dead_part d)))
    ∙ ap (note_death (body false p ++ dead_part d)) (become_secondary-part p (dead_part d) s a)
    ∙ hear_death-part (body false p) d (as_secondary (p.ip, p.tcp_port) s)
        (body-Lacks b';' false p a refl refl refl refl) n

-- The mail of `sendIsPrimary` is read as it was written.
pub receive_status-status_message :
    (b : Bool) (p : ServerInfo) (d : Option ServerInfo) (s : Server)
    → IsAddressed p
    → IsNamed d
    → receive_status (status_message b p d) s ≡ told b p d s
receive_status-status_message b p d s a n =
    ap (λ t. receive_status t s) (status_message-body b p d) ∙ receive_status-body b p d s a n

secondary_text : ServerInfo → Bytes
secondary_text info = codes "PRIMARY:" ++ (address info ++ b'@' ∷ [])

secondary_text-Lacks :
    (c : ℕ) (info : ServerInfo)
    → IsAddressed info
    → holds_no c (codes "PRIMARY:") ≡ true
    → holds_no c (b'@' ∷ []) ≡ true
    → (ltb c b'.' || ltb b':' c) ≡ true
    → Lacks c (secondary_text info)
unfolding secondary_text
secondary_text-Lacks c info a h1 h2 l =
    All-append _ (codes "PRIMARY:") _ (Lacks-holds_no c (codes "PRIMARY:") h1) (
      All-append _ (address info) (b'@' ∷ []) (address-Lacks c info a l)
        (Lacks-holds_no c (b'@' ∷ []) h2))

become_primary-secondary :
    (info : ServerInfo) (s : Server)
    → IsAddressed info
    → become_primary (secondary_text info) s
      ≡ new_secondary (as_primary s) (some (info.ip, info.tcp_port))
unfolding become_primary hear_secondary find_byte secondary_text
become_primary-secondary info s a =
    let m = codes "PRIMARY:" ++ (address info ++ b'@' ∷ []) in
    let l : Lacks b'@' (codes "PRIMARY:" ++ address info) =
      All-append _ (codes "PRIMARY:") (address info) (Lacks-holds_no b'@' (codes "PRIMARY:") refl)
        (address-Lacks b'@' info a refl) in
    ap (hear_secondary m (as_primary s))
      (find_byte-append b'@' (codes "PRIMARY:" ++ address info) [] l)
    ∙ ap (λ t. new_secondary (as_primary s) (parse_address t))
        (between-behind b':' (codes "PRIMARY") (address info) (b'@' ∷ []))
    ∙ ap (new_secondary (as_primary s)) (parse_address-address info a)

receive_status-secondary_text :
    (info : ServerInfo) (s : Server)
    → IsAddressed info
    → receive_status (secondary_text info ++ 0 ∷ []) s
      ≡ new_secondary (as_primary s) (some (info.ip, info.tcp_port))
unfolding receive_status find_byte up_to eqb note_death hear_death new_secondary secondary_text
receive_status-secondary_text info s a =
    ap
      (λ t. note_death t (
        if eqb (up_to (find_byte b':' t) t) (codes "PRIMARY")
        then become_primary t s
        else become_secondary t s))
      (c_string-append (secondary_text info) [] (secondary_text-Lacks 0 info a refl refl refl))
    ∙ ap (note_death (secondary_text info)) (become_primary-secondary info s a)
    ∙ ap (hear_death (secondary_text info) _) (
        find_byte-Lacks b';' (secondary_text info)
          (secondary_text-Lacks b';' info a refl refl refl))

-- The mail of `sendNewSecondaryInfoToPrimary` is read as it was written.
pub receive_status-send_new_secondary :
    (p info : ServerInfo) (s : Server)
    → IsAddressed info
    → receive_status (send_new_secondary p info).body s
      ≡ new_secondary (as_primary s) (some (info.ip, info.tcp_port))
unfolding send_new_secondary secondary_text
receive_status-send_new_secondary p info s a =
    ap (λ t. receive_status (codes "PRIMARY:" ++ t) s)
      (sym (append_assoc (address info) (b'@' ∷ []) (0 ∷ [])))
    ∙ receive_status-secondary_text info s a
