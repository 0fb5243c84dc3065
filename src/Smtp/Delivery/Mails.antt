-- ===== src/Smtp/Delivery/Mails.antt =====
-- A delivery against a description of it: the mails that are sent and queued, as lists.
use distributed_cloud_storag.Prelude.{
  ℕ, suc, ◌+◌, ◌≡◌, refl, sym, ◌∙◌, Bool, true, false, ◌||◌, List, [], ◌∷◌, ◌++◌, append-nil,
  append_assoc, Option, none, some, arith, if◌then◌else◌, length,
}
use distributed_cloud_storag.Prelude.Dict.{Bytes}
use distributed_cloud_storag.Prelude.Int.{ℤ}
use distributed_cloud_storag.Text.{codes}
use distributed_cloud_storag.Smtp.Text.{name_of, extract_ip_and_port}
use distributed_cloud_storag.Smtp.State.{helo_received, Session, World, send_response, cleared}
use distributed_cloud_storag.Smtp.Delivery.{
  put_mail, put_to, store_mail, store_all, queued, queue_all, reported, some_recipient, relay_mail,
  deliver,
}

abbrev Put : Type 0
Put = (Bytes × ℤ) × Bytes

abbrev pub joined : Option (List Put) → Option (List Put) → Option (List Put)
joined none m = none
joined (some l) none = none
joined (some l) (some m) = some (l ++ m)

module _ (w : World) (from content : Bytes) where
  abbrev pub put_where : Bytes → Option (Bytes × ℤ) → Option (List Put)
  put_where user none = none
  put_where user (some server) =
      some (if w.reaches server then (server, put_mail w from user content) ∷ [] else [])

  -- The command for one user, if the user's server can be reached. `none` is an exception.
  abbrev pub one_put : Bytes → Option Bytes → Option (List Put)
  one_put user none = some []
  one_put user (some info) = put_where user (extract_ip_and_port info)

  -- The commands for the users of all recipients.
  abbrev pub all_puts : List Bytes → Option (List Put)
  all_puts [] = some []
  all_puts (r ∷ rs) = joined (one_put (name_of r) (w.server_of (name_of r))) (all_puts rs)

-- The recipients whose mail can be queued, and the text for them.
abbrev pub queueable : World → List Bytes → List Bytes
queueable w [] = []
queueable w (r ∷ rs) = let rest = queueable w rs in if w.queue_opens r then r ∷ rest else rest

abbrev pub queue_text : Bytes → Bytes → List Bytes → Bytes
queue_text from content [] = []
queue_text from content (r ∷ rs) = queued from r content ++ queue_text from content rs

plus_suc : (n k : ℕ) → (n + 1) + k ≡ n + suc k
plus_suc n k = omega arith

or_false : (b : Bool) → (b || false) ≡ b
or_false true = refl
or_false false = refl

plus_zero : (n : ℕ) → n ≡ n + 0
plus_zero n = omega arith

abbrev stored : Option (List Put) → Session → Option Session
stored none s = none
stored (some l) s = some (record s { puts = s.puts ++ l })

-- The commands for the first recipient and those for the rest are the commands for all.
stored_then :
    (l m : Option (List Put)) (s : Session) (rest : Session → Option Session)
    → ((k : List Put)
        → rest (record s { puts = s.puts ++ k }) ≡ stored m (record s { puts = s.puts ++ k }))
    → elim (stored l s) as (λ _. Option Session) [ none ↦ none | some t ↦ rest t ]
      ≡ stored (joined l m) s
stored_then none m s rest h = refl
stored_then (some l) none s rest h = h l
stored_then (some l) (some m) s rest h =
    h l ∙ (λ i. some (record s { puts = append_assoc s.puts l m i }))

-- The reply at the end of a mail.
abbrev pub end_reply : Bool → Bytes
end_reply true = codes "250 OK : Email Sent\r\n"
end_reply false = codes "554 Data Transfer Failed, restart process again\r\n"

module _ (w : World) (content : Bytes) where
  put_to_lem :
      (user : Bytes) (o : Option (Bytes × ℤ)) (s : Session)
      → put_to w user content o s ≡ stored (put_where w s.mail_from content user o) s
  unfolding put_to
  put_to_lem user none s = refl
  put_to_lem user (some server) s =
      elim (w.reaches server)
        as (λ b.
          ◌≡◌ {A = Option Session}
            (some (
              if b
              then record s { puts = s.puts ++ (server, put_mail w s.mail_from user content) ∷ [] }
              else s))
            (some (record s {
              puts =
                  s.puts ++ (if b then (server, put_mail w s.mail_from user content) ∷ [] else []);
            }))) [ true ↦ refl | false ↦ λ i. some (record s { puts = sym (append-nil s.puts) i }) ]

  store_mail_lem :
      (user : Bytes) (o : Option Bytes) (s : Session)
      → store_mail w user content o s ≡ stored (one_put w s.mail_from content user o) s
  unfolding store_mail
  store_mail_lem user none s = λ i. some (record s { puts = sym (append-nil s.puts) i })
  store_mail_lem user (some info) s = put_to_lem user (extract_ip_and_port info) s

  -- The first loop of a delivery sends the commands for its recipients in their order.
  store_all_lem :
      (rs : List Bytes) (s : Session)
      → store_all w rs content s ≡ stored (all_puts w s.mail_from content rs) s
  unfolding store_all
  store_all_lem [] s = λ i. some (record s { puts = sym (append-nil s.puts) i })
  store_all_lem (r ∷ rs) s =
      (λ i.
        elim (store_mail_lem (name_of r) (w.server_of (name_of r)) s i) as (λ _. Option Session) [
          | none ↦ none
          | some t ↦ store_all w rs content t
        ])
      ∙ stored_then (one_put w s.mail_from content (name_of r) (w.server_of (name_of r)))
          (all_puts w s.mail_from content rs) s (store_all w rs content)
          (λ k. store_all_lem rs (record s { puts = s.puts ++ k }))

  -- The second loop adds the mails for the recipients whose file opens.
  abbrev with_queue : List Bytes → Session → Session
  with_queue rs s = record s {
    mqueue = s.mqueue ++ queue_text s.mail_from content rs;
    runs = s.runs + length rs;
  }

  abbrev queue_rest_of : List Bytes → Bool → Session → Bool × Session
  queue_rest_of rs success s = (success || some_recipient rs, with_queue rs s)

  abbrev queue_rest : List Bytes → Bool → Session → Bool × Session
  queue_rest rs success s = queue_rest_of (queueable w rs) success s

  queued_next :
      (r : Bytes) (rs : List Bytes) (success b : Bool) (s : Session)
      → queue_rest rs (success || b) (
          if b
          then record s { mqueue = s.mqueue ++ queued s.mail_from r content; runs = s.runs + 1 }
          else s)
        ≡ queue_rest_of (if b then r ∷ queueable w rs else queueable w rs) success s
  unfolding some_recipient
  queued_next r rs true true s = λ i. (
    true,
    record s {
      mqueue =
          append_assoc s.mqueue (queued s.mail_from r content)
            (queue_text s.mail_from content (queueable w rs)) i;
      runs = plus_suc s.runs (length (queueable w rs)) i;
    },
  )
  queued_next r rs false true s = λ i. (
    true,
    record s {
      mqueue =
          append_assoc s.mqueue (queued s.mail_from r content)
            (queue_text s.mail_from content (queueable w rs)) i;
      runs = plus_suc s.runs (length (queueable w rs)) i;
    },
  )
  queued_next r rs true false s = refl
  queued_next r rs false false s = refl

  queue_all_lem :
      (rs : List Bytes) (success : Bool) (s : Session)
      → queue_all w rs content success s ≡ queue_rest rs success s
  unfolding queue_all some_recipient
  queue_all_lem [] success s = λ i. (
    sym (or_false success) i,
    record s { mqueue = sym (append-nil s.mqueue) i; runs = plus_zero s.runs i },
  )
  queue_all_lem (r ∷ rs) success s =
      queue_all_lem rs (success || w.queue_opens r) (
        if w.queue_opens r
        then record s { mqueue = s.mqueue ++ queued s.mail_from r content; runs = s.runs + 1 }
        else s)
      ∙ queued_next r rs success (w.queue_opens r) s

  -- A delivery as a whole, for the commands that it sends.
  abbrev pub delivered : Session → Option (List Put) → Option Session
  delivered s none = none
  delivered s (some puts) =
      let q = queueable w s.rcpt_to_relay in
      some (record {
        state = helo_received;
        mail_from = [];
        rcpt_to = [];
        rcpt_to_relay = [];
        sent = s.sent ++ end_reply (some_recipient s.rcpt_to || some_recipient q) ∷ [];
        puts = s.puts ++ puts;
        mqueue = s.mqueue ++ queue_text s.mail_from content q;
        runs = s.runs + length q;
      })

  reported_lem :
      (b : Bool) (s : Session)
      → reported (b, s) ≡ cleared (record s { sent = s.sent ++ end_reply b ∷ [] })
  unfolding reported send_response cleared
  reported_lem true s = refl
  reported_lem false s = refl

  delivered-stored :
      (puts : Option (List Put)) (s : Session)
      → elim (stored puts s) as (λ _. Option Session) [
        | none ↦ none
        | some t ↦ some (reported (relay_mail w content (some_recipient s.rcpt_to) t))
      ]
        ≡ delivered s puts
  unfolding relay_mail cleared
  delivered-stored none s = refl
  delivered-stored (some puts) s =
      let t = record s { puts = s.puts ++ puts } in
      let b = some_recipient s.rcpt_to in
      (λ i. some (reported (queue_all_lem s.rcpt_to_relay b t i))) ∙ (λ i. some (
        reported_lem (b || some_recipient (queueable w s.rcpt_to_relay))
          (with_queue (queueable w s.rcpt_to_relay) t) i))

  -- The end of a mail puts it, for each recipient in the order of their names, to the server that
  -- the master names for the user, if both can be reached, and adds it to the queue for each other
  -- recipient for whom the file opens, smtpec being started once for each. The reply is that the
  -- mail was sent if there is a local recipient, or another one for whom the file opens, and that
  -- it failed otherwise; then no sender and no recipient is kept. An exception is thrown exactly
  -- where a reply of the master has no port.
  pub deliver_lem :
      (s : Session) → deliver w content s ≡ delivered s (all_puts w s.mail_from content s.rcpt_to)
  unfolding deliver
  deliver_lem s =
      (λ i. elim (store_all_lem s.rcpt_to s i) as (λ _. Option Session) [
        | none ↦ none
        | some t ↦ some (reported (relay_mail w content (some_recipient s.rcpt_to) t))
      ])
      ∙ delivered-stored (all_puts w s.mail_from content s.rcpt_to) s
