-- ===== src/Smtp/Connection/Mail.antt =====
-- A mail that arrives in pieces.
use distributed_cloud_storag.Prelude.{
  ◌-◌, ◌≡◌, ◌≢◌, refl, sym, ap, ◌∙◌, true, false, ◌&&◌, List, [], ◌∷◌, ◌++◌, append_assoc, Option,
  none, some, arith, leb, if◌then◌else◌, length, take, drop, length-append, take-append,
  drop-append,
}
use distributed_cloud_storag.Prelude.Dict.{Bytes, eqb}
use distributed_cloud_storag.Text.{codes}
use distributed_cloud_storag.Smtp.State.{World}
use distributed_cloud_storag.Smtp.Delivery.{is_complete, without_dot}
use distributed_cloud_storag.Smtp.Connection.{
  Conn, after_mail, read_mail, receive_in, receive, serve_from,
}

-- The pieces, behind what was read before, make up a text; each has a byte, and what is there before
-- the last one does not look like the end of a mail.
abbrev pub InPieces : Bytes → Bytes → List Bytes → Type 0
InPieces text content [] = ⊥
InPieces text content (piece ∷ []) = (piece ≢ []) × (content ++ piece ≡ text)
InPieces text content (piece ∷ next ∷ pieces) =
    (piece ≢ [])
    × (is_complete (content ++ piece) ≡ false)
    × InPieces text (content ++ piece) (next ∷ pieces)

-- The text is `m` and the line with the dot.
abbrev pub Arrives : Bytes → Bytes → List Bytes → Type 0
Arrives m content pieces = InPieces (m ++ codes "\r\n.\r\n") content pieces

is_complete_mail : (m : Bytes) → is_complete (m ++ codes "\r\n.\r\n") ≡ true
unfolding is_complete eqb
is_complete_mail m =
    let n : length (m ++ codes "\r\n.\r\n") - 5 ≡ length m =
      omega (arith, length-append m (codes "\r\n.\r\n")) in
    let l : leb 5 (length (m ++ codes "\r\n.\r\n")) ≡ true =
      ground (arith, length-append m (codes "\r\n.\r\n")) in
    (λ i. l i && eqb (drop (n i) (m ++ codes "\r\n.\r\n")) (codes "\r\n.\r\n"))
    ∙ ap (λ t. eqb t (codes "\r\n.\r\n")) (drop-append m (codes "\r\n.\r\n"))

without_dot_mail : (m : Bytes) → without_dot (m ++ codes "\r\n.\r\n") ≡ m ++ codes "\r\n"
unfolding without_dot
without_dot_mail m =
    let s = m ++ codes "\r\n" in
    let e : m ++ codes "\r\n.\r\n" ≡ s ++ codes ".\r\n" =
      sym (append_assoc m (codes "\r\n") (codes ".\r\n")) in
    let n : length (s ++ codes ".\r\n") - 3 ≡ length s =
      omega (arith, length-append s (codes ".\r\n")) in
    (λ i. take (length (e i) - 3) (e i))
    ∙ (λ i. take (n i) (s ++ codes ".\r\n"))
    ∙ take-append s (codes ".\r\n")

module _ (w : World) where
  read_mail_last :
      (m content piece : Bytes) (c : Conn)
      → piece ≢ []
      → content ++ piece ≡ m ++ codes "\r\n.\r\n"
      → read_mail w content piece c ≡ after_mail w (m ++ codes "\r\n") c
  unfolding read_mail
  read_mail_last m content [] c n e = absurd (n refl)
  read_mail_last m content (b ∷ piece) c n e =
      (λ i.
        if is_complete (e i)
        then after_mail w (without_dot (e i)) c
        else some (record c { content = some (e i) }))
      ∙ (λ i.
          if is_complete_mail m i
          then after_mail w (without_dot_mail m i) c
          else some (record c { content = some (m ++ codes "\r\n.\r\n") }))

  read_mail_more :
      (content piece : Bytes) (c : Conn)
      → piece ≢ []
      → is_complete (content ++ piece) ≡ false
      → read_mail w content piece c ≡ some (record c { content = some (content ++ piece) })
  unfolding read_mail
  read_mail_more content [] c n e = absurd (n refl)
  read_mail_more content (b ∷ piece) c n e = λ i.
      if e i
      then after_mail w (without_dot (content ++ b ∷ piece)) c
      else some (record c { content = some (content ++ b ∷ piece) })

  receive_mail :
      (bytes content : Bytes) (c : Conn)
      → c.connected ≡ true
      → c.content ≡ some content
      → receive w bytes c ≡ read_mail w content bytes c
  unfolding receive receive_in
  receive_mail bytes content c o e = λ i. if o i then receive_in w (e i) bytes c else some c

  abbrev then_serve : List Bytes → Option Conn → Option Conn
  then_serve reads none = none
  then_serve reads (some c) = serve_from w reads c

  serve_from_step :
      (bytes : Bytes) (reads : List Bytes) (c : Conn) (o : Option Conn)
      → receive w bytes c ≡ o
      → serve_from w (bytes ∷ reads) c ≡ then_serve reads o
  unfolding serve_from
  serve_from_step bytes reads c o e = ap (then_serve reads) e

  -- While DATA reads, a mail that arrives in pieces, each with a byte, is delivered with all its
  -- bytes up to the line with the dot, if no shorter run of the pieces ends as a mail does.
  pub serve_from-Arrives :
      (m content : Bytes) (pieces : List Bytes) (c : Conn)
      → c.connected ≡ true
      → c.content ≡ some content
      → Arrives m content pieces
      → serve_from w pieces c ≡ after_mail w (m ++ codes "\r\n") c
  serve_from-Arrives m content [] c o e h = absurd h
  serve_from-Arrives m content (piece ∷ []) c o e (n, q) =
      serve_from_step piece [] c _
        (receive_mail piece content c o e ∙ read_mail_last m content piece c n q)
      ∙ served (after_mail w (m ++ codes "\r\n") c)
    where
      served : (r : Option Conn) → then_serve [] r ≡ r
      served none = refl
      served (some d) = unfold serve_from in refl
  serve_from-Arrives m content (piece ∷ next ∷ pieces) c o e (n, q, h) =
      serve_from_step piece (next ∷ pieces) c _
        (receive_mail piece content c o e ∙ read_mail_more content piece c n q)
      ∙ serve_from-Arrives m (content ++ piece) (next ∷ pieces)
          (record c { content = some (content ++ piece) }) o refl h
      ∙ unfold after_mail in refl
