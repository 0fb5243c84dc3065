-- ===== src/Smtp/External/Accepted.antt =====
-- When smtpec takes a mail for delivered.
use distributed_cloud_storag.Prelude.{
  ◌≡◌, refl, ◌∙◌, Bool, true, false, List, [], ◌∷◌, ◌++◌, append_assoc, some, if◌then◌else◌,
}
use distributed_cloud_storag.Prelude.Dict.{Bytes}
use distributed_cloud_storag.Smtp.Queue.{EmailInfo}
use distributed_cloud_storag.Smtp.External.{
  is_service_ready, is_ok_response, commands_for, content_of, Received, send_commands, final_reply,
  after_commands, after_greeting, attempt_delivery,
}

-- The commands that are sent when the replies to them are these: up to the first that is refused.
abbrev sent_up_to : List Bytes → List Bytes → List Bytes
sent_up_to (c ∷ cs) (r ∷ rs) =
    let rest = sent_up_to cs rs in if is_ok_response r then c ∷ rest else c ∷ []
sent_up_to cs rs = []

-- All replies are positive.
abbrev all_ok : List Bytes → Bool
all_ok [] = true
all_ok (r ∷ rs) = let rest = all_ok rs in if is_ok_response r then rest else false

abbrev SameLength : List Bytes → List Bytes → Type 0
SameLength [] [] = Unit
SameLength (c ∷ cs) (r ∷ rs) = SameLength cs rs
SameLength _ _ = ⊥

abbrev pub heard : List Bytes → Received → Received
heard [] more = more
heard (r ∷ rs) more = some r ∷ heard rs more

abbrev delivered_by : EmailInfo → List Bytes → List Bytes → Bytes → Bool × List Bytes
delivered_by e cs rs last =
    if all_ok rs then (is_ok_response last, cs ++ content_of e) else (false, sent_up_to cs rs)

after_all :
    (e : EmailInfo) (cs rs : List Bytes) (last : Bytes) (sent : List Bytes)
    → SameLength cs rs
    → after_commands e (send_commands cs (heard rs (some last ∷ [])) sent)
      ≡ some (
          if all_ok rs
          then (is_ok_response last, sent ++ (cs ++ content_of e))
          else (false, sent ++ sent_up_to cs rs))
unfolding send_commands after_commands final_reply
after_all e [] [] last sent h = refl
after_all e [] (r ∷ rs) last sent h = absurd h
after_all e (c ∷ cs) [] last sent h = absurd h
after_all e (c ∷ cs) (r ∷ rs) last sent h =
    elim (is_ok_response r)
      as (λ b.
        after_commands e (
          if b
          then send_commands cs (heard rs (some last ∷ [])) (sent ++ c ∷ [])
          else some (false, sent ++ c ∷ [], heard rs (some last ∷ [])))
        ≡ some (
            if (if b then all_ok rs else false)
            then (is_ok_response last, sent ++ c ∷ (cs ++ content_of e))
            else (false, sent ++ (if b then c ∷ sent_up_to cs rs else c ∷ [])))) [
              | true ↦ after_all e cs rs last (sent ++ c ∷ []) h ∙ (λ i. some (
                  if all_ok rs
                  then (is_ok_response last, append_assoc sent (c ∷ []) (cs ++ content_of e) i)
                  else (false, append_assoc sent (c ∷ []) (sent_up_to cs rs) i)))
              | false ↦ refl
            ]

-- A server that sends a greeting, a reply to each of the four commands as far as it is asked, and a
-- last one: with a greeting that is not one line of "220", nothing is sent and the mail is not
-- delivered. Otherwise the commands are sent up to the first whose reply is not one line of "250" or
-- "354", and if there is none, also the content, a line end and the line with the dot; the mail is
-- delivered exactly if all five replies are such lines.
attempt_delivery_lem :
    (e : EmailInfo) (greeting last : Bytes) (rs : List Bytes)
    → SameLength (commands_for e) rs
    → attempt_delivery e (some greeting ∷ heard rs (some last ∷ []))
      ≡ some (
          if is_service_ready greeting
          then delivered_by e (commands_for e) rs last
          else (false, []))
unfolding attempt_delivery after_greeting
attempt_delivery_lem e greeting last rs h =
    elim (is_service_ready greeting)
      as (λ b.
        (if b
          then after_commands e (send_commands (commands_for e) (heard rs (some last ∷ [])) [])
          else some (false, []))
        ≡ some (if b then delivered_by e (commands_for e) rs last else (false, []))) [
          | true ↦ after_all e (commands_for e) rs last [] h
          | false ↦ refl
        ]
