-- ===== src/Frontend/Http/Password.antt =====
-- Passwords: signing up, logging in and changing one.
use distributed_cloud_storag.Prelude.{
  ℕ, ◌≡◌, ◌≢◌, refl, ◌∙◌, Bool, true, false, ◌&&◌, [], ◌∷◌, ◌++◌, append_assoc, some, arith,
  if◌then◌else◌,
}
use distributed_cloud_storag.Prelude.Dict.{Bytes, eqb, eqb_refl}
use distributed_cloud_storag.Text.{codes}
use distributed_cloud_storag.Text.Find.{Lacks}
use distributed_cloud_storag.Kvstore.Table.{get, get-set}
use distributed_cloud_storag.Kvstore.Server.{Server}
use distributed_cloud_storag.Kvstore.Framing.Frames.{crlf}
use distributed_cloud_storag.Kvstore.Handle.Replies.{get_reply}
use distributed_cloud_storag.Kvstore.Recovery.Writes.{put, line}
use distributed_cloud_storag.Kvstore.Cluster.Peer.{Carried}
use distributed_cloud_storag.Kvstore.Alone.{IsAlone}
use distributed_cloud_storag.Frontend.Login.{parse_login_data, extract_password}
use distributed_cloud_storag.Frontend.Login.Parse.{
  login_form, parse_login_data-login_form, extract_password-get_reply,
}
use distributed_cloud_storag.Frontend.Http.State.{redirect, Worker, Site}
use distributed_cloud_storag.Frontend.Http.Account.{
  matches, is_right, password_query, authenticate, after_login, log_in, signup_command, sign_up,
}
use distributed_cloud_storag.Frontend.Http.Store.{
  Codec, one_server, ask_server, ask_server-write, ask_server-get,
}

-- A name or a password as it stands in a form.
pub record IsField (s : Bytes) : Type 0 where
  pub no_and : Lacks b'&' s
  pub no_equals : Lacks b'=' s
  pub full : s ≢ []

abbrev pub entered : Bytes → Bool → Worker → Worker
entered u right c =
    if right
    then record c { username = u; logged_in = true }
    else record c { username = []; reply_code = redirect }

module _ (now : ℕ) (codec : Codec) (u : Bytes) (name : IsField u) (carried : Carried u) where
  abbrev site : Site Server
  site = one_server now codec

  abbrev password_key : Bytes
  password_key = codes "password"

  key-Carried : Carried password_key
  key-Carried = (omega arith, omega arith)

  form : (p : Bytes) → IsField p → parse_login_data (login_form u p) ≡ (u, p)
  form p h =
      parse_login_data-login_form u p name.no_and name.no_equals name.full h.no_and h.no_equals
        h.full

  matches-full : (q p : Bytes) → p ≢ [] → matches site q p ≡ eqb q p
  unfolding matches
  matches-full q [] n = absurd (n refl)
  matches-full q (c ∷ p) n = refl

  after_login-entered :
      (right : Bool) (c : Worker) (s : Server)
      → after_login site u c (some right, s) ≡ some (entered u right c, s)
  unfolding after_login
  after_login-entered true c s = refl
  after_login-entered false c s = refl

  signup-line :
      (p : Bytes) → signup_command site u p ≡ line (put u password_key (codec.encode p)) ++ crlf []
  unfolding signup_command
  signup-line p = simp append_assoc

  -- A user who signs up with a password is logged in with that password, and with no other one: the
  -- frontend goes back to the login page then. Names and passwords are not empty and have neither
  -- "&" nor "=", and the name neither comma nor "\r"; the store is one server that is alone.
  pub sign_up-log_in :
      (p q : Bytes) (c d : Worker) (s : Server)
      → IsField p
      → IsField q
      → IsAlone s
      → (s' : Server) × (s'' : Server) × (sign_up site (login_form u p) c s
          ≡ some (record c { username = []; reply_code = redirect }, s'))
        × (log_in site (login_form u q) d s' ≡ some (entered u (eqb q p) d, s''))
  unfolding sign_up log_in authenticate is_right password_query
  sign_up-log_in p q c d s hp hq a =
      let (s', e, (t, b)) =
        ask_server-write now (put u password_key (codec.encode p)) s
          ((carried, key-Carried, codec.carried p), codec.full p hp.full) a in
      let (s'', f, (t', b')) =
        ask_server-get now u password_key s' carried key-Carried (λ z. cc) b in
      let v = codec.encode p in
      let stored : get s'.table u password_key ≡ some v =
        (λ i. get (t i) u password_key) ∙ get-set s.table u password_key v u password_key ∙ (λ i.
          if eqb_refl u i && eqb_refl password_key i then some v else get s.table u password_key) in
      (
        s',
        s'',
        (λ i. some (
          record c { username = []; reply_code = redirect },
          (ask_server now (signup_command site (form p hp i).0 (form p hp i).1) s).1,
        ))
            ∙ (λ i. some (
              record c { username = []; reply_code = redirect },
              (ask_server now (signup-line p i) s).1,
            ))
            ∙ (λ i. some (record c { username = []; reply_code = redirect }, (e i).1)),
        (λ i.
              after_login site (form q hq i).0 d
                (authenticate site (form q hq i).0 (form q hq i).1 s'))
            ∙ (λ i. after_login site u d (is_right site q (extract_password (f i).0), (f i).1))
            ∙ (λ i.
                after_login site u d
                  (is_right site q (extract_password (get_reply (stored i))), s''))
            ∙ (λ i.
                after_login site u d
                  (is_right site q (extract_password-get_reply v (codec.carried p).1 i), s''))
            ∙ (λ i. after_login site u d (some (matches site q (codec.decoded p i)), s''))
            ∙ (λ i. after_login site u d (some (matches-full q p hp.full i), s''))
            ∙ after_login-entered (eqb q p) d s'',
      )
