-- ===== src/Frontend/Login/Parse.antt =====
-- What the frontend reads out of a login form and out of the store's reply to a GET.
use distributed_cloud_storag.Prelude.{
  ◌≡◌, ◌≢◌, refl, ap, ◌∙◌, false, [], ◌∷◌, ◌++◌, none, some, arith, ltb, if◌then◌else◌, length,
  take-append, All-append,
}
use distributed_cloud_storag.Prelude.Dict.{Bytes, eqb}
use distributed_cloud_storag.Text.{codes}
use distributed_cloud_storag.Text.Find.{Lacks, Lacks-holds_no, find, find-line_end}
use distributed_cloud_storag.Text.Getline.{getlines, getlines-append, getlines_last}
use distributed_cloud_storag.Kvstore.Handle.Replies.{get_reply}
use distributed_cloud_storag.Frontend.Login.{
  store_field, login_pair, login_pairs, parse_login_data, password_of, extract_password,
}

-- The store's reply to a GET gives the stored value back, if that holds no "\r".
pub extract_password-get_reply :
    (value : Bytes) → Lacks b'\r' value → extract_password (get_reply (some value)) ≡ some value
unfolding extract_password password_of
extract_password-get_reply value h =
    let long : ltb (length (get_reply (some value))) 4 ≡ false = ground arith in
    ap
      (λ b.
        if b
        then none
        else password_of (value ++ codes "\r\n") (find (codes "\r\n") (value ++ codes "\r\n")))
      long
    ∙ ap (password_of (value ++ codes "\r\n")) (find-line_end value [] h)
    ∙ ap some (take-append value (codes "\r\n"))

abbrev pub login_form : Bytes → Bytes → Bytes
login_form u p = codes "username=" ++ (u ++ b'&' ∷ (codes "password=" ++ p))

fields :
    (key value : Bytes)
    → Lacks b'=' key
    → Lacks b'=' value
    → value ≢ []
    → getlines b'=' (key ++ b'=' ∷ value) ≡ key ∷ value ∷ []
fields key value hk hv ne =
    getlines-append b'=' key value hk ∙ ap (λ l. key ∷ l) (getlines_last b'=' value ne hv)

-- A login form gives back the name and the password that are in it, if they are not empty and hold
-- neither "&" nor "=".
pub parse_login_data-login_form :
    (u p : Bytes)
    → Lacks b'&' u
    → Lacks b'=' u
    → u ≢ []
    → Lacks b'&' p
    → Lacks b'=' p
    → p ≢ []
    → parse_login_data (login_form u p) ≡ (u, p)
unfolding parse_login_data login_pairs login_pair store_field eqb
parse_login_data-login_form u p ua ue un pa pe pn =
    let a = codes "username=" ++ u in
    let b = codes "password=" ++ p in
    let la = All-append _ (codes "username=") u (Lacks-holds_no b'&' (codes "username=") refl) ua in
    let lb = All-append _ (codes "password=") p (Lacks-holds_no b'&' (codes "password=") refl) pa in
    ap (λ l. login_pairs l ([], []))
      (getlines-append b'&' a b la ∙ ap (λ l. a ∷ l) (getlines_last b'&' b (λ e. ground arith) lb))
    ∙ (λ i.
        store_field
          (fields (codes "password") p (Lacks-holds_no b'=' (codes "password") refl) pe pn i)
          (store_field
            (fields (codes "username") u (Lacks-holds_no b'=' (codes "username") refl) ue un i)
            ([], [])))
