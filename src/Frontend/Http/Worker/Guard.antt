-- ===== src/Frontend/Http/Worker/Guard.antt =====
-- What the HTTP server of the frontend sends to a connection on which nobody has logged in.
use distributed_cloud_storag.Prelude.{◌≡◌, Bool, true, false, Option, none, some, All}
use distributed_cloud_storag.Frontend.Http.State.{
  ReplyCode, redirect, login, signup, new_pass, forbidden, Reply, page, file_data, not_implemented,
  Worker, Result,
}

-- The pages for everybody: those of login, signing up and a new password, the redirection, and the
-- page that says that access is forbidden.
abbrev pub public_code : ReplyCode → Bool
public_code login = true
public_code signup = true
public_code new_pass = true
public_code redirect = true
public_code forbidden = true
public_code _ = false

abbrev is_public : Reply → Bool
is_public (page code username item) = public_code code
is_public (file_data name text) = false
is_public not_implemented = true

abbrev pub AllPublic : Worker → Type 0
AllPublic c = All (λ r. is_public r ≡ true) c.sent

-- From `c` to `d`: while nobody is logged in, only public pages are added.
pub record Fair (c d : Worker) : Type 0 where
  pub before : d.logged_in ≡ false → c.logged_in ≡ false
  pub kept : d.logged_in ≡ false → AllPublic c → AllPublic d

abbrev pub FairSome : Worker → Option Worker → Type 0
FairSome c none = Unit
FairSome c (some d) = Fair c d

abbrev pub FairResult : {W : Type 0} → Worker → Result W → Type 0
FairResult c none = Unit
FairResult c (some (d, w)) = Fair c d

pub same : (c : Worker) → Fair c c
same c = record { before = λ e. e; kept = λ e h. h }

pub joined : (a b c : Worker) → Fair a b → Fair b c → Fair a c
joined a b c p q = record {
  before = λ e. p.before (q.before e);
  kept = λ e h. q.kept e (p.kept (q.before e) h);
}

pub joined_some : (a b : Worker) (o : Option Worker) → Fair a b → FairSome b o → FairSome a o
joined_some a b none p q = tt
joined_some a b (some c) p q = joined a b c p q

pub joined_result :
    {W : Type 0} (a b : Worker) (r : Result W) → Fair a b → FairResult b r → FairResult a r
joined_result a b none p q = tt
joined_result a b (some (c, w)) p q = joined a b c p q
