-- ===== src/Frontend/Http/State.antt =====
-- The variables of a connection's thread in frontend/frontendserver.cc, and what it calls.
use distributed_cloud_storag.Prelude.{
  Bool, false, List, [], Option, none, some, ltb, if◌then◌else◌, length, drop,
}
use distributed_cloud_storag.Prelude.Dict.{Bytes}
use distributed_cloud_storag.Prelude.Int.{ℤ, pos}

-- The codes that tell which page is asked for.
pub data ReplyCode : Type 0 where
  redirect login menu mailbox drive email send_email forward download rename move remove new_dir :
      ReplyCode
  upload signup new_pass not_found forbidden : ReplyCode

-- `sent` are the pages that were sent, each with the arguments of the call of `generateReply`; a
-- file is sent in place of one for a download.
pub data Reply : Type 0 where
  page : ReplyCode → Bytes → Bytes → Reply
  file_data : Bytes → Bytes → Reply
  not_implemented : Reply

-- `sid` is the cookie of the connection, `tmp_sid` the one that the last request had.
pub record Worker : Type 0 where
  pub buffer : Bytes
  pub read_header : Bool
  pub read_body : Bool
  pub content_len : ℤ
  pub content_type : Bytes
  pub sid : Bytes
  pub tmp_sid : Bytes
  pub reply_code : ReplyCode
  pub username : Bytes
  pub logged_in : Bool
  pub item : Bytes
  pub sent : List Reply

abbrev pub fresh : Bytes → Worker
fresh sid = record {
  buffer = [];
  read_header = false;
  read_body = false;
  content_len = pos 0;
  content_type = [];
  sid = sid;
  tmp_sid = [];
  reply_code = not_found;
  username = [];
  logged_in = false;
  item = [];
  sent = [];
}

-- What lies behind the sockets, as a state `W`: the server of the key-value store that the
-- connection talks to, a command and its reply at a time; the choice of that server for a user; the
-- SMTP server, which is sent the texts of a mail; and OpenSSL's base64.
pub record Site (W : Type 0) : Type 0 where
  pub ask : Bytes → W → Bytes × W
  pub connect : Bytes → W → W
  pub mail : List Bytes → W → W
  pub encode : Bytes → Bytes
  pub decode : Bytes → Bytes

-- The state of the thread and what lies behind the sockets. `none` is an exception, or undefined.
abbrev pub Result : Type 0 → Type 0
Result W = Option (Worker × W)

-- response.substr(4)
unfoldable pub without_ok : Bytes → Option Bytes
without_ok response = if ltb (length response) 4 then none else some (drop 4 response)
