-- ===== src/Frontend/Http/Worker.antt =====
-- The loop of `thread_worker` of frontend/frontendserver.cc, with what each call of `read` gave.
pub mod Guard
pub mod Acts
pub mod Pages
pub mod Outsider
pub mod Unguarded
use distributed_cloud_storag.Prelude.{
  ℕ, zero, suc, ◌+◌, Bool, true, false, List, [], ◌∷◌, ◌++◌, Option, none, some, ltb, if◌then◌else◌,
  length, take, drop,
}
use distributed_cloud_storag.Prelude.Dict.{Bytes}
use distributed_cloud_storag.Prelude.Int.{ℤ, pos, negsuc}
use distributed_cloud_storag.Text.{codes}
use distributed_cloud_storag.Text.Find.{find}
use distributed_cloud_storag.Text.Cstring.{c_string}
use distributed_cloud_storag.Frontend.Http.State.{Worker, Site, Result, fresh}
use distributed_cloud_storag.Frontend.Http.Actions.{handle_body}
use distributed_cloud_storag.Frontend.Http.Request.{read_line}

-- The line that ends at `n` is handled and taken off the buffer.
unfoldable pub taken_off : ℕ → Option Worker → Option Worker
taken_off n none = none
taken_off n (some c) = some (record c { buffer = drop (n + 2) c.buffer })

unfoldable pub line_at : Worker → ℕ → Option Worker
unfolding taken_off
line_at c n = taken_off n (read_line (take n c.buffer) c)

-- The lines in the buffer, up to a NUL byte. Each takes two bytes at least, so its length is fuel
-- enough.
unfoldable pub read_lines : ℕ → Worker → Option Worker
unfolding line_at
read_lines zero c = some c
read_lines (suc fuel) c = elim (find (codes "\r\n") (c_string c.buffer)) [
  | none ↦ some c
  | some n ↦ elim (line_at c n) [ none ↦ none | some c' ↦ read_lines fuel c' ]
]

unfoldable pub with_world : {W : Type 0} → W → Option Worker → Result W
with_world w none = none
with_world w (some c) = some (c, w)

module _ {W : Type 0} (site : Site W) where
  -- `content_len` is positive while a body is read.
  unfoldable pub body_if_whole : ℤ → Worker → W → Result W
  body_if_whole (pos n) c w =
      if ltb (length c.buffer) n then some (c, w) else handle_body site n c w
  body_if_whole (negsuc n) c w = some (c, w)

  -- One call of `read`, some bytes at least. While a body is read, no lines are.
  unfoldable pub receive : Bytes → Worker → W → Result W
  unfolding body_if_whole read_lines with_world
  receive bytes c w =
      let d = record c { buffer = c.buffer ++ bytes } in
      if c.read_body
      then body_if_whole c.content_len d w
      else with_world w (read_lines (length d.buffer) d)

  -- A connection, as far as it was read.
  unfoldable pub serve : List Bytes → Worker → W → Result W
  unfolding receive
  serve [] c w = some (c, w)
  serve (bytes ∷ reads) c w = elim (receive bytes c w) [
    | none ↦ none
    | some (c', w') ↦ serve reads c' w'
  ]

  unfoldable pub thread_worker : Bytes → List Bytes → W → Result W
  unfolding serve
  thread_worker sid reads w = serve reads (fresh sid) w
