-- ===== src/Kvstore/Framing/Frames.antt =====
-- What the framing loop makes of whole frames, and of a frame that is cut between two reads.
use distributed_cloud_storag.Prelude.{
  ℕ, ◌≡◌, ◌≢◌, refl, ap, ◌∙◌, List, [], ◌∷◌, ◌++◌, append-nil, append_assoc, Option, none, some,
  arith, All, inl, inr, Option-cases,
}
use distributed_cloud_storag.Prelude.Dict.{Bytes}
use distributed_cloud_storag.Text.Find.{Lacks}
use distributed_cloud_storag.Kvstore.Framing.{feed}

abbrev pub crlf : Bytes → Bytes
crlf rest = b'\r' ∷ b'\n' ∷ rest

-- Each command behind another, ended by "\r\n".
abbrev pub frames : List Bytes → Bytes
frames [] = []
frames (w ∷ ws) = w ++ crlf (frames ws)

module _ {ℓ} {S : Type ℓ} (dispatch : Bytes → S → Option S) where
  abbrev pub then_feed : Bytes → Option S → Option (Bytes × S)
  then_feed rest none = none
  then_feed rest (some s) = feed dispatch rest [] s

  -- The commands handled one after another, until one faults.
  abbrev pub run_all : List Bytes → S → Option S
  run_all [] s = some s
  run_all (w ∷ ws) s = elim (dispatch w s) [ none ↦ none | some s' ↦ run_all ws s' ]

  abbrev pub nothing_left : Option S → Option (Bytes × S)
  nothing_left none = none
  nothing_left (some s) = some ([], s)

  feed_step :
      (ch next : ℕ) (bytes command : Bytes) (s : S)
      → ch ≢ b'\r'
      → feed dispatch (ch ∷ next ∷ bytes) command s
        ≡ feed dispatch (next ∷ bytes) (command ++ ch ∷ []) s
  unfolding feed
  feed_step ch next bytes command s h = ground arith

  feed_end :
      (rest command : Bytes) (s : S)
      → feed dispatch (crlf rest) command s ≡ then_feed rest (dispatch command s)
  unfolding feed
  feed_end rest command s = ground arith

  pub feed_frame :
      (w rest command : Bytes) (s : S)
      → Lacks b'\r' w
      → feed dispatch (w ++ crlf rest) command s ≡ then_feed rest (dispatch (command ++ w) s)
  feed_frame [] rest command s h = rw append-nil (feed_end rest command s)
  feed_frame (x ∷ []) rest command s h =
      feed_step x b'\r' (b'\n' ∷ rest) command s h.0 ∙ feed_end rest (command ++ x ∷ []) s
  feed_frame (x ∷ y ∷ w) rest command s h =
      feed_step x y (w ++ crlf rest) command s h.0
      ∙ feed_frame (y ∷ w) rest (command ++ x ∷ []) s h.1
      ∙ ap (λ t. then_feed rest (dispatch t s)) (append_assoc command (x ∷ []) (y ∷ w))

  -- Commands that hold no "\r", sent in frames that arrive in one read, are handled each once and in
  -- order until one faults, and if none does, nothing is left over.
  pub feed-frames :
      (ws : List Bytes) (s : S)
      → All (Lacks b'\r') ws
      → feed dispatch (frames ws) [] s ≡ nothing_left (run_all ws s)
  feed-frames [] s h = unfold feed in refl
  feed-frames (w ∷ ws) s h = elim (Option-cases (dispatch w s)) [
    | inl e ↦ feed_frame w (frames ws) [] s h.0 ∙ rw (e, run_all)
    | inr (s', e) ↦ feed_frame w (frames ws) [] s h.0 ∙ rw (e, run_all) (feed-frames ws s' h.1)
  ]

  -- A read that ends in the middle of a frame only adds to the command.
  feed_open :
      (w command : Bytes) (s : S)
      → Lacks b'\r' w
      → feed dispatch (w ++ b'\r' ∷ []) command s ≡ some (command ++ (w ++ b'\r' ∷ []), s)
  feed_open [] command s h = unfold feed in refl
  feed_open (x ∷ []) command s h =
      feed_step x b'\r' [] command s h.0
      ∙ unfold feed in (ap (λ t. some (t, s)) (append_assoc command (x ∷ []) (b'\r' ∷ [])))
  feed_open (x ∷ y ∷ w) command s h =
      feed_step x y (w ++ b'\r' ∷ []) command s h.0
      ∙ feed_open (y ∷ w) (command ++ x ∷ []) s h.1
      ∙ ap (λ t. some (t, s)) (append_assoc command (x ∷ []) (y ∷ (w ++ b'\r' ∷ [])))

  abbrev pub feed_two : Bytes → Bytes → S → Option (Bytes × S)
  feed_two first second s = elim (feed dispatch first [] s) [
    | none ↦ none
    | some (command, s') ↦ feed dispatch second command s'
  ]

  -- Where a read ends between the "\r" and the "\n" of a frame, and the commands hold no other "\r",
  -- the command of that frame is never handled by itself: its text, the line end included, becomes
  -- the start of the next command.
  pub feed_cut_in_crlf :
      (w v rest : Bytes) (s : S)
      → Lacks b'\r' w
      → Lacks b'\r' v
      → feed_two (w ++ b'\r' ∷ []) (b'\n' ∷ (v ++ crlf rest)) s
        ≡ then_feed rest (dispatch ((w ++ b'\r' ∷ []) ++ b'\n' ∷ v) s)
  feed_cut_in_crlf w v rest s hw hv =
      rw (feed_open w [] s hw, feed_two)
        (feed_frame (b'\n' ∷ v) rest (w ++ b'\r' ∷ []) s (omega arith, hv))
