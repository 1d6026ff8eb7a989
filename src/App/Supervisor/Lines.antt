-- ===== src/App/Supervisor/Lines.antt =====
-- src/app/ai_process_supervisor.cpp, `handle_stdout`: the output of the process is cut into lines,
-- against a reference that goes byte by byte.
use ips_with_ai.Prelude.{
  ℕ, zero, suc, ◌≤◌, ◌≡◌, refl, ◌∙◌, ap, true, false, none, some, [], ◌∷◌, ◌++◌, arith,
  if◌then◌else◌, Bool-cases, Option-cases, inl, inr, length, length-append, All, All-append_one,
  ◌==◌,
}
use ips_with_ai.Json.{JsonLibrary}
use ips_with_ai.App.Supervisor.{
  Bytes, Supervisor, World, set_state, cut_line, chop_cr, become_ready, ready_version,
  handle_stdout_line, stdout_lines, handle_stdout,
}

abbrev NoFeed : Bytes → Type 0
NoFeed = All (λ c. (c == 10) ≡ false)

append-nil : (b : Bytes) → b ++ [] ≡ b
append-nil [] = refl
append-nil (c ∷ b) = ap (λ r. c ∷ r) (append-nil b)

append-one : (b : Bytes) (c : ℕ) (cs : Bytes) → b ++ c ∷ cs ≡ (b ++ c ∷ []) ++ cs
append-one [] c cs = refl
append-one (x ∷ b) c cs = ap (λ r. x ∷ r) (append-one b c cs)

cut_line-none : (b : Bytes) → NoFeed b → cut_line b ≡ none
unfolding cut_line
cut_line-none [] h = refl
cut_line-none (c ∷ b) h = rw (h.0, cut_line-none b h.1) refl

cut_line-some :
    (b rest : Bytes) (c : ℕ)
    → NoFeed b
    → (c == 10) ≡ true
    → cut_line (b ++ c ∷ rest) ≡ some (b, rest)
unfolding cut_line
cut_line-some [] rest c h e = rw e refl
cut_line-some (x ∷ b) rest c h e = rw (h.0, cut_line-some b rest c h.1 e) refl

module _ {J : Type 0} (json : JsonLibrary J) (w : World) where
  -- The reference: a line feed hands over the line, any other byte is kept.
  unfoldable pub feed_byte : Supervisor → ℕ → Supervisor
  feed_byte s c =
      if c == 10
      then handle_stdout_line json (record s { stdout_buffer = [] }) (chop_cr s.stdout_buffer) w
      else record s { stdout_buffer = s.stdout_buffer ++ c ∷ [] }

  unfoldable pub feed : Supervisor → Bytes → Supervisor
  feed s [] = s
  feed s (c ∷ cs) = feed (feed_byte s c) cs

  stdout_lines-none :
      (n : ℕ) (s : Supervisor) → cut_line s.stdout_buffer ≡ none → stdout_lines json n s w ≡ s
  unfolding stdout_lines
  stdout_lines-none zero s e = refl
  stdout_lines-none (suc n) s e = rw (e, stdout_lines) refl

  stdout_lines-some :
      (n : ℕ) (s : Supervisor) (line rest : Bytes)
      → cut_line s.stdout_buffer ≡ some (line, rest)
      → stdout_lines json (suc n) s w
        ≡ stdout_lines json n
            (handle_stdout_line json (record s { stdout_buffer = rest }) (chop_cr line) w)
            w
  unfolding stdout_lines
  stdout_lines-some n s line rest e = rw (e, stdout_lines) refl

  feed-append : (a b : Bytes) (s : Supervisor) → feed s (a ++ b) ≡ feed (feed s a) b
  unfolding feed
  feed-append [] b s = refl
  feed-append (c ∷ a) b s = feed-append a b (feed_byte s c)

  module _ (calm : w.ready_error ≡ none) where
    handle_stdout_line-buffer :
        (s : Supervisor) (line b : Bytes)
        → handle_stdout_line json (record s { stdout_buffer = b }) line w
          ≡ record (handle_stdout_line json (record s { stdout_buffer = [] }) line w) {
            stdout_buffer = b;
          }
    unfolding handle_stdout_line become_ready set_state
    handle_stdout_line-buffer s line b = elim (Option-cases (ready_version json line)) [
      | inl e ↦ ground arith
      | inr (version, e) ↦ ground (arith, calm)
    ]

    stdout_lines-feed :
        (cs : Bytes) (n : ℕ) (s : Supervisor)
        → NoFeed s.stdout_buffer
        → length (s.stdout_buffer ++ cs) ≤ n
        → stdout_lines json n (record s { stdout_buffer = s.stdout_buffer ++ cs }) w ≡ feed s cs
    unfolding stdout_lines feed feed_byte
    stdout_lines-feed [] n s h k =
        let e = append-nil s.stdout_buffer in
        rw e (stdout_lines-none n s (cut_line-none s.stdout_buffer h))
    stdout_lines-feed (c ∷ cs) zero s h k =
        absurd (omega (arith, length-append s.stdout_buffer (c ∷ cs)))
    stdout_lines-feed (c ∷ cs) (suc n) s h k = elim (Bool-cases (c == 10)) [
      | inl e ↦
          let b = s.stdout_buffer in
          let s' = handle_stdout_line json (record s { stdout_buffer = [] }) (chop_cr b) w in
          let empty : s'.stdout_buffer ≡ [] =
            ap (λ (t : Supervisor). t.stdout_buffer) (handle_stdout_line-buffer s (chop_cr b) []) in
          let ih =
            stdout_lines-feed cs n s' (rw empty tt)
              (rw empty (omega (arith, length-append b (c ∷ cs)))) in
          let same : handle_stdout_line json (record s { stdout_buffer = cs }) (chop_cr b) w
              ≡ record s' { stdout_buffer = s'.stdout_buffer ++ cs } =
            rw empty (handle_stdout_line-buffer s (chop_cr b) cs) in
          stdout_lines-some n (record s { stdout_buffer = b ++ c ∷ cs }) b cs
            (cut_line-some b cs c h e)
          ∙ (ap (λ t. stdout_lines json n t w) same ∙ (rw (e, feed_byte) ih))
      | inr e ↦
          let b = s.stdout_buffer in
          let s' = record s { stdout_buffer = b ++ c ∷ [] } in
          let ih =
            stdout_lines-feed cs (suc n) s' (All-append_one (λ x. (x == 10) ≡ false) b c h e)
              (rw (← append-one b c cs) k) in
          rw (append-one b c cs, e, feed_byte) ih
    ]

    -- Where the ready handler throws nothing and the buffer holds no line feed, a read does what taking
    -- its bytes one by one does, where each line is handed over at its line feed; in particular the
    -- rounds of the loop are enough.
    pub handle_stdout-feed :
        (s : Supervisor) (bytes : Bytes)
        → NoFeed s.stdout_buffer
        → handle_stdout json s bytes w ≡ feed s bytes
    unfolding handle_stdout
    handle_stdout-feed s bytes h =
        stdout_lines-feed bytes (length (s.stdout_buffer ++ bytes)) s h (omega arith)

    feed-NoFeed :
        (cs : Bytes) (s : Supervisor) → NoFeed s.stdout_buffer → NoFeed (feed s cs).stdout_buffer
    unfolding feed feed_byte
    feed-NoFeed [] s h = h
    feed-NoFeed (c ∷ cs) s h = elim (Bool-cases (c == 10)) [
      | inl e ↦
          let b = s.stdout_buffer in
          let s' = handle_stdout_line json (record s { stdout_buffer = [] }) (chop_cr b) w in
          let empty : s'.stdout_buffer ≡ [] =
            ap (λ (t : Supervisor). t.stdout_buffer) (handle_stdout_line-buffer s (chop_cr b) []) in
          rw (e, feed, feed_byte) (feed-NoFeed cs s' (rw empty tt))
      | inr e ↦
          rw (e, feed, feed_byte)
            (feed-NoFeed cs (record s { stdout_buffer = s.stdout_buffer ++ c ∷ [] })
              (All-append_one (λ x. (x == 10) ≡ false) s.stdout_buffer c h e))
    ]

    -- How the output is cut into reads does not matter, where the ready handler throws nothing and the
    -- buffer holds no line feed: two reads bring the supervisor where one read of both would.
    pub handle_stdout-handle_stdout :
        (s : Supervisor) (a b : Bytes)
        → NoFeed s.stdout_buffer
        → handle_stdout json (handle_stdout json s a w) b w ≡ handle_stdout json s (a ++ b) w
    handle_stdout-handle_stdout s a b h =
        rw (handle_stdout-feed s a h, handle_stdout-feed s (a ++ b) h, feed-append a b s)
          (handle_stdout-feed (feed s a) b (feed-NoFeed a s h))
