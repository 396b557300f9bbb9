-- ===== src/Kernel/Shell/Line/Stored.antt =====
-- What a removal and an insertion leave in the buffer.
use astra_os.Base.{
  ℕ, suc, ◌+◌, ◌-◌, ◌≤◌, ◌<◌, ◌≡◌, ◌∙◌, refl, sym, ap, arith, inr, update, update_self, update_ne,
  ◌∷◌, ◌++◌, length, take, drop,
}
use astra_os.Kernel.Shell.State.{Shell, slice, text}
use astra_os.Kernel.Shell.Line.{shift_left, shift_right, remove_at, insert_char}
use astra_os.Kernel.Shell.Line.Shift.{
  slice_at, length-slice, slice-same, slice-append, take-slice, drop-slice, shift_left-before,
  shift_left-inside, shift_right-outside, shift_right-inside,
}
use astra_os.Kernel.Shell.Line.Edit.{without}

pub text-remove_at :
    (pos cursor : ℕ) (s : Shell)
    → pos < s.buffer_length
    → text (remove_at pos cursor s) ≡ without pos (text s)
unfolding text remove_at
text-remove_at pos cursor s lt =
    slice_at after (len - 1) (pos + (len - 1 - pos)) 0 0 (omega arith) refl
    ∙ slice-append after 0 pos (len - 1 - pos)
    ∙ ap (◌++ slice after (0 + pos) (len - 1 - pos)) before
    ∙ ap (take pos (slice buf 0 len) ++◌) behind
  where
    len : ℕ
    len = s.buffer_length

    buf : ℕ → ℕ
    buf = s.command_buffer

    after : ℕ → ℕ
    after = update (shift_left (len - 1 - pos) pos buf) (len - 1) 0

    before : slice after 0 pos ≡ take pos (slice buf 0 len)
    before =
        slice-same after buf 0 0 pos (λ k lt'.
          update_ne (shift_left (len - 1 - pos) pos buf) (len - 1) 0 (0 + k) (omega arith)
          ∙ shift_left-before (len - 1 - pos) pos buf (0 + k) (omega arith))
        ∙ sym (take-slice buf 0 pos len (omega arith))

    behind : slice after (0 + pos) (len - 1 - pos) ≡ drop (pos + 1) (slice buf 0 len)
    behind =
        slice-same after buf (0 + pos) (0 + (pos + 1)) (len - 1 - pos) (λ k lt'.
          update_ne (shift_left (len - 1 - pos) pos buf) (len - 1) 0 (0 + pos + k) (omega arith)
          ∙ ap (shift_left (len - 1 - pos) pos buf) (omega arith)
          ∙ shift_left-inside (len - 1 - pos) pos buf k lt'
          ∙ ap buf (omega arith))
        ∙ slice_at buf (len - 1 - pos) (len - (pos + 1)) (0 + (pos + 1)) (0 + (pos + 1))
            (omega arith) refl
        ∙ sym (drop-slice buf 0 (pos + 1) len)

pub text-insert_char :
    (c : ℕ) (s : Shell)
    → s.cursor_pos ≤ s.buffer_length
    → text (insert_char c s) ≡ take s.cursor_pos (text s) ++ c ∷ drop s.cursor_pos (text s)
unfolding text insert_char slice
text-insert_char c s le =
    slice_at after (len + 1) (pos + suc (len - pos)) 0 0 (omega arith) refl
    ∙ slice-append after 0 pos (suc (len - pos))
    ∙ ap (◌++ slice after (0 + pos) (suc (len - pos))) before
    ∙ ap (λ d. take pos (slice buf 0 len) ++ d ∷ slice after (0 + pos + 1) (len - pos)) here
    ∙ ap (λ r. take pos (slice buf 0 len) ++ c ∷ r) behind
  where
    len : ℕ
    len = s.buffer_length

    pos : ℕ
    pos = s.cursor_pos

    buf : ℕ → ℕ
    buf = s.command_buffer

    shifted : ℕ → ℕ
    shifted = shift_right (len - pos) len buf

    after : ℕ → ℕ
    after = update (update shifted pos c) (len + 1) 0

    below_end : (j : ℕ) → j ≤ len → after j ≡ update shifted pos c j
    below_end j lt = update_ne (update shifted pos c) (len + 1) 0 j (omega arith)

    before : slice after 0 pos ≡ take pos (slice buf 0 len)
    before =
        slice-same after buf 0 0 pos (λ k lt'.
          below_end (0 + k) (omega arith)
          ∙ update_ne shifted pos c (0 + k) (omega arith)
          ∙ shift_right-outside (len - pos) len buf (0 + k) (omega arith) (inr (omega arith)))
        ∙ sym (take-slice buf 0 pos len (omega arith))

    here : after (0 + pos) ≡ c
    here = ap after (omega arith) ∙ below_end pos le ∙ update_self shifted pos c

    behind : slice after (0 + pos + 1) (len - pos) ≡ drop pos (slice buf 0 len)
    behind =
        slice-same after buf (0 + pos + 1) (0 + pos) (len - pos) (λ k lt'.
          below_end (0 + pos + 1 + k) (omega arith)
          ∙ update_ne shifted pos c (0 + pos + 1 + k) (omega arith)
          ∙ shift_right-inside (len - pos) len buf (0 + pos + 1 + k) (omega arith) (omega arith)
              (omega arith)
          ∙ ap buf (omega arith))
        ∙ sym (drop-slice buf 0 pos len)

pub length-text : (s : Shell) → length (text s) ≡ s.buffer_length
unfolding text
length-text s = length-slice s.command_buffer 0 s.buffer_length
