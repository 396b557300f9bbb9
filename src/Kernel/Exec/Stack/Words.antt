-- ===== src/Kernel/Exec/Stack/Words.antt =====
-- The words of the argument vector.
use astra_os.Base.{
  ℕ, zero, suc, ◌+◌, ◌*◌, ◌^◌, ◌≤◌, ◌<◌, ◌≡◌, ◌∙◌, refl, arith, List, [], ◌∷◌, length, get_or, All,
}
use astra_os.Kernel.Bytes.{Mem}
use astra_os.Kernel.Exec.{Stacked, push_u32, push_words, word_bytes, push_bytes}
use astra_os.Kernel.Exec.Stack.{IsPushed, IsPushed-trans, push_bytes-IsPushed, push_bytes_inside}

-- the `uint32_t` at an address
abbrev pub read_u32 : Mem → ℕ → ℕ
read_u32 m a = m a + m (a + 1) * 256 + m (a + 2) * 65536 + m (a + 3) * 16777216

module _ (s : Stacked) (v : ℕ) (room : 4 ≤ s.sp) (low : s.sp < 2 ^ 32) where
  pub push_u32-IsPushed : IsPushed 4 s (push_u32 s v)
  unfolding push_u32
  push_u32-IsPushed = push_bytes-IsPushed s (word_bytes v) room low

  pub read-push_u32 : v < 2 ^ 32 → read_u32 (push_u32 s v).mem (push_u32 s v).sp ≡ v
  unfolding push_u32
  read-push_u32 h =
      let t = push_bytes s (word_bytes v) in
      let z : t.sp + 0 ≡ t.sp = omega arith in
      omega (
        arith,
        (rw z at (push_bytes_inside s (word_bytes v) room low 0 (omega arith))),
        push_bytes_inside s (word_bytes v) room low 1 (omega arith),
        push_bytes_inside s (word_bytes v) room low 2 (omega arith),
        push_bytes_inside s (word_bytes v) room low 3 (omega arith),
      )

-- a word survives a push below it
pub read_u32-IsPushed :
    {n : ℕ} (s t : Stacked) (a : ℕ)
    → IsPushed n s t
    → s.sp ≤ a
    → read_u32 t.mem a ≡ read_u32 s.mem a
read_u32-IsPushed s t a p le = omega (
  arith,
  p.same a (omega arith),
  p.same (a + 1) (omega arith),
  p.same (a + 2) (omega arith),
  p.same (a + 3) (omega arith),
)

pub push_words-IsPushed :
    (vs : List ℕ) (s : Stacked)
    → 4 * length vs ≤ s.sp
    → s.sp < 2 ^ 32
    → IsPushed (4 * length vs) s (push_words vs s)
unfolding push_words
push_words-IsPushed [] s room low = record { down = omega arith; same = λ a out. refl }
push_words-IsPushed (v ∷ vs) s room low =
    let rest = push_words-IsPushed vs s (omega arith) low in
    let top =
      push_u32-IsPushed (push_words vs s) v (omega (arith, rest.down)) (omega (arith, rest.down)) in
    let all = IsPushed-trans rest top in record { down = omega (arith, all.down); same = all.same }

-- the words stand in their order, the first at the stack pointer
pub read-push_words :
    (vs : List ℕ) (s : Stacked)
    → 4 * length vs ≤ s.sp
    → s.sp < 2 ^ 32
    → All (λ v. v < 2 ^ 32) vs
    → (i : ℕ) → i < length vs
    → read_u32 (push_words vs s).mem ((push_words vs s).sp + 4 * i) ≡ get_or vs i 0
unfolding push_words
read-push_words [] s room low words i h = absurd (omega arith)
read-push_words (v ∷ vs) s room low words zero h =
    let rest = push_words-IsPushed vs s (omega arith) low in
    let t = push_words vs s in
    let z : (push_u32 t v).sp + 4 * 0 ≡ (push_u32 t v).sp = omega arith in
    rw z (read-push_u32 t v (omega (arith, rest.down)) (omega (arith, rest.down)) words.0)
read-push_words (v ∷ vs) s room low words (suc i) h =
    let rest = push_words-IsPushed vs s (omega arith) low in
    let t = push_words vs s in
    let top = push_u32-IsPushed t v (omega (arith, rest.down)) (omega (arith, rest.down)) in
    let e : (push_u32 t v).sp + 4 * suc i ≡ t.sp + 4 * i = omega (arith, top.down) in
    rw e (
      read_u32-IsPushed t (push_u32 t v) (t.sp + 4 * i) top (omega arith)
      ∙ read-push_words vs s (omega arith) low words.1 i (omega arith))
