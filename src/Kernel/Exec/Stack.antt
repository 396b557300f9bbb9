-- ===== src/Kernel/Exec/Stack.antt =====
-- What a program finds on its stack.
pub mod Words
pub mod Args
pub mod Layout
use astra_os.Base.{
  ℕ, zero, suc, ◌+◌, ◌-◌, ◌*◌, ◌/◌, ◌%◌, ◌^◌, ◌≤◌, ◌<◌, ◌≡◌, ◌∙◌, refl, arith, List, [], ◌∷◌, ◌++◌,
  length, take, get_or, length-append, length-take-le,
}
use astra_os.Kernel.Bytes.{Mem, Outside, write_bytes-Outside, write_bytes_inside}
use astra_os.Kernel.Exec.{Stacked, push_bytes, arg_bytes}

-- `t` is `s` with `n` bytes pushed: memory above and below them is as it was
pub record IsPushed (n : ℕ) (s t : Stacked) : Type 0 where
  pub down : t.sp + n ≡ s.sp
  pub same : (a : ℕ) → Outside t.sp s.sp a → t.mem a ≡ s.mem a

pub IsPushed-trans :
    {n k : ℕ} {s t u : Stacked} → IsPushed n s t → IsPushed k t u → IsPushed (k + n) s u
IsPushed-trans p q = record {
  down = omega (arith, p.down, q.down);
  same =
      λ a out. q.same a (omega (arith, p.down, q.down)) ∙ p.same a (omega (arith, p.down, q.down));
}

module _ (s : Stacked) (bytes : List ℕ) (room : length bytes ≤ s.sp) (low : s.sp < 2 ^ 32) where
  push_sp : (push_bytes s bytes).sp ≡ s.sp - length bytes
  unfolding push_bytes
  push_sp = omega arith

  pub push_bytes-IsPushed : IsPushed (length bytes) s (push_bytes s bytes)
  push_bytes-IsPushed = record {
    down = omega (arith, push_sp);
    same = λ a out.
        unfold push_bytes in
        write_bytes-Outside s.mem (push_bytes s bytes).sp bytes a (omega (arith, push_sp));
  }

  pub push_bytes_inside :
      (i : ℕ)
      → i < length bytes
      → (push_bytes s bytes).mem ((push_bytes s bytes).sp + i) ≡ get_or bytes i 0
  push_bytes_inside i h =
      unfold push_bytes in write_bytes_inside s.mem (push_bytes s bytes).sp bytes i h

pub length-arg_bytes : (arg : List ℕ) → length (arg_bytes arg) ≤ 256
length-arg_bytes arg = omega (arith, length-append (take 255 arg) (0 ∷ []), length-take-le 255 arg)
